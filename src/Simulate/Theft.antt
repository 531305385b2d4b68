-- ===== src/Simulate/Theft.antt =====
-- simulate/attacks.py: two nodes that pool their shares.
use decentralized_idp.Prelude.{
  ℕ, ◌-◌, ◌^◌, ◌<◌, ◌≤◌, ◌≡◌, ◌≢◌, refl, sym, ap, List, [], ◌∷◌, Elem, some, ok, false, Bool-cases,
  inl, inr, arith,
}
use decentralized_idp.Stdlib.Bytes.{Str, bytes_eq, eq_of_bytes_eq, to_bytes, big_endian}
use decentralized_idp.Stdlib.Hex.{hex, hex_injective}
use decentralized_idp.Stdlib.Json.{Codec}
use decentralized_idp.External.{Hashing, IsHashing, Aead}
use decentralized_idp.Arith.Prime.{IsPrime}
use decentralized_idp.Crypto.Lagrange.{Share, lagrange_interpolate}
use decentralized_idp.Crypto.Sss.{generate_shares}
use decentralized_idp.Crypto.Hkdf.{commitment_hash}
use decentralized_idp.Crypto.TwoShares.{lagrange_interpolate-two_shares}
use decentralized_idp.Crypto.Sharing.{generate_shares_inv}
use decentralized_idp.Node.ShareStore.{get_share}
use decentralized_idp.Node.Answers.{Node}
use decentralized_idp.Node.Transport.{find_node, register_all}
use decentralized_idp.Ledger.{Ledger, get_commitment_hash}
use decentralized_idp.Simulate.{node_at, steal_shares, try_shares, theft}

-- The node of the list that has the id holds the share for the DID.
pub record IsHolder (hashing : Hashing) (aead : Aead) (did : Str) (nodes : List Node) (id : ℕ)
    (share : Share) : Type 0 where
  pub node : Node
  pub found : find_node id (register_all nodes []) ≡ some node
  pub held : get_share hashing aead did node.share_store ≡ ok (some share)

module _ (hashing : Hashing) (aead : Aead) (p : ℕ) where
  to_bytes-ok : (v width : ℕ) → v < 256 ^ width → to_bytes v width ≡ ok (big_endian width v)
  unfolding to_bytes
  to_bytes-ok v width small = ground arith

  digest_of :
      (secret : ℕ) (digest : Str)
      → secret < 256 ^ 32
      → commitment_hash hashing secret ≡ ok digest
      → hex (hashing.sha3_256 (big_endian 32 secret)) ≡ digest
  unfolding commitment_hash to_bytes
  digest_of secret digest small e = ground arith

  steal_shares_two :
      (did : Str) (nodes : List Node) (i j : ℕ) (a b : Share)
      → IsHolder hashing aead did nodes i a
      → IsHolder hashing aead did nodes j b
      → steal_shares hashing aead p (register_all nodes []) did (i ∷ j ∷ [])
        ≡ ok (some (a ∷ b ∷ []))
  unfolding steal_shares node_at
  steal_shares_two did nodes i j a b ha hb = rw (ha.found, ha.held, hb.found, hb.held) refl

  -- Values with different digests are judged different.
  other_digest :
      IsHashing hashing
      → (v secret : ℕ)
      → hashing.sha3_256 (big_endian 32 v) ≢ hashing.sha3_256 (big_endian 32 secret)
      → bytes_eq
          (hex (hashing.sha3_256 (big_endian 32 v)))
          (hex (hashing.sha3_256 (big_endian 32 secret)))
        ≡ false
  other_digest law v secret ne =
      elim (Bool-cases (
        bytes_eq (hex (hashing.sha3_256 (big_endian 32 v)))
          (hex (hashing.sha3_256 (big_endian 32 secret))))) [
            | inl same ↦ absurd (
                ne (
                  hex_injective (hashing.sha3_256 (big_endian 32 v))
                    (hashing.sha3_256 (big_endian 32 secret)) (law.sha3_bytes (big_endian 32 v))
                    (law.sha3_bytes (big_endian 32 secret)) (eq_of_bytes_eq _ _ same)))
            | inr other ↦ other
          ]

  -- Two nodes that hold shares of different indices and pool them do not get the secret: the attack
  -- runs to its end and reports failure, provided that the one value that the two shares interpolate
  -- to, if it is not the secret, does not have the secret's digest; over a prime above the number of
  -- shares that fits 32 bytes, with the leading coefficient drawn below p - 1 as the code draws it, and
  -- the ledger's entry for the DID made from the secret.
  -- Two nodes that hold shares of different indices and pool them do not get the secret: the attack
  -- reports failure, or it has found a second message with the digest in the ledger; over a prime
  -- above the number of shares that fits 32 bytes, with the leading coefficient drawn below p - 1
  -- as the code draws it, and the ledger's entry for the DID made from the secret.
  pub theft_fails :
      IsHashing hashing
      → IsPrime p
      → (codec : Codec) (draw : ℕ → ℕ) (secret n : ℕ) (shares : List Share) (a b : Share) (i j : ℕ)
        (nodes : List Node) (ledger : Ledger) (did digest : Str)
      → n < p
      → p ≤ 256 ^ 32
      → draw 1 < p - 1
      → generate_shares draw secret 3 n p ≡ ok shares
      → Elem a shares
      → Elem b shares
      → a.0 ≢ b.0
      → IsHolder hashing aead did nodes i a
      → IsHolder hashing aead did nodes j b
      → commitment_hash hashing secret ≡ ok digest
      → get_commitment_hash codec did ledger ≡ ok (some digest)
      → ((v : ℕ)
          → lagrange_interpolate (a ∷ b ∷ []) p ≡ ok v
          → v ≢ secret
          → hashing.sha3_256 (big_endian 32 v) ≢ hashing.sha3_256 (big_endian 32 secret))
      → theft hashing aead p codec (i ∷ j ∷ []) nodes ledger did ≡ ok false
  unfolding theft try_shares
  theft_fails law prime codec draw secret n shares a b i j nodes ledger did digest small fits drawn
        e ma mb ne ha hb committed stored apart =
      let inv = generate_shares_inv draw secret 3 n p shares e in
      let found =
        lagrange_interpolate-two_shares draw secret n p shares a b prime small drawn e ma mb ne in
      let v = found.0 in
      let hv : v < 256 ^ 32 = omega (arith, found.2) in
      let hs : secret < 256 ^ 32 = omega (arith, inv.0.secret_small, prime.large) in
      rw
        (
          steal_shares_two did nodes i j a b ha hb,
          found.1,
          to_bytes-ok v 32 hv,
          stored,
          sym (digest_of secret digest hs committed),
        )
        (ap ok (other_digest law v secret (apart v found.1 found.3)))
