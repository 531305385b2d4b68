-- ===== src/Authentication/Flow/Search.antt =====
-- authentication/authenticate.py: how the search over the subsets ends.
use decentralized_idp.Prelude.{
  ℕ, ◌%◌, ◌-◌, ◌^◌, ◌≤◌, ◌<◌, ◌≡◌, ◌≢◌, refl, sym, ap, subst, ◌∙◌, List, [], ◌∷◌, false, some, ok,
  arith, All, ok_injective, Elem, inl, inr, Bool-cases, length, ltb,
}
use decentralized_idp.Stdlib.Bytes.{Str, bytes_eq, bytes_eq_iff, to_bytes, big_endian}
use decentralized_idp.Stdlib.Hex.{hex}
use decentralized_idp.Stdlib.Json.{Codec}
use decentralized_idp.External.{Hashing}
use decentralized_idp.Arith.Prime.{IsPrime}
use decentralized_idp.Crypto.Interpolation.{Distinct}
use decentralized_idp.Crypto.Recovery.{xs_of}
use decentralized_idp.Crypto.Totality.{reduced, lagrange_interpolate-ok}
use decentralized_idp.Crypto.Hkdf.{commitment_hash}
use decentralized_idp.Node.PartialProof.{
  Proof, first_h, recovered_shares, recover_secret_from_partial_proofs,
}
use decentralized_idp.Node.PartialProof.Recovery.{proof_xs}
use decentralized_idp.Authentication.Flow.Sublists.{residues}
use decentralized_idp.Authentication.Flow.{search}

residues-recovered_shares :
    (p h_inv : ℕ) (proofs : List Proof)
    → xs_of (reduced p (recovered_shares p h_inv proofs)) ≡ residues p proofs
unfolding recovered_shares
residues-recovered_shares p h_inv [] = refl
residues-recovered_shares p h_inv (q ∷ rest) =
    ap (λ l. q.x % p ∷ l) (residues-recovered_shares p h_inv rest)

-- Indices that differ in the field differ.
pub Distinct-residues :
    (p : ℕ) (proofs : List Proof) → Distinct (residues p proofs) → Distinct (proof_xs proofs)
Distinct-residues p [] d = tt
Distinct-residues p (q ∷ rest) d = (apart rest d.0, Distinct-residues p rest d.1)
  where
    apart :
        (ps : List Proof)
        → All (λ z. z ≢ q.x % p) (residues p ps)
        → All (λ z. z ≢ q.x) (proof_xs ps)
    apart [] a = tt
    apart (r ∷ ps) a = ((λ e. a.0 (ap (λ u. u % p) e)), apart ps a.1)

-- Any three proofs recover some element of the field, if their indices differ in it.
pub Recovers : ℕ → List Proof → Type 0
Recovers p s = (v : ℕ) × (recover_secret_from_partial_proofs p s ≡ ok v) × (v < p)

pub three-Recovers :
    {p : ℕ} (s : List Proof) → IsPrime p → length s ≡ 3 → Distinct (residues p s) → Recovers p s
unfolding recover_secret_from_partial_proofs Recovers
three-Recovers {p} s prime three d =
    let h_inv = first_h s ^ (p - 2) % p in
    let enough : ltb (length s) 3 ≡ false = ground (arith, three) in
    rw enough (
      lagrange_interpolate-ok prime (recovered_shares p h_inv s)
        (subst Distinct (sym (residues-recovered_shares p h_inv s)) d))

commitment_hash-ok :
    (hashing : Hashing) (v : ℕ)
    → v < 256 ^ 32
    → (digest : Str) × (commitment_hash hashing v ≡ ok digest)
unfolding commitment_hash to_bytes
commitment_hash-ok hashing v small =
    (hex (hashing.sha3_256 (big_endian 32 v)), ground (arith, small))

module _ (hashing : Hashing) (codec : Codec) (p : ℕ) where
  -- The search ends with a subset, at the latest with the one that recovers the secret.
  pub search-Elem :
      (secret : ℕ) (commitment : Str) (good : List Proof) (subsets : List (List Proof))
      → p ≤ 256 ^ 32
      → All (Recovers p) subsets
      → Elem good subsets
      → recover_secret_from_partial_proofs p good ≡ ok secret
      → commitment_hash hashing secret ≡ ok commitment
      → (chosen : List Proof) × (search hashing codec p (some commitment) subsets
          ≡ ok (some chosen))
  unfolding search Recovers
  search-Elem secret commitment good [] fits all m e hashed = absurd m
  search-Elem secret commitment good (s ∷ rest) fits all m e hashed =
      let v = all.0 in
      let digest = commitment_hash-ok hashing v.0 (omega (arith, v.2)) in
      elim (Bool-cases (bytes_eq digest.0 commitment)) [
        | inl hit ↦ (s, rw (v.1, digest.1, hit) refl)
        | inr miss ↦ elim m [
          | inl same ↦
              let at : v.0 ≡ secret =
                ok_injective (sym v.1 ∙ ap (recover_secret_from_partial_proofs p) (sym same) ∙ e) in
              let equal : digest.0 ≡ commitment =
                ok_injective (sym digest.1 ∙ ap (commitment_hash hashing) at ∙ hashed) in
              absurd (cc (sym miss ∙ (bytes_eq_iff digest.0 commitment).1 equal))
          | inr later ↦
              let found = search-Elem secret commitment good rest fits all.1 later e hashed in
              (found.0, rw (v.1, digest.1, miss) found.1)
        ]
      ]
