-- ===== src/Node/PartialProof/Recovery.antt =====
-- node/partial_proof.py: the answers of enough honest nodes give back the shared secret.
use native.Mathlib.Nat.{mod-mod}
use decentralized_idp.Prelude.{
  ℕ, suc, ◌+◌, ◌-◌, ◌*◌, ◌%◌, ◌^◌, ◌≤◌, ◌<◌, ◌≡◌, ◌≢◌, refl, sym, ap, subst, ◌∙◌, List, [], ◌∷◌,
  ok_injective, ok, arith, All, All-mono, Elem, length, ltb, false,
}
use decentralized_idp.Arith.Cong.{Cong, Cong-refl, Cong-of_eq, Cong-trans, Cong-mod, Cong-mul}
use decentralized_idp.Arith.Prime.{IsPrime, fermat_inverse}
use decentralized_idp.Stdlib.Bytes.{Bytes, from_bytes}
use decentralized_idp.Stdlib.Hex.{hex, int_16, int_16-hex}
use decentralized_idp.External.{Hashing, IsHashing}
use decentralized_idp.Crypto.Lagrange.{Share, lagrange_interpolate}
use decentralized_idp.Crypto.Interpolation.{eval, Distinct}
use decentralized_idp.Crypto.Sss.{generate_shares}
use decentralized_idp.Crypto.Recovery.{xs_of, IsOn, lagrange_interpolate-IsOn}
use decentralized_idp.Crypto.Sharing.{IsShareOf, generate_shares-IsShareOf}
use decentralized_idp.Node.PartialProof.{
  Proof, compute_partial_proof, recovered_shares, recover_secret_from_partial_proofs,
}

-- The proof is the honest answer to the challenge nonce by a holder of one of the shares.
abbrev pub IsAnswer : Hashing → ℕ → Bytes → List Share → Proof → Type 0
IsAnswer hashing p nonce shares q =
    (s : Share) × Elem s shares × (compute_partial_proof hashing p s nonce q.node_id ≡ ok q)

abbrev pub proof_xs : List Proof → List ℕ
proof_xs [] = []
proof_xs (q ∷ rest) = q.x ∷ proof_xs rest

length-proof_xs : (proofs : List Proof) → length (proof_xs proofs) ≡ length proofs
length-proof_xs [] = refl
length-proof_xs (q ∷ rest) = ap suc (length-proof_xs rest)

-- An honest answer carries the index of its share, the share's y times H, and the H of the nonce.
pub record IsScaled (p : ℕ) (s : Share) (h : ℕ) (q : Proof) : Type 0 where
  pub x_eq : q.x ≡ s.0
  pub value_eq : q.partial_value ≡ s.1 * h % p
  pub h_eq : q.h ≡ h

-- The text of a digest spells the number of its bytes.
pub digest_number :
    (hashing : Hashing) (m : Bytes)
    → IsHashing hashing
    → int_16 (hex (hashing.sha3_256 m)) ≡ ok (from_bytes (hashing.sha3_256 m))
digest_number hashing m ish = go (hashing.sha3_256 m) (ish.sha3_length m) (ish.sha3_bytes m)
  where
    go : (d : Bytes) → length d ≡ 32 → All (λ b. b < 256) d → int_16 (hex d) ≡ ok (from_bytes d)
    go [] len bytes = absurd (omega arith)
    go (b ∷ d) len bytes = int_16-hex b d bytes

pub compute_partial_proof_inv :
    (hashing : Hashing) (p : ℕ) (s : Share) (nonce : Bytes) (id : ℕ) (q : Proof) (number : ℕ)
    → int_16 (hex (hashing.sha3_256 nonce)) ≡ ok number
    → compute_partial_proof hashing p s nonce id ≡ ok q
    → IsScaled p s (number % p) q
unfolding compute_partial_proof
compute_partial_proof_inv hashing p s nonce id q number n e =
    let eq : q ≡ record {
      node_id = id;
      x = s.0;
      partial_value = (s.1 * (number % p)) % p;
      h = number % p;
      challenge_hash = hex (hashing.sha3_256 nonce);
    } =
      ok_injective (sym e ∙ rw n refl) in
    rw eq (record { x_eq = refl; value_eq = refl; h_eq = refl })

module _ {p : ℕ} (prime : IsPrime p) (h : ℕ) (unit : h % p ≢ 0) where
  -- Dividing by H gives the share value back.
  divide : (v y : ℕ) → v ≡ y * h % p → Cong p (v * (h ^ (p - 2) % p) % p) y
  divide v y e = Cong-trans (Cong-mod (v * (h ^ (p - 2) % p))) (
      Cong-trans (Cong-mul (Cong-trans (Cong-of_eq e) (Cong-mod (y * h))) (Cong-mod (h ^ (p - 2))))
        (Cong-trans (Cong-of_eq {b = y * (h * h ^ (p - 2))} (omega arith)) (
          Cong-trans (Cong-mul (Cong-refl y) (fermat_inverse prime h unit))
            (Cong-of_eq (omega arith)))))

  recovered_shares-IsOn :
      (cs : List ℕ) (n : ℕ) (proofs : List Proof)
      → n < p
      → All (λ q. (s : Share) × IsShareOf p cs 1 (1 + n) s × IsScaled p s h q) proofs
      → let shares = recovered_shares p (h ^ (p - 2) % p) proofs in
        All (λ z. z < p) (xs_of shares) × IsOn p cs shares × (xs_of shares ≡ proof_xs proofs)
  unfolding recovered_shares
  recovered_shares-IsOn cs n [] small a = (tt, tt, refl)
  recovered_shares-IsOn cs n (q ∷ rest) small ((s, of, scaled), a) =
      let rec = recovered_shares-IsOn cs n rest small a in
      (
        (rw scaled.x_eq (omega (arith, of.index_high)), rec.0),
        (
          Cong-trans (divide q.partial_value s.1 scaled.value_eq)
              (Cong-trans of.on (Cong-of_eq (ap (λ u. eval u cs) (sym scaled.x_eq)))),
          rec.1,
        ),
        ap (λ l. q.x ∷ l) rec.2,
      )

  recover_scaled :
      (cs : List ℕ) (n : ℕ) (proofs : List Proof)
      → n < p
      → All (λ q. (s : Share) × IsShareOf p cs 1 (1 + n) s × IsScaled p s h q) proofs
      → Distinct (proof_xs proofs)
      → 3 ≤ length proofs
      → length cs ≤ length proofs
      → recover_secret_from_partial_proofs p proofs ≡ ok (eval 0 cs % p)
  unfolding recover_secret_from_partial_proofs
  recover_scaled cs n [] small a ne enough len = absurd (omega arith)
  recover_scaled cs n (q ∷ rest) small a ne enough len =
      let on = recovered_shares-IsOn cs n (q ∷ rest) small a in
      let test : ltb (length (q ∷ rest)) 3 ≡ false = ground (arith, enough) in
      let restored =
        lagrange_interpolate-IsOn prime cs (recovered_shares p (h ^ (p - 2) % p) (q ∷ rest)) on.0
          (subst Distinct (sym on.2) ne) on.1
          (omega (arith, ap length on.2, length-proof_xs (q ∷ rest))) in
      rw test (
        ap (λ u. lagrange_interpolate (recovered_shares p (u ^ (p - 2) % p) (q ∷ rest)) p)
          a.0.2.h_eq
        ∙ restored)

-- Honest answers to one challenge, from at least three and at least t holders of different shares,
-- recover the shared secret, over a prime above the number of shares, provided that the challenge's H
-- is not zero in the field.
pub recover_secret-compute_partial_proof :
    (hashing : Hashing) (draw : ℕ → ℕ) (secret t n p : ℕ) (shares : List Share) (nonce : Bytes)
    (proofs : List Proof)
    → IsHashing hashing
    → IsPrime p
    → n < p
    → generate_shares draw secret t n p ≡ ok shares
    → from_bytes (hashing.sha3_256 nonce) % p ≢ 0
    → All (IsAnswer hashing p nonce shares) proofs
    → Distinct (proof_xs proofs)
    → 3 ≤ length proofs
    → t ≤ length proofs
    → recover_secret_from_partial_proofs p proofs ≡ ok secret
recover_secret-compute_partial_proof hashing draw secret t n p shares nonce proofs ish prime small e
      unit answers ne enough len =
    let poly = generate_shares-IsShareOf draw secret t n p shares e in
    let number = from_bytes (hashing.sha3_256 nonce) in
    recover_scaled prime (number % p) (λ z. unit (sym (mod-mod number p) ∙ z)) poly.0 n proofs small
      (All-mono (IsAnswer hashing p nonce shares)
        (λ q. (s : Share) × IsShareOf p poly.0 1 (1 + n) s × IsScaled p s (number % p) q) proofs
        (λ q answer. (
          answer.0,
          poly.3 answer.0 answer.1,
          compute_partial_proof_inv hashing p answer.0 nonce q.node_id q number
              (digest_number hashing nonce ish) answer.2,
        ))
        answers)
      ne enough (omega (arith, poly.1))
    ∙ ap ok poly.2
