-- ===== src/Crypto/Commitments.antt =====
-- crypto/feldman.py: the published commitments accept each share and bind its value.
use mathlib.Core.List.{append_cancel_left}
use decentralized_idp.Prelude.{
  ℕ, zero, suc, ◌+◌, ◌^◌, ◌<◌, ◌≡◌, sym, ap, ◌∙◌, List, [], ◌∷◌, ◌++◌, true, false, Option, some,
  ok, ◌>>=◌, >>=-eq-ok, arith, length, leb, Bool-cases, inl, inr, get_elem?,
}
use decentralized_idp.Stdlib.Bytes.{
  Bytes, bytes_eq_refl, eq_of_bytes_eq, to_bytes, big_endian, from_bytes, from_bytes-big_endian,
}
use decentralized_idp.External.{Hashing, NoCollision}
use decentralized_idp.Crypto.Feldman.{
  commitment, commitment_loop, salt_or, generate_commitments, matches_at, verify_share,
}

-- The message whose digest commits to the value under the index.
abbrev pub committed : Bytes → ℕ → ℕ → Bytes
committed salt i v = salt ++ (big_endian 4 i ++ big_endian 32 v)

module _ (h : Hashing) where
  -- What a commitment that does not raise is a digest of.
  commitment_inv :
      (salt : Bytes) (i v : ℕ) (digest : Bytes)
      → commitment h salt i v ≡ ok digest
      → (v < 256 ^ 32) × (digest ≡ h.sha3_256 (committed salt i v))
  unfolding commitment to_bytes
  commitment_inv salt i v digest e = ground arith

  commitment_loop_at :
      (salt : Bytes) (i : ℕ) (values : List ℕ) (cs : List Bytes) (idx y : ℕ)
      → commitment_loop h salt i values ≡ ok cs
      → get_elem? values idx ≡ some y
      → (digest : Bytes) × (commitment h salt (i + idx) y ≡ ok digest)
        × (matches_at h digest cs idx ≡ true)
        × (idx < length cs)
  unfolding commitment_loop matches_at
  commitment_loop_at salt i [] cs idx y e at = cc
  commitment_loop_at salt i (v ∷ values) cs zero y e at =
      let first =
        >>=-eq-ok (commitment h salt i v)
          (λ digest. do others ← commitment_loop h salt (suc i) values; ok (digest ∷ others)) e in
      let others =
        >>=-eq-ok (commitment_loop h salt (suc i) values) (λ others. ok (first.0 ∷ others))
          first.2 in
      let eq : cs ≡ first.0 ∷ others.0 = ground (arith, others.2) in
      let v_eq : v ≡ y = ground (arith, at) in
      (
        first.0,
        ap (λ u. commitment h salt u y) {x = i + zero} {y = i} (omega arith)
            ∙ ap (commitment h salt i) (sym v_eq)
            ∙ first.1,
        rw eq (bytes_eq_refl first.0),
        rw eq (omega arith),
      )
  commitment_loop_at salt i (v ∷ values) cs (suc idx) y e at =
      let first =
        >>=-eq-ok (commitment h salt i v)
          (λ digest. do others ← commitment_loop h salt (suc i) values; ok (digest ∷ others)) e in
      let others =
        >>=-eq-ok (commitment_loop h salt (suc i) values) (λ others. ok (first.0 ∷ others))
          first.2 in
      let eq : cs ≡ first.0 ∷ others.0 = ground (arith, others.2) in
      let rec = commitment_loop_at salt (suc i) values others.0 idx y others.1 at in
      let shift : suc i + idx ≡ i + suc idx = omega arith in
      (rec.0, rw shift at rec.1, rw eq rec.2, rw eq (omega (arith, rec.3)))

  matches_at_unique :
      (d d' : Bytes) (cs : List Bytes) (idx : ℕ)
      → matches_at h d cs idx ≡ true
      → matches_at h d' cs idx ≡ true
      → d ≡ d'
  unfolding matches_at
  matches_at_unique d d' [] idx e e' = cc
  matches_at_unique d d' (c ∷ cs) zero e e' = eq_of_bytes_eq d c e ∙ sym (eq_of_bytes_eq d' c e')
  matches_at_unique d d' (c ∷ cs) (suc idx) e e' = matches_at_unique d d' cs idx e e'

  -- Inversion of a check that succeeds.
  verify_share_inv :
      (idx y : ℕ) (cs : List Bytes) (salt : Bytes)
      → verify_share h (suc idx, y) cs salt ≡ ok true
      → (digest : Bytes) × (commitment h salt idx y ≡ ok digest)
        × (matches_at h digest cs idx ≡ true)
  unfolding verify_share
  verify_share_inv idx y cs salt e = elim (Bool-cases (leb (length cs) idx)) [
    | inl out ↦ absurd (cc (rw out at e))
    | inr within ↦
        let inv =
          >>=-eq-ok (commitment h salt idx y) (λ digest. ok (matches_at h digest cs idx))
            (rw within at e) in
        (inv.0, inv.1, ground (arith, inv.2))
  ]

  -- Every published value verifies under its index, counted from 1.
  pub verify_share-generate_commitments :
      (urandom : Bytes) (values : List ℕ) (given : Option Bytes) (commitments : List Bytes)
      (salt : Bytes) (idx y : ℕ)
      → generate_commitments h urandom values given ≡ ok (commitments, salt)
      → get_elem? values idx ≡ some y
      → verify_share h (suc idx, y) commitments salt ≡ ok true
  unfolding generate_commitments verify_share
  verify_share-generate_commitments urandom values given commitments salt idx y e at =
      let inv =
        >>=-eq-ok (commitment_loop h (salt_or h given urandom) 0 values)
          (λ cs. ok (cs, salt_or h given urandom)) e in
      let cs_eq : inv.0 ≡ commitments = ground (arith, inv.2) in
      let salt_eq : salt_or h given urandom ≡ salt = ground (arith, inv.2) in
      let found = commitment_loop_at (salt_or h given urandom) 0 values inv.0 idx y inv.1 at in
      let c : commitment h salt idx y ≡ ok found.0 =
        ap (λ s. commitment h s idx y) (sym salt_eq)
        ∙ ap (λ u. commitment h (salt_or h given urandom) u y) {x = idx} {y = 0 + idx} (omega arith)
        ∙ found.1 in
      let m : matches_at h found.0 commitments idx ≡ true =
        ap (λ cs. matches_at h found.0 cs idx) (sym cs_eq) ∙ found.2 in
      let within : idx < length commitments = rw (← cs_eq) found.3 in
      let test : leb (length commitments) idx ≡ false = ground (arith, within) in
      rw (test, c) (ap ok m)

  -- Two values that verify under one index are equal, unless their commitments collide in the hash.
  pub verify_share_binding :
      (idx y y' : ℕ) (commitments : List Bytes) (salt : Bytes)
      → NoCollision h (committed salt idx y) (committed salt idx y')
      → verify_share h (suc idx, y) commitments salt ≡ ok true
      → verify_share h (suc idx, y') commitments salt ≡ ok true
      → y ≡ y'
  verify_share_binding idx y y' commitments salt free e e' =
      let a = verify_share_inv idx y commitments salt e in
      let b = verify_share_inv idx y' commitments salt e' in
      let c = commitment_inv salt idx y a.0 a.1 in
      let d = commitment_inv salt idx y' b.0 b.1 in
      let same = free (sym c.1 ∙ matches_at_unique a.0 b.0 commitments idx a.2 b.2 ∙ d.1) in
      sym (from_bytes-big_endian 32 y c.0)
      ∙ ap from_bytes (append_cancel_left (big_endian 4 idx) _ _ (append_cancel_left salt _ _ same))
      ∙ from_bytes-big_endian 32 y' d.0
