-- ===== src/Crypto/Totality.antt =====
-- crypto/lagrange.py: when `lagrange_interpolate` returns and when it raises.
use mathlib.Core.List.{append_assoc}
use native.Mathlib.Nat.{mod-lt, mod-eq_of_lt, zero-mod}
use decentralized_idp.Prelude.{
  ℕ, suc, ◌+◌, ◌-◌, ◌*◌, ◌%◌, ◌^◌, ◌<◌, ◌≡◌, ◌≢◌, refl, sym, ap, subst, ◌∙◌, List, [], ◌∷◌, ◌++◌,
  arith, All, length, length-append, ◌==◌, true, false, Bool-cases, ◌⊎◌, inl, inr, ok, err, Error,
  Result, value_error, >>=-eq-ok, ok_injective, Result-cases, ◌>>=◌,
}
use decentralized_idp.Arith.Cong.{Cong-of_eq, Cong-trans}
use decentralized_idp.Arith.Prime.{IsPrime}
use decentralized_idp.Crypto.Lagrange.{
  Share, neg_mod, sub_mod, mod_inverse, extend_basis, basis_loop, interpolate_loop,
  lagrange_interpolate,
}
use decentralized_idp.Crypto.Interpolation.{Distinct, sub_mod-add, cancel_add}
use decentralized_idp.Crypto.Recovery.{xs_of, IsAligned, IsAligned-at, Distinct-middle}

-- The shares with their x reduced modulo p.
abbrev pub reduced : ℕ → List Share → List Share
reduced p [] = []
reduced p (s ∷ rest) = (s.0 % p, s.1) ∷ reduced p rest

reduced-append :
    (p : ℕ) (pre rest : List Share) → reduced p (pre ++ rest) ≡ reduced p pre ++ reduced p rest
reduced-append p [] rest = refl
reduced-append p (s ∷ pre) rest = ap (λ l. (s.0 % p, s.1) ∷ l) (reduced-append p pre rest)

length-reduced : (p : ℕ) (shares : List Share) → length (reduced p shares) ≡ length shares
length-reduced p [] = refl
length-reduced p (s ∷ rest) = ap suc (length-reduced p rest)

module _ {p : ℕ} (prime : IsPrime p) where
  sub_mod-ne-zero_mod : (x a : ℕ) → x % p ≢ a % p → (sub_mod x a p == 0) ≡ false
  sub_mod-ne-zero_mod x a ne = elim (Bool-cases (sub_mod x a p == 0)) [
    | inl zero' ↦
        let e : sub_mod x a p ≡ 0 = ground arith in
        let c =
          Cong-trans (Cong-of_eq {b = sub_mod x a p + a} (omega (arith, e)))
            (sub_mod-add prime x a) in
        absurd (ne (sym c.same))
    | inr other ↦ other
  ]

  sub_mod-eq-zero : (x a : ℕ) → a % p ≡ x % p → sub_mod x a p ≡ 0
  sub_mod-eq-zero x a e =
      let c = cancel_add prime (sub_mod x a p) 0 a (
        Cong-trans (sub_mod-add prime x a)
          (Cong-trans (record { same = sym e }) (Cong-of_eq {b = 0 + a} (omega arith)))) in
      let small : sub_mod x a p < p =
        unfold sub_mod in mod-lt (x + (p - a % p)) {m = p} (omega (arith, prime.large)) in
      sym (mod-eq_of_lt small) ∙ c.same ∙ zero-mod p

  extend_basis-ok : (x a basis : ℕ) → x % p ≢ a % p → (b : ℕ) × (extend_basis p x a basis ≡ ok b)
  unfolding extend_basis mod_inverse
  extend_basis-ok x a basis ne = (
    basis * neg_mod a p % p * (sub_mod x a p ^ (p - 2) % p) % p,
    rw (sub_mod-ne-zero_mod x a ne) refl,
  )

  extend_basis-ne : (x a basis b : ℕ) → extend_basis p x a basis ≡ ok b → a % p ≢ x % p
  unfolding extend_basis mod_inverse
  extend_basis-ne x a basis b e same = absurd (cc (rw (sub_mod-eq-zero x a same) at e))

  basis_loop-ok :
      (i j x : ℕ) (rest : List Share) (basis : ℕ)
      → IsAligned i j (x % p) (reduced p rest)
      → (b : ℕ) × (basis_loop p i x j rest basis ≡ ok b)
  unfolding basis_loop
  basis_loop-ok i j x [] basis al = (basis, refl)
  basis_loop-ok i j x ((a, y) ∷ rest) basis al = elim (Bool-cases (i == j)) [
    | inl same ↦ let rec' = basis_loop-ok i (suc j) x rest basis al.1 in (rec'.0, rw same rec'.1)
    | inr other ↦
        let now = extend_basis-ok x a basis (al.0.1 (ground arith)) in
        let rec' = basis_loop-ok i (suc j) x rest now.0 al.1 in (rec'.0, rw (other, now.1) rec'.1)
  ]

  -- What follows the i-th share in a loop that returned is apart from it.
  basis_loop-apart :
      (i j x : ℕ) (rest : List Share) (basis b : ℕ)
      → i < j
      → basis_loop p i x j rest basis ≡ ok b
      → All (λ z. z ≢ x % p) (xs_of (reduced p rest))
  unfolding basis_loop
  basis_loop-apart i j x [] basis b h e = tt
  basis_loop-apart i j x ((a, y) ∷ rest) basis b h e =
      let other : (i == j) ≡ false = ground arith in
      let a' =
        >>=-eq-ok (extend_basis p x a basis) (λ next. basis_loop p i x (suc j) rest next)
          (rw other at e) in
      (
        extend_basis-ne x a basis a'.0 a'.1,
        basis_loop-apart i (suc j) x rest a'.0 b (omega arith) a'.2,
      )

  basis_loop-skip :
      (i j x : ℕ) (pre post : List Share) (s : Share) (basis b : ℕ)
      → i ≡ length pre + j
      → basis_loop p i x j (pre ++ s ∷ post) basis ≡ ok b
      → (basis' : ℕ) × (basis_loop p i x (suc i) post basis' ≡ ok b)
  unfolding basis_loop
  basis_loop-skip i j x [] post s basis b ei e =
      let same : i ≡ j = omega arith in
      let test : (i == j) ≡ true = ground arith in
      (basis, ap (λ k. basis_loop p i x (suc k) post basis) same ∙ (rw test at e))
  basis_loop-skip i j x (t ∷ pre) post s basis b ei e =
      let other : (i == j) ≡ false = ground arith in
      let a' =
        >>=-eq-ok (extend_basis p x t.0 basis)
          (λ next. basis_loop p i x (suc j) (pre ++ s ∷ post) next) (rw other at e) in
      basis_loop-skip i (suc j) x pre post s a'.0 b (omega arith) a'.2

  interpolate_loop-ok :
      (shares pre rest : List Share) (i result : ℕ)
      → i ≡ length pre
      → shares ≡ pre ++ rest
      → Distinct (xs_of (reduced p shares))
      → result < p
      → (r : ℕ) × (interpolate_loop p shares i rest result ≡ ok r) × (r < p)
  unfolding interpolate_loop
  interpolate_loop-ok shares pre [] i result ei e ne small = (result, refl, small)
  interpolate_loop-ok shares pre ((x, y) ∷ rest) i result ei e ne small =
      let split : reduced p shares ≡ reduced p pre ++ (x % p, y) ∷ reduced p rest =
        ap (reduced p) e ∙ reduced-append p pre ((x, y) ∷ rest) in
      let mid =
        Distinct-middle (x % p) y (reduced p pre) (reduced p rest)
          (subst (λ l. Distinct (xs_of l)) split ne) in
      let al : IsAligned i 0 (x % p) (reduced p shares) =
        subst (IsAligned i 0 (x % p)) (sym split) (
          IsAligned-at i 0 (x % p) y (reduced p pre) (reduced p rest)
            (omega (arith, length-reduced p pre)) mid.0 mid.1) in
      let now = basis_loop-ok i 0 x shares 1 al in
      let next = result + y * now.0 in
      let later =
        interpolate_loop-ok shares (pre ++ (x, y) ∷ []) rest (suc i) (next % p)
          (omega (arith, length-append pre ((x, y) ∷ [])))
          (e ∙ sym (append_assoc pre ((x, y) ∷ []) rest)) ne
          (mod-lt next {m = p} (omega (arith, prime.large))) in
      (later.0, rw now.1 later.1, later.2)

  interpolate_loop-Distinct :
      (shares pre rest : List Share) (i result r : ℕ)
      → i ≡ length pre
      → shares ≡ pre ++ rest
      → interpolate_loop p shares i rest result ≡ ok r
      → Distinct (xs_of (reduced p rest))
  unfolding interpolate_loop
  interpolate_loop-Distinct shares pre [] i result r ei e done = tt
  interpolate_loop-Distinct shares pre ((x, y) ∷ rest) i result r ei e done =
      let a =
        >>=-eq-ok (basis_loop p i x 0 shares 1)
          (λ basis. interpolate_loop p shares (suc i) rest ((result + y * basis) % p)) done in
      let skipped =
        basis_loop-skip i 0 x pre rest (x, y) 1 a.0 (omega arith)
          (subst (λ l. basis_loop p i x 0 l 1 ≡ ok a.0) e a.1) in
      (
        basis_loop-apart i (suc i) x rest skipped.0 a.0 (omega arith) skipped.1,
        interpolate_loop-Distinct shares (pre ++ (x, y) ∷ []) rest (suc i) ((result + y * a.0) % p)
            r (omega (arith, length-append pre ((x, y) ∷ [])))
            (e ∙ sym (append_assoc pre ((x, y) ∷ []) rest)) a.2,
      )

  -- Shares whose x differ modulo p interpolate to an element of the field.
  pub lagrange_interpolate-ok :
      (shares : List Share)
      → Distinct (xs_of (reduced p shares))
      → (r : ℕ) × (lagrange_interpolate shares p ≡ ok r) × (r < p)
  unfolding lagrange_interpolate
  lagrange_interpolate-ok shares ne =
      interpolate_loop-ok shares [] shares 0 0 refl refl ne (omega (arith, prime.large))

-- The only exception of the loops is ValueError.
extend_basis_err :
    (p x a basis : ℕ) (e : Error) → extend_basis p x a basis ≡ err e → e ≡ value_error
unfolding extend_basis mod_inverse
extend_basis_err p x a basis e h = ground arith

bind_err :
    {A B : Type 0} (m : Result A) (f : A → Result B) (e : Error)
    → ((x : Error) → m ≡ err x → x ≡ value_error)
    → ((a : A) → f a ≡ err e → e ≡ value_error)
    → (m >>= f) ≡ err e
    → e ≡ value_error
bind_err (err x) f e hm hf h = cc (hm x refl, h)
bind_err (ok a) f e hm hf h = hf a h

basis_loop_err :
    (p i x j : ℕ) (rest : List Share) (basis : ℕ) (e : Error)
    → basis_loop p i x j rest basis ≡ err e
    → e ≡ value_error
unfolding basis_loop
basis_loop_err p i x j [] basis e h = absurd (cc h)
basis_loop_err p i x j ((a, y) ∷ rest) basis e h = elim (Bool-cases (i == j)) [
  | inl same ↦ basis_loop_err p i x (suc j) rest basis e (rw same at h)
  | inr other ↦
      bind_err (extend_basis p x a basis) (λ next. basis_loop p i x (suc j) rest next) e
        (extend_basis_err p x a basis)
        (λ next later. basis_loop_err p i x (suc j) rest next e later) (rw other at h)
]

interpolate_loop_err :
    (p : ℕ) (shares : List Share) (i : ℕ) (rest : List Share) (result : ℕ) (e : Error)
    → interpolate_loop p shares i rest result ≡ err e
    → e ≡ value_error
unfolding interpolate_loop
interpolate_loop_err p shares i [] result e h = absurd (cc h)
interpolate_loop_err p shares i ((x, y) ∷ rest) result e h =
    bind_err (basis_loop p i x 0 shares 1)
      (λ basis. interpolate_loop p shares (suc i) rest ((result + y * basis) % p)) e
      (basis_loop_err p i x 0 shares 1)
      (λ basis later. interpolate_loop_err p shares (suc i) rest ((result + y * basis) % p) e later)
      h

-- Over a prime modulus `lagrange_interpolate` returns an element of the field exactly when no two of
-- the x are congruent, whatever the y are; in every other case it raises ValueError.
pub lagrange_interpolate_total :
    (p : ℕ) (shares : List Share)
    → IsPrime p
    → ((r : ℕ) × (lagrange_interpolate shares p ≡ ok r)
        × (r < p)
        × Distinct (xs_of (reduced p shares)))
      ⊎ ((lagrange_interpolate shares p ≡ err value_error)
          × (¬ (Distinct (xs_of (reduced p shares)))))
lagrange_interpolate_total p shares prime = elim (Result-cases (lagrange_interpolate shares p)) [
  | inl (r, returned) ↦
      let d : Distinct (xs_of (reduced p shares)) =
        interpolate_loop-Distinct prime shares [] shares 0 0 r refl refl
          (unfold lagrange_interpolate in returned) in
      let found = lagrange_interpolate-ok prime shares d in
      inl (r, returned, subst (λ u. u < p) (ok_injective (sym found.1 ∙ returned)) found.2, d)
  | inr (e, raised) ↦
      let same : e ≡ value_error =
        interpolate_loop_err p shares 0 shares 0 e (unfold lagrange_interpolate in raised) in
      inr (
        raised ∙ ap err same,
        (λ d. absurd (cc (sym (lagrange_interpolate-ok prime shares d).1 ∙ raised))),
      )
]
