-- ===== src/Crypto/Interpolation.antt =====
-- The mathematics behind crypto/lagrange.py: over a prime modulus the weights that the code
-- multiplies up recover the value at 0 of a polynomial of small degree.
pub mod AtZero
use native.Mathlib.Nat.{mod-lt, mod-eq_of_lt, zero-mod}
use decentralized_idp.Prelude.{
  ℕ, suc, ◌+◌, ◌-◌, ◌*◌, ◌%◌, ◌^◌, ◌≤◌, ◌<◌, ◌≡◌, ◌≢◌, refl, sym, ap, ◌∙◌, List, [], ◌∷◌, arith,
  All, length, ◌==◌, if◌then◌else◌,
}
use decentralized_idp.Arith.Cong.{
  Cong, Cong-refl, Cong-of_eq, Cong-sym, Cong-trans, Cong-mod, Cong-add, Cong-mul, Cong-multiple,
}
use decentralized_idp.Arith.Prime.{IsPrime, cancel_left, fermat_inverse}
use decentralized_idp.Crypto.Lagrange.{neg_mod, sub_mod}

-- The value at x of the polynomial with the coefficients of the list, the constant one first.
unfoldable pub eval : ℕ → List ℕ → ℕ
eval x [] = 0
eval x (c ∷ cs) = c + x * eval x cs

-- The other factor of (f(x) - f(a)) / (x - a), where f = c + x * (the listed polynomial).
unfoldable pub quotient : ℕ → List ℕ → List ℕ
quotient a [] = []
quotient a (c ∷ cs) = eval a (c ∷ cs) ∷ quotient a cs

pub length-quotient : (a : ℕ) (cs : List ℕ) → length (quotient a cs) ≡ length cs
unfolding quotient
length-quotient a [] = refl
length-quotient a (c ∷ cs) = ap suc (length-quotient a cs)

-- No two of the numbers are equal.
abbrev pub Distinct : List ℕ → Type 0
Distinct [] = Unit
Distinct (x ∷ xs) = All (λ y. y ≢ x) xs × Distinct xs

module _ (p : ℕ) where
  -- One factor of a Lagrange basis at 0.
  unfoldable pub factor : ℕ → ℕ → ℕ
  factor x a = neg_mod a p * sub_mod x a p ^ (p - 2)

  -- The factor of x for the point a, or 1 where a is x itself.
  unfoldable pub point_factor : ℕ → ℕ → ℕ
  point_factor x a = if x == a then 1 else factor x a

  pub point_factor_self : (a : ℕ) → point_factor a a ≡ 1
  unfolding point_factor
  point_factor_self a = ground arith

  pub point_factor_ne : (x a : ℕ) → x ≢ a → point_factor x a ≡ factor x a
  unfolding point_factor
  point_factor_ne x a ne = ground arith

  -- The basis of x over the listed points.
  unfoldable pub weight : List ℕ → ℕ → ℕ
  weight [] x = 1
  weight (a ∷ rest) x = point_factor x a * weight rest x

  -- The sum of g x times the basis of x over `full`, for the listed x.
  unfoldable pub weighted : (ℕ → ℕ) → List ℕ → List ℕ → ℕ
  weighted g full [] = 0
  weighted g full (x ∷ xs) = g x * weight full x + weighted g full xs

module _ {p : ℕ} (prime : IsPrime p) where
  pub sub_mod-add : (x a : ℕ) → Cong p (sub_mod x a p + a) x
  unfolding sub_mod
  sub_mod-add x a = Cong-trans (Cong-add (Cong-mod (x + (p - a % p))) (Cong-sym (Cong-mod a))) (
      Cong-trans
        (Cong-of_eq {b = x + p * 1} (omega (arith, mod-lt a {m = p} (omega (arith, prime.large)))))
        (Cong-multiple x 1))

  pub neg_mod-add : (a : ℕ) → Cong p (neg_mod a p + a) 0
  unfolding neg_mod
  neg_mod-add a = Cong-trans (Cong-add (Cong-mod (p - a % p)) (Cong-sym (Cong-mod a))) (
      Cong-trans
        (Cong-of_eq {b = 0 + p * 1} (omega (arith, mod-lt a {m = p} (omega (arith, prime.large)))))
        (Cong-multiple 0 1))

  pub cancel_add : (a b c : ℕ) → Cong p (a + c) (b + c) → Cong p a b
  cancel_add a b c h =
      Cong-trans (Cong-sym (back a)) (Cong-trans (Cong-add h (Cong-refl (neg_mod c p))) (back b))
    where
      back : (u : ℕ) → Cong p (u + c + neg_mod c p) u
      back u =
          Cong-trans (Cong-of_eq {b = u + (neg_mod c p + c)} (omega arith))
            (Cong-trans (Cong-add (Cong-refl u) (neg_mod-add c)) (Cong-of_eq (omega arith)))

  -- The difference of two distinct points is invertible.
  pub sub_mod-ne-zero : (x a : ℕ) → x < p → a < p → x ≢ a → sub_mod x a p % p ≢ 0
  sub_mod-ne-zero x a hx ha ne e =
      let same : Cong p a x = Cong-trans (Cong-of_eq {b = 0 + a} (omega arith)) (
        Cong-trans (Cong-add (record { same = zero-mod p ∙ sym e }) (Cong-refl a))
          (sub_mod-add x a)) in
      ne (sym (mod-eq_of_lt hx) ∙ sym same.same ∙ mod-eq_of_lt ha)

  -- A difference times the factor of the point cancels to the negated point.
  pub factor-cancel :
      (x a : ℕ) → x < p → a < p → x ≢ a → Cong p (sub_mod x a p * factor p x a) (neg_mod a p)
  unfolding factor
  factor-cancel x a hx ha ne =
      let d = sub_mod x a p in
      let n = neg_mod a p in
      Cong-trans (Cong-of_eq {b = n * (d * d ^ (p - 2))} (omega arith)) (
        Cong-trans (Cong-mul (Cong-refl n) (fermat_inverse prime d (sub_mod-ne-zero x a hx ha ne)))
          (Cong-of_eq (omega arith)))

  pub sub_mod_self : (a : ℕ) → Cong p (sub_mod a a p) 0
  sub_mod_self a =
      cancel_add (sub_mod a a p) 0 a (Cong-trans (sub_mod-add a a) (Cong-of_eq (omega arith)))

module _ (p : ℕ) where
  pub weighted-Cong :
      (g h : ℕ → ℕ)
      → ((x : ℕ) → Cong p (g x) (h x))
      → (full xs : List ℕ) → Cong p (weighted p g full xs) (weighted p h full xs)
  unfolding weighted
  weighted-Cong g h e full [] = Cong-refl 0
  weighted-Cong g h e full (x ∷ xs) =
      Cong-add (Cong-mul (e x) (Cong-refl (weight p full x))) (weighted-Cong g h e full xs)

  pub weighted-add :
      (c : ℕ) (h : ℕ → ℕ) (full xs : List ℕ)
      → weighted p (λ x. c + h x) full xs ≡ c * weighted p (λ _. 1) full xs + weighted p h full xs
  unfolding weighted
  weighted-add c h full [] = omega arith
  weighted-add c h full (x ∷ xs) = omega (arith, weighted-add c h full xs)

  -- The order of the first two points does not matter.
  pub weighted-swap :
      (g : ℕ → ℕ) (a b : ℕ) (full xs : List ℕ)
      → weighted p g (a ∷ b ∷ full) xs ≡ weighted p g (b ∷ a ∷ full) xs
  unfolding weighted weight
  weighted-swap g a b full [] = refl
  weighted-swap g a b full (x ∷ xs) =
      let u = point_factor p x a in
      let v = point_factor p x b in
      let w = weight p full x in
      let e : g x * (u * (v * w)) ≡ g x * (v * (u * w)) = omega arith in
      omega (arith, e, weighted-swap g a b full xs)
