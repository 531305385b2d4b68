-- ===== src/Crypto/Interpolation/AtZero.antt =====
-- The mathematics behind crypto/lagrange.py: the weighted values of a polynomial of small degree sum up
-- to its value at 0.
use decentralized_idp.Prelude.{
  ℕ, ◌+◌, ◌*◌, ◌≤◌, ◌<◌, ◌≡◌, ◌≢◌, refl, sym, ◌∙◌, List, [], ◌∷◌, arith, All, length,
}
use decentralized_idp.Arith.Cong.{
  Cong, Cong-refl, Cong-of_eq, Cong-sym, Cong-trans, Cong-add, Cong-mul,
}
use decentralized_idp.Arith.Prime.{IsPrime, cancel_left}
use decentralized_idp.Crypto.Lagrange.{neg_mod, sub_mod}
use decentralized_idp.Crypto.Interpolation.{
  eval, quotient, length-quotient, Distinct, factor, point_factor_self, point_factor_ne, weight,
  weighted, sub_mod-add, neg_mod-add, cancel_add, sub_mod-ne-zero, factor-cancel, sub_mod_self,
  weighted-Cong, weighted-add, weighted-swap,
}

module _ {p : ℕ} (prime : IsPrime p) where
  -- A factor x - a of g takes the point a out of the sum.
  weighted-shift_tail :
      (g : ℕ → ℕ) (a : ℕ) (full xs : List ℕ)
      → a < p
      → All (λ x. x < p) xs
      → All (λ x. x ≢ a) xs
      → Cong p
          (weighted p (λ x. sub_mod x a p * g x) (a ∷ full) xs)
          (neg_mod a p * weighted p g full xs)
  unfolding weighted weight
  weighted-shift_tail g a full [] ha hs ne = Cong-of_eq (omega arith)
  weighted-shift_tail g a full (x ∷ xs) ha hs ne =
      let d = sub_mod x a p in
      let w = weight p full x in
      let f = factor p x a in
      Cong-trans
        (Cong-add
          (Cong-trans
            (Cong-of_eq {b = g x * w * (d * f)} (rw (point_factor_ne p x a ne.0) (omega arith)))
            (Cong-mul (Cong-refl (g x * w)) (factor-cancel prime x a hs.0 ha ne.0)))
          (weighted-shift_tail g a full xs ha hs.1 ne.1))
        (Cong-of_eq (omega arith))

  weighted-shift :
      (g : ℕ → ℕ) (a : ℕ) (xs : List ℕ)
      → a < p
      → All (λ x. x < p) xs
      → All (λ x. x ≢ a) xs
      → Cong p
          (weighted p (λ x. sub_mod x a p * g x) (a ∷ xs) (a ∷ xs))
          (neg_mod a p * weighted p g xs xs)
  unfolding weighted
  weighted-shift g a xs ha hs ne =
      Cong-trans
        (Cong-add
          (Cong-mul (Cong-mul (sub_mod_self prime a) (Cong-refl (g a)))
            (Cong-refl (weight p (a ∷ xs) a)))
          (weighted-shift_tail g a xs xs ha hs ne))
        (Cong-of_eq (omega arith))

  -- x - b = (a - b) + (x - a)
  sub_mod-split : (a b x : ℕ) → Cong p (sub_mod x b p * 1) (sub_mod a b p + sub_mod x a p * 1)
  sub_mod-split a b x =
      let d = sub_mod a b p in
      let v = sub_mod x a p in
      cancel_add prime (sub_mod x b p * 1) (d + v * 1) b (
        Cong-trans (Cong-of_eq (omega arith)) (
          Cong-trans (sub_mod-add prime x b) (
            Cong-sym (
              Cong-trans (Cong-of_eq {b = d + b + v} (omega arith)) (
                Cong-trans (Cong-add (sub_mod-add prime a b) (Cong-refl v))
                  (Cong-trans (Cong-of_eq (omega arith)) (sub_mod-add prime x a)))))))

  -- -b = (a - b) - a
  neg_mod-split : (a b : ℕ) → Cong p (neg_mod b p) (sub_mod a b p + neg_mod a p)
  neg_mod-split a b =
      let d = sub_mod a b p in
      let n = neg_mod a p in
      cancel_add prime (neg_mod b p) (d + n) b (
        Cong-trans (neg_mod-add prime b) (
          Cong-sym (
            Cong-trans (Cong-of_eq {b = d + b + n} (omega arith)) (
              Cong-trans (Cong-add (sub_mod-add prime a b) (Cong-refl n))
                (Cong-trans (Cong-of_eq (omega arith)) (neg_mod-add prime a))))))

  swap_both :
      (g : ℕ → ℕ) (a b : ℕ) (xs : List ℕ)
      → weighted p g (a ∷ b ∷ xs) (a ∷ b ∷ xs) ≡ weighted p g (b ∷ a ∷ xs) (b ∷ a ∷ xs)
  swap_both g a b xs = weighted-swap p g a b xs (a ∷ b ∷ xs) ∙ (unfold weighted in omega arith)

  -- The bases of distinct points sum to 1, if they do with either of two points left out.
  weighted-one_step :
      (a b : ℕ) (xs : List ℕ)
      → a < p
      → All (λ x. x < p) (b ∷ xs)
      → Distinct (a ∷ b ∷ xs)
      → Cong p (weighted p (λ _. 1) (b ∷ xs) (b ∷ xs)) 1
      → Cong p (weighted p (λ _. 1) (a ∷ xs) (a ∷ xs)) 1
      → Cong p (weighted p (λ _. 1) (a ∷ b ∷ xs) (a ∷ b ∷ xs)) 1
  weighted-one_step a b xs ha hs ne tail_one head_one =
      cancel_left prime d one 1 (sub_mod-ne-zero prime a b ha hs.0 (λ e. ne.0.0 (sym e)))
        (cancel_add prime (d * one) (d * 1) (neg_mod a p) (Cong-trans (Cong-sym by_a) by_b))
    where
      full : List ℕ
      full = a ∷ b ∷ xs

      d : ℕ
      d = sub_mod a b p

      one : ℕ
      one = weighted p (λ _. 1) full full

      by_a : Cong p (weighted p (λ x. sub_mod x b p * 1) full full) (d * one + neg_mod a p)
      by_a =
          Cong-trans
            (weighted-Cong p (λ x. sub_mod x b p * 1) (λ x. d + sub_mod x a p * 1)
              (sub_mod-split a b) full full)
            (Cong-trans (Cong-of_eq (weighted-add p d (λ x. sub_mod x a p * 1) full full)) (
              Cong-add (Cong-refl (d * one)) (
                Cong-trans (weighted-shift (λ _. 1) a (b ∷ xs) ha hs ne.0) (
                  Cong-trans (Cong-mul (Cong-refl (neg_mod a p)) tail_one)
                    (Cong-of_eq (omega arith))))))

      by_b : Cong p (weighted p (λ x. sub_mod x b p * 1) full full) (d * 1 + neg_mod a p)
      by_b = Cong-trans (Cong-of_eq (swap_both (λ x. sub_mod x b p * 1) a b xs)) (
          Cong-trans
            (weighted-shift (λ _. 1) b (a ∷ xs) hs.0 (ha, hs.1) ((λ e. ne.0.0 (sym e)), ne.1.0))
            (Cong-trans (Cong-mul (Cong-refl (neg_mod b p)) head_one) (
              Cong-trans (Cong-of_eq (omega arith))
                (Cong-trans (neg_mod-split a b) (Cong-of_eq (omega arith))))))

  weighted-one :
      (a : ℕ) (xs : List ℕ)
      → a < p
      → All (λ x. x < p) xs
      → Distinct (a ∷ xs)
      → Cong p (weighted p (λ _. 1) (a ∷ xs) (a ∷ xs)) 1
  weighted-one a [] ha hs ne =
      Cong-of_eq (unfold weighted weight in rw (point_factor_self p a) (omega arith))
  weighted-one a (b ∷ xs) ha hs ne =
      weighted-one_step a b xs ha hs ne (weighted-one b xs hs.0 hs.1 ne.1)
        (weighted-one a xs ha hs.1 (ne.0.1, ne.1.1))

  weighted-nil : (full xs : List ℕ) → weighted p (λ x. eval x []) full xs ≡ 0
  unfolding weighted eval
  weighted-nil full [] = refl
  weighted-nil full (x ∷ xs) = omega (arith, weighted-nil full xs)

  -- f(x) = f(a) + (x - a) q(x)
  eval-quotient :
      (a x c : ℕ) (cs : List ℕ)
      → Cong p (eval x (c ∷ cs)) (eval a (c ∷ cs) + sub_mod x a p * eval x (quotient a cs))
  unfolding eval quotient
  eval-quotient a x c [] = Cong-of_eq (omega arith)
  eval-quotient a x c (e ∷ cs) =
      let d = sub_mod x a p in
      let f = e + a * eval a cs in
      let q = eval x (quotient a cs) in
      Cong-trans (Cong-add (Cong-refl c) (Cong-mul (Cong-refl x) (eval-quotient a x e cs))) (
        Cong-trans (Cong-of_eq {b = c + x * (d * q) + x * f} (omega arith)) (
          Cong-trans
            (Cong-add (Cong-refl (c + x * (d * q)))
              (Cong-mul (Cong-sym (sub_mod-add prime x a)) (Cong-refl f)))
            (Cong-of_eq (omega arith))))

  -- The weights of enough distinct points recover the constant coefficient.
  pub weighted-eval :
      (xs cs : List ℕ)
      → All (λ x. x < p) xs
      → Distinct xs
      → length cs ≤ length xs
      → Cong p (weighted p (λ x. eval x cs) xs xs) (eval 0 cs)
  unfolding eval weighted
  weighted-eval [] [] hs ne len = Cong-refl 0
  weighted-eval [] (c ∷ cs) hs ne len = elim len [ ]
  weighted-eval (a ∷ xs) [] hs ne len = Cong-of_eq (weighted-nil (a ∷ xs) (a ∷ xs))
  weighted-eval (a ∷ xs) (c ∷ cs) hs ne len =
      Cong-trans
        (weighted-Cong p (λ x. eval x (c ∷ cs)) (λ x. at_a + sub_mod x a p * eval x q)
          (λ x. eval-quotient a x c cs) (a ∷ xs) (a ∷ xs))
        (Cong-trans
          (Cong-of_eq (weighted-add p at_a (λ x. sub_mod x a p * eval x q) (a ∷ xs) (a ∷ xs)))
          (Cong-trans
            (Cong-add (Cong-mul (Cong-refl at_a) (weighted-one a xs hs.0 hs.1 ne))
              (weighted-shift (λ x. eval x q) a xs hs.0 hs.1 ne.0))
            (Cong-trans
              (Cong-add (Cong-of_eq (omega arith)) (
                Cong-mul negate
                  (weighted-eval xs q hs.1 ne.1 (omega (arith, length-quotient a cs)))))
              (Cong-sym (eval-quotient a 0 c cs)))))
    where
      at_a : ℕ
      at_a = eval a (c ∷ cs)

      q : List ℕ
      q = quotient a cs

      negate : Cong p (neg_mod a p) (sub_mod 0 a p)
      negate =
          cancel_add prime (neg_mod a p) (sub_mod 0 a p) a
            (Cong-trans (neg_mod-add prime a) (Cong-sym (sub_mod-add prime 0 a)))
