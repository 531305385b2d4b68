-- ===== src/Crypto/TwoShares.antt =====
-- crypto/sss.py and crypto/lagrange.py: what two shares of a sharing with threshold 3 interpolate to.
use native.Mathlib.Nat.{mod-lt, mod-eq_of_lt}
use decentralized_idp.Prelude.{
  ℕ, ◌+◌, ◌-◌, ◌*◌, ◌%◌, ◌≤◌, ◌<◌, ◌≡◌, ◌≢◌, subst, sym, ap, ◌∙◌, List, [], ◌∷◌, arith, Elem, ok,
}
use decentralized_idp.Arith.Cong.{
  Cong, Cong-refl, Cong-of_eq, Cong-sym, Cong-trans, Cong-add, Cong-multiple,
}
use decentralized_idp.Arith.Prime.{IsPrime, cancel_zero}
use decentralized_idp.Crypto.Lagrange.{Share, lagrange_interpolate}
use decentralized_idp.Crypto.Interpolation.{eval}
use decentralized_idp.Crypto.Recovery.{lagrange_interpolate-IsOn}
use decentralized_idp.Crypto.Sss.{generate_shares, random_coeffs}
use decentralized_idp.Crypto.Sharing.{
  coeffs_of, generate_shares_inv, eval_zero, share_loop-IsShareOf,
}

-- The value at 0 of the line through the points at x₁ and x₂ of s + c x + d x ^ 2.
abbrev line_start : ℕ → ℕ → ℕ → ℕ → ℕ → ℕ
line_start p s d x₁ x₂ = s + (p - 1) * (d * (x₁ * x₂))

eval_line : (x b c : ℕ) → eval x (b ∷ c ∷ []) ≡ b + x * c
unfolding eval
eval_line x b c = omega arith

eval_parabola : (x b c d : ℕ) → eval x (b ∷ c ∷ d ∷ []) ≡ b + x * (c + x * d)
unfolding eval
eval_parabola x b c d = omega arith

nonzero : {p : ℕ} (a : ℕ) → 1 ≤ a → a < p → a % p ≢ 0
nonzero a pos small = omega (arith, mod-eq_of_lt small)

module _ {p : ℕ} (prime : IsPrime p) where
  whole : (w : ℕ) → w + (p - 1) * w ≡ p * w
  whole w =
      let split : p ≡ 1 + (p - 1) = omega (arith, prime.large) in
      omega (arith, ap (λ u. u * w) split)

  -- The line meets the parabola at the first of the two points.
  line_meets :
      (s c d x₁ x₂ : ℕ)
      → Cong p (eval x₁ (s ∷ c ∷ d ∷ [])) (line_start p s d x₁ x₂ + x₁ * (c + d * (x₁ + x₂)))
  line_meets s c d x₁ x₂ = Cong-trans (Cong-of_eq (eval_parabola x₁ s c d)) (
      Cong-trans (Cong-sym (Cong-multiple (s + x₁ * (c + x₁ * d)) (d * (x₁ * x₂))))
        (Cong-of_eq (omega (arith, whole (d * (x₁ * x₂))))))

  product_ne : (a b c : ℕ) → a % p ≢ 0 → b % p ≢ 0 → c % p ≢ 0 → ¬ (Cong p (a * (b * c)) 0)
  product_ne a b c ha hb hc e =
      hc (omega (arith, (cancel_zero prime b c hb (cancel_zero prime a (b * c) ha e)).same))

  -- It misses the parabola at 0.
  line_start-ne :
      (s d x₁ x₂ : ℕ)
      → s < p
      → d % p ≢ 0
      → x₁ % p ≢ 0
      → x₂ % p ≢ 0
      → ¬ (Cong p (line_start p s d x₁ x₂) s)
  line_start-ne s d x₁ x₂ small hd h₁ h₂ e =
      let w = d * (x₁ * x₂) in
      let moved : Cong p (w + line_start p s d x₁ x₂ + (p - s)) (w + s + (p - s)) =
        Cong-add (Cong-add (Cong-refl w) e) (Cong-refl (p - s)) in
      product_ne d x₁ x₂ hd h₁ h₂ (
        Cong-trans (Cong-sym (Cong-multiple w 1)) (
          Cong-trans (Cong-of_eq (omega arith)) (
            Cong-trans (Cong-sym moved)
              (Cong-trans (Cong-of_eq (omega (arith, whole w))) (Cong-multiple 0 (1 + w))))))

-- Two shares of a sharing with threshold 3, over a prime above the number of shares, interpolate to
-- an element of the field that is never the secret: the leading coefficient is drawn from 1 to p -
-- 1 and so does not vanish.
pub lagrange_interpolate-two_shares :
    (draw : ℕ → ℕ) (secret n p : ℕ) (shares : List Share) (a b : Share)
    → IsPrime p
    → n < p
    → draw 1 < p - 1
    → generate_shares draw secret 3 n p ≡ ok shares
    → Elem a shares
    → Elem b shares
    → a.0 ≢ b.0
    → (v : ℕ) × (lagrange_interpolate (a ∷ b ∷ []) p ≡ ok v) × (v < p) × (v ≢ secret)
unfolding random_coeffs
lagrange_interpolate-two_shares draw secret n p shares a b prime small drawn e ma mb ne =
    let inv = generate_shares_inv draw secret 3 n p shares e in
    let c = draw 0 + 1 in
    let d = draw 1 + 1 in
    let cs = coeffs_of draw secret 3 n p in
    let ha = share_loop-IsShareOf p cs 1 n a (subst (Elem a) inv.1 ma) in
    let hb = share_loop-IsShareOf p cs 1 n b (subst (Elem b) inv.1 mb) in
    let start = line_start p secret d a.0 b.0 in
    let slope = c + d * (a.0 + b.0) in
    (
      start % p,
      lagrange_interpolate-IsOn prime (start ∷ slope ∷ []) (a ∷ b ∷ [])
            (omega arith, (omega arith, tt)) (((λ same. ne (sym same)), tt), (tt, tt))
            (
              Cong-trans ha.on (
                  Cong-trans (line_meets prime secret c d a.0 b.0)
                    (Cong-of_eq (sym (eval_line a.0 start slope)))),
              (
                Cong-trans hb.on (
                    Cong-trans (line_meets prime secret c d b.0 a.0)
                      (Cong-of_eq (omega (arith, sym (eval_line b.0 start slope))))),
                tt,
              ),
            )
            (omega arith)
          ∙ ap (λ u. ok (u % p)) (eval_zero start (slope ∷ [])),
      mod-lt start (omega (arith, prime.large)),
      λ same.
          line_start-ne prime secret d a.0 b.0 (omega (arith, inv.0.secret_small, prime.large))
            (nonzero d (omega arith) (omega arith))
            (nonzero a.0 ha.index_low (omega (arith, ha.index_high)))
            (nonzero b.0 hb.index_low (omega (arith, hb.index_high)))
            (record {
              same = same ∙ sym (mod-eq_of_lt (omega (arith, inv.0.secret_small, prime.large)));
            }),
    )
