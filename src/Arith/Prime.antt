-- ===== src/Arith/Prime.antt =====
-- Prime moduli: Euclid's lemma and Fermat's little theorem, by which `pow(a, p - 2, p)` inverts a.
use native.Mathlib.Nat.{div-add-mod, mod-lt, mod-eq_of_lt, mul_comm, pow-suc, pow-zero}
use decentralized_idp.Prelude.{
  ℕ, zero, suc, ◌+◌, ◌-◌, ◌*◌, ◌/◌, ◌%◌, ◌^◌, ◌≤◌, ◌<◌, ◌≡◌, ◌≢◌, refl, sym, ap, ◌∙◌, arith,
}
use decentralized_idp.Arith.Cong.{
  Cong, Cong-refl, Cong-of_eq, Cong-sym, Cong-trans, Cong-mod, Cong-add, Cong-mul, Cong-multiple,
}

pub record IsPrime (p : ℕ) : Type 0 where
  pub large : 1 < p
  pub only : (d : ℕ) → 1 < d → d < p → p % d ≢ 0

ruleset cong = (Cong-trans, Cong-refl, Cong-add, Cong-mul)

module _ {p : ℕ} (prime : IsPrime p) where
  -- Descent on a: p mod a is a smaller multiplier of b that p divides.
  descent : (n a b : ℕ) → a < n → 0 < a → a < p → Cong p (a * b) 0 → Cong p b 0
  descent zero a b h pos small e = elim h [ ]
  descent (suc n) zero b h pos small e = elim pos [ ]
  descent (suc n) (suc zero) b h pos small e = Cong-trans (Cong-of_eq (omega arith)) e
  descent (suc n) (suc (suc a)) b h pos small e =
      descent n r b (omega (arith, mod-lt p {m = c} (omega arith))) r_pos
        (omega (arith, mod-lt p {m = c} (omega arith))) rb
    where
      c : ℕ
      c = suc (suc a)

      r : ℕ
      r = p % c

      r_pos : 0 < r
      r_pos = omega (arith, prime.only c (omega arith) small)

      rb : Cong p (r * b) 0
      rb =
          Cong-trans
            (Cong-sym (
              Cong-trans (Cong-add (Cong-mul e (Cong-refl (p / c))) (Cong-refl (r * b)))
                (Cong-of_eq (omega arith))))
            (Cong-trans
              (Cong-of_eq {b = 0 + p * b} (omega (arith, ap (λ t. t * b) (div-add-mod p c))))
              (Cong-multiple 0 b))

  -- Euclid's lemma: a prime that divides a product and not its first factor divides the second.
  pub cancel_zero : (a b : ℕ) → a % p ≢ 0 → Cong p (a * b) 0 → Cong p b 0
  cancel_zero a b h e =
      descent (suc (a % p)) (a % p) b (omega arith) (omega (arith, h))
        (mod-lt a (omega (arith, prime.large))) (Cong-trans (Cong-mul (Cong-mod a) (Cong-refl b)) e)

  -- The left factor cancels from a congruence.
  pub cancel_left : (a b c : ℕ) → a % p ≢ 0 → Cong p (a * b) (a * c) → Cong p b c
  cancel_left a b c h e =
      Cong-trans (Cong-sym (plus_zero b c_x))
        (Cong-trans (Cong-of_eq (omega arith)) (plus_zero c b_x))
    where
      x : ℕ
      x = (p - 1) * c

      c_plus_x : c + x ≡ 0 + p * c
      c_plus_x =
          let q : p ≡ suc (p - 1) = omega (arith, prime.large) in omega (arith, ap (λ t. t * c) q)

      c_x : Cong p (c + x) 0
      c_x = Cong-trans (Cong-of_eq c_plus_x) (Cong-multiple 0 c)

      plus_zero : (u : ℕ) {v : ℕ} → Cong p v 0 → Cong p (u + v) u
      plus_zero u k = Cong-trans (Cong-add (Cong-refl u) k) (Cong-of_eq (omega arith))

      b_x : Cong p (b + x) 0
      b_x = cancel_zero a (b + x) h (
          Cong-trans (Cong-of_eq {b = a * b + a * x} (omega arith)) (
            Cong-trans (Cong-add e (Cong-refl (a * x))) (
              Cong-trans (Cong-of_eq {b = a * (c + x)} (omega arith))
                (Cong-trans (Cong-mul (Cong-refl a) c_x) (Cong-of_eq (omega arith))))))

-- Pascal's triangle.
choose : ℕ → ℕ → ℕ
choose n zero = 1
choose zero (suc k) = 0
choose (suc n) (suc k) = choose n k + choose n (suc k)

choose_above : (n k : ℕ) → n < k → choose n k ≡ 0
unfolding choose
choose_above n zero h = elim h [ ]
choose_above zero (suc k) h = refl
choose_above (suc n) (suc k) h =
    omega (arith, choose_above n k (omega arith), choose_above n (suc k) (omega arith))

choose_self : (n : ℕ) → choose n n ≡ 1
unfolding choose
choose_self zero = refl
choose_self (suc n) = omega (arith, choose_self n, choose_above n (suc n) (omega arith))

-- (k + 1) C(n + 1, k + 1) = (n + 1) C(n, k)
choose_absorb : (n k : ℕ) → suc k * choose (suc n) (suc k) ≡ suc n * choose n k
unfolding choose
choose_absorb zero zero = refl
choose_absorb zero (suc k) = omega arith
choose_absorb (suc n) zero = omega (arith, choose_absorb n zero)
choose_absorb (suc n) (suc k) = omega (arith, choose_absorb n (suc k), choose_absorb n k)

pascal : (n k : ℕ) → choose (suc n) (suc k) ≡ choose n k + choose n (suc k)
unfolding choose
pascal n k = refl

module _ (a : ℕ) where
  -- The first m terms of the expansion of (a + 1) ^ n.
  partial : ℕ → ℕ → ℕ
  partial n zero = 0
  partial n (suc m) = partial n m + choose n m * a ^ m

  partial-suc : (n m : ℕ) → partial (suc n) (suc m) ≡ partial n (suc m) + a * partial n m
  unfolding partial choose
  partial-suc n zero = omega arith
  partial-suc n (suc m) = omega (
    arith,
    partial-suc n m,
    ap (λ t. choose n m * t) (pow-suc a m),
    ap (λ t. t * a ^ suc m) (pascal n m),
  )

  binomial : (n m : ℕ) → n < m → partial n m ≡ (a + 1) ^ n
  unfolding partial choose
  binomial n zero h = elim h [ ]
  binomial zero (suc zero) h = omega (arith, pow-zero a, pow-zero (a + 1))
  binomial zero (suc (suc m)) h = omega (arith, binomial zero (suc m) (omega arith))
  binomial (suc n) (suc m) h =
      partial-suc n m
      ∙ omega (
        arith,
        binomial n (suc m) (omega arith),
        ap (λ t. a * t) (binomial n m (omega arith)),
        pow-suc (a + 1) n,
      )

module _ {p : ℕ} (prime : IsPrime p) where
  -- p divides C(p, k) for 0 < k < p.
  choose-Cong : (k : ℕ) → suc k < p → Cong p (choose p (suc k)) 0
  choose-Cong k h =
      let e : p ≡ suc (p - 1) = omega (arith, prime.large) in
      cancel_zero prime (suc k) (choose p (suc k)) (omega (arith, mod-eq_of_lt h)) (
        Cong-trans
          (Cong-of_eq (
            ap (λ t. suc k * choose t (suc k)) e
            ∙ choose_absorb (p - 1) k
            ∙ omega (arith, ap (λ t. t * choose (p - 1) k) e)))
          (Cong-multiple 0 (choose (p - 1) k)))

  -- Below the last term only the first counts.
  partial-Cong : (a m : ℕ) → suc m ≤ p → Cong p (partial a p (suc m)) 1
  unfolding partial choose
  partial-Cong a zero h = Cong-of_eq (omega (arith, pow-zero a))
  partial-Cong a (suc m) h =
      Cong-trans
        (Cong-add (partial-Cong a m (omega arith))
          (Cong-mul (choose-Cong m h) (Cong-refl (a ^ suc m))))
        (Cong-of_eq (omega arith))

  fresh_dream : (a : ℕ) → Cong p ((a + 1) ^ p) (a ^ p + 1)
  unfolding partial
  fresh_dream a =
      let e : p ≡ suc (p - 1) = omega (arith, prime.large) in
      Cong-trans (Cong-of_eq (sym (binomial a p (suc p) (omega arith)))) (
        Cong-trans
          (Cong-add
            (Cong-trans (Cong-of_eq (ap (partial a p) e)) (partial-Cong a (p - 1) (omega arith)))
            (Cong-mul (Cong-of_eq (choose_self p)) (Cong-refl (a ^ p))))
          (Cong-of_eq (omega arith)))

  fermat_pow : (a : ℕ) → Cong p (a ^ p) a
  fermat_pow zero =
      let e : p ≡ suc (p - 1) = omega (arith, prime.large) in
      Cong-of_eq (ap (λ t. 0 ^ t) e ∙ pow-suc 0 (p - 1) ∙ omega arith)
  fermat_pow (suc a) = Cong-trans (Cong-of_eq (ap (λ t. t ^ p) (omega arith))) (
      Cong-trans (fresh_dream a)
        (Cong-trans (Cong-add (fermat_pow a) (Cong-refl 1)) (Cong-of_eq (omega arith))))

  -- Fermat's little theorem in the form that the code uses: a ^ (p - 2) inverts a.
  pub fermat_inverse : (a : ℕ) → a % p ≢ 0 → Cong p (a * a ^ (p - 2)) 1
  fermat_inverse a h =
      cancel_left prime a (a * a ^ (p - 2)) 1 h
        (Cong-trans (Cong-of_eq shift) (Cong-trans (fermat_pow a) (Cong-of_eq (omega arith))))
    where
      e : p ≡ suc (suc (p - 2))
      e = omega (arith, prime.large)

      shift : a * (a * a ^ (p - 2)) ≡ a ^ p
      shift =
          ap (λ t. a * t) (mul_comm a (a ^ (p - 2)) ∙ sym (pow-suc a (p - 2)))
          ∙ mul_comm a (a ^ suc (p - 2))
          ∙ sym (pow-suc a (suc (p - 2)))
          ∙ ap (λ t. a ^ t) (sym e)
