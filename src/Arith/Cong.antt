-- ===== src/Arith/Cong.antt =====
-- Congruence modulo p on the native numbers, which is what Python's `%` on a positive modulus
-- decides.
use native.Mathlib.Nat.{add-mod, mod-mod, div-add-mod, mul_comm, add-mul-mod_self_left}
use decentralized_idp.Prelude.{ℕ, ◌+◌, ◌*◌, ◌/◌, ◌%◌, ◌≡◌, refl, sym, ap, ◌∙◌, arith}

pub record Cong (p a b : ℕ) : Type 0 where
  pub same : a % p ≡ b % p

module _ {p : ℕ} where
  pub Cong-refl : (a : ℕ) → Cong p a a
  Cong-refl a = record { same = refl }

  pub Cong-of_eq : {a b : ℕ} → a ≡ b → Cong p a b
  Cong-of_eq e = record { same = ap (λ t. t % p) e }

  pub Cong-sym : {a b : ℕ} → Cong p a b → Cong p b a
  Cong-sym h = record { same = sym h.same }

  pub Cong-trans : {a b c : ℕ} → Cong p a b → Cong p b c → Cong p a c
  Cong-trans h k = record { same = h.same ∙ k.same }

  pub Cong-mod : (a : ℕ) → Cong p (a % p) a
  Cong-mod a = record { same = mod-mod a p }

  pub Cong-add : {a b c d : ℕ} → Cong p a b → Cong p c d → Cong p (a + c) (b + d)
  Cong-add {a} {b} {c} {d} h k = record {
    same = add-mod a c p ∙ cc (h.same, k.same) ∙ sym (add-mod b d p);
  }

  -- A number is congruent to every sum of it and a multiple of p.
  pub Cong-multiple : (a k : ℕ) → Cong p (a + p * k) a
  Cong-multiple a k = record { same = add-mul-mod_self_left a p k }

  mul_left : (c : ℕ) {a b : ℕ} → Cong p a b → Cong p (c * a) (c * b)
  mul_left c {a} {b} h =
      Cong-trans (Cong-sym (expand a)) (Cong-trans (Cong-of_eq (ap (λ t. c * t) h.same)) (expand b))
    where
      expand : (x : ℕ) → Cong p (c * (x % p)) (c * x)
      expand x =
          Cong-trans (Cong-sym (Cong-multiple (c * (x % p)) (c * (x / p))))
            (Cong-of_eq (omega (arith, ap (λ t. c * t) (div-add-mod x p))))

  pub Cong-mul : {a b c d : ℕ} → Cong p a b → Cong p c d → Cong p (a * c) (b * d)
  Cong-mul {a} {b} {c} {d} h k = Cong-trans (mul_left a k) (
      Cong-trans (Cong-of_eq (mul_comm a d))
        (Cong-trans (mul_left d h) (Cong-of_eq (mul_comm d b))))
