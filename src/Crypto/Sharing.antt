-- ===== src/Crypto/Sharing.antt =====
-- `generate_shares` of crypto/sss.py: its checks, its shares, and the secret that they recover.
use native.Mathlib.Nat.{mod-eq_of_lt, pow-zero, pow-suc}
use decentralized_idp.Prelude.{
  ℕ, zero, suc, ◌+◌, ◌-◌, ◌*◌, ◌%◌, ◌^◌, ◌≤◌, ◌<◌, ◌≡◌, refl, sym, ap, subst, ◌∙◌, List, [], ◌∷◌,
  arith, All, Elem, length, ◌⊎◌, inl, inr, Bool-cases, leb, ◌&&◌, false, ok, err, value_error,
}
use decentralized_idp.Arith.Cong.{
  Cong, Cong-refl, Cong-of_eq, Cong-trans, Cong-mod, Cong-add, Cong-mul,
}
use decentralized_idp.Arith.Prime.{IsPrime}
use decentralized_idp.Crypto.Lagrange.{Share}
use decentralized_idp.Crypto.Interpolation.{eval, Distinct}
use decentralized_idp.Crypto.Sss.{
  share_value, share_loop, random_coeffs, generate_shares, reconstruct_secret,
}
use decentralized_idp.Crypto.Recovery.{xs_of, IsOn, lagrange_interpolate-IsOn}

-- What `generate_shares` asks of its arguments.
pub record IsSharable (secret t n p : ℕ) : Type 0 where
  pub secret_pos : 1 ≤ secret
  pub secret_small : secret ≤ p - 1
  pub threshold_pos : 1 ≤ t
  pub threshold_small : t ≤ n

module _ (draw : ℕ → ℕ) (secret t n p : ℕ) where
  abbrev pub coeffs_of : List ℕ
  coeffs_of = secret ∷ random_coeffs draw 0 (t - 1)

  pub generate_shares-ok :
      IsSharable secret t n p → generate_shares draw secret t n p ≡ ok (share_loop p coeffs_of 1 n)
  unfolding generate_shares
  generate_shares-ok h = ground arith

  pub generate_shares_inv :
      (shares : List Share)
      → generate_shares draw secret t n p ≡ ok shares
      → IsSharable secret t n p × (shares ≡ share_loop p coeffs_of 1 n)
  unfolding generate_shares
  generate_shares_inv shares e = ground arith

length-random_coeffs : (draw : ℕ → ℕ) (k count : ℕ) → length (random_coeffs draw k count) ≡ count
unfolding random_coeffs
length-random_coeffs draw k zero = refl
length-random_coeffs draw k (suc count) = ap suc (length-random_coeffs draw (suc k) count)

length-share_loop : (p : ℕ) (cs : List ℕ) (i left : ℕ) → length (share_loop p cs i left) ≡ left
unfolding share_loop
length-share_loop p cs i zero = refl
length-share_loop p cs i (suc left) = ap suc (length-share_loop p cs (suc i) left)

-- i, i + 1, ..., n numbers in all
abbrev pub count_from : ℕ → ℕ → List ℕ
count_from i zero = []
count_from i (suc n) = i ∷ count_from (suc i) n

xs_of-share_loop :
    (p : ℕ) (cs : List ℕ) (i left : ℕ) → xs_of (share_loop p cs i left) ≡ count_from i left
unfolding share_loop
xs_of-share_loop p cs i zero = refl
xs_of-share_loop p cs i (suc left) = ap (λ l. i ∷ l) (xs_of-share_loop p cs (suc i) left)

-- The loop over the coefficients evaluates the polynomial.
share_value-eval :
    (p i exp : ℕ) (cs : List ℕ) (y : ℕ)
    → Cong p (share_value p i exp cs y) (y + i ^ exp * eval i cs)
unfolding share_value eval
share_value-eval p i exp [] y = Cong-of_eq (omega arith)
share_value-eval p i exp (c ∷ cs) y =
    Cong-trans (share_value-eval p i (suc exp) cs ((y + c * (i ^ exp % p)) % p)) (
      Cong-trans
        (Cong-add
          (Cong-trans (Cong-mod (y + c * (i ^ exp % p)))
            (Cong-add (Cong-refl y) (Cong-mul (Cong-refl c) (Cong-mod (i ^ exp)))))
          (Cong-of_eq (ap (λ u. u * eval i cs) (pow-suc i exp))))
        (Cong-of_eq (omega arith)))

-- What holds of each share that the loop makes.
pub record IsShareOf (p : ℕ) (cs : List ℕ) (lo hi : ℕ) (s : Share) : Type 0 where
  pub index_low : lo ≤ s.0
  pub index_high : s.0 < hi
  pub on : Cong p s.1 (eval s.0 cs)

pub share_loop-IsShareOf :
    (p : ℕ) (cs : List ℕ) (i left : ℕ) (s : Share)
    → Elem s (share_loop p cs i left)
    → IsShareOf p cs i (i + left) s
unfolding share_loop
share_loop-IsShareOf p cs i zero s m = absurd m
share_loop-IsShareOf p cs i (suc left) s (inl e) =
    subst (IsShareOf p cs i (i + suc left)) (sym e) (record {
      index_low = omega arith;
      index_high = omega arith;
      on =
          Cong-trans (share_value-eval p i 0 cs 0)
            (Cong-of_eq (omega (arith, pow-zero i, ap (λ u. u * eval i cs) (pow-zero i))));
    })
share_loop-IsShareOf p cs i (suc left) s (inr m) =
    let h = share_loop-IsShareOf p cs (suc i) left s m in
    record { index_low = omega arith; index_high = omega arith; on = h.on }

pub eval_zero : (c : ℕ) (cs : List ℕ) → eval 0 (c ∷ cs) ≡ c
unfolding eval
eval_zero c cs = omega arith

-- The shares lie on a polynomial of degree below t whose value at 0 is the secret.
pub generate_shares-IsShareOf :
    (draw : ℕ → ℕ) (secret t n p : ℕ) (shares : List Share)
    → generate_shares draw secret t n p ≡ ok shares
    → (cs : List ℕ) × (length cs ≡ t)
      × (eval 0 cs % p ≡ secret)
      × ((s : Share) → Elem s shares → IsShareOf p cs 1 (1 + n) s)
generate_shares-IsShareOf draw secret t n p shares e =
    let inv = generate_shares_inv draw secret t n p shares e in
    let cs = coeffs_of draw secret t n p in
    (
      cs,
      omega (arith, length-random_coeffs draw 0 (t - 1), inv.0),
      ap (λ u. u % p) (eval_zero secret (random_coeffs draw 0 (t - 1)))
          ∙ mod-eq_of_lt (omega (arith, inv.0)),
      λ s m. share_loop-IsShareOf p cs 1 n s (subst (Elem s) inv.1 m),
    )

All-below :
    {p : ℕ} (cs : List ℕ) (n : ℕ) (shares subset : List Share)
    → n < p
    → ((s : Share) → Elem s shares → IsShareOf p cs 1 (1 + n) s)
    → All (λ s. Elem s shares) subset
    → All (λ z. z < p) (xs_of subset) × IsOn p cs subset
All-below cs n shares [] small h m = (tt, tt)
All-below cs n shares (s ∷ rest) small h m =
    let now = h s m.0 in
    let later = All-below cs n shares rest small h m.1 in
    ((omega arith, later.0), (now.on, later.1))

pub length-xs_of : (shares : List Share) → length (xs_of shares) ≡ length shares
length-xs_of [] = refl
length-xs_of (s ∷ rest) = ap suc (length-xs_of rest)

-- Any t or more of the shares, in any order and with distinct indices, recover the secret that was
-- shared, over a prime modulus that exceeds the number of shares.
pub reconstruct_secret-generate_shares :
    (draw : ℕ → ℕ) (secret t n p : ℕ) (shares subset : List Share)
    → IsPrime p
    → n < p
    → generate_shares draw secret t n p ≡ ok shares
    → All (λ s. Elem s shares) subset
    → Distinct (xs_of subset)
    → t ≤ length subset
    → reconstruct_secret subset p ≡ ok secret
unfolding reconstruct_secret
reconstruct_secret-generate_shares draw secret t n p shares subset prime small e m ne enough =
    let poly = generate_shares-IsShareOf draw secret t n p shares e in
    let at = All-below {p = p} poly.0 n shares subset small poly.3 m in
    lagrange_interpolate-IsOn prime poly.0 subset at.0 ne at.1
      (omega (arith, length-xs_of subset, poly.1))
    ∙ ap ok poly.2

generate_shares_err :
    (draw : ℕ → ℕ) (secret t n p : ℕ)
    → ((leb 1 secret && leb secret (p - 1)) && (leb 1 t && leb t n)) ≡ false
    → generate_shares draw secret t n p ≡ err value_error
unfolding generate_shares
generate_shares_err draw secret t n p bad = ground arith

-- `generate_shares` returns n shares, numbered from 1, exactly when the secret lies in 1 .. p - 1 and
-- the threshold in 1 .. n; in every other case it raises ValueError.
pub generate_shares_total :
    (draw : ℕ → ℕ) (secret t n p : ℕ)
    → ((shares : List Share) × (generate_shares draw secret t n p ≡ ok shares)
        × (length shares ≡ n)
        × (xs_of shares ≡ count_from 1 n)
        × IsSharable secret t n p)
      ⊎ ((generate_shares draw secret t n p ≡ err value_error) × (¬ (IsSharable secret t n p)))
generate_shares_total draw secret t n p =
    elim (Bool-cases ((leb 1 secret && leb secret (p - 1)) && (leb 1 t && leb t n))) [
      | inl good ↦
          let h : IsSharable secret t n p = ground arith in
          let cs = coeffs_of draw secret t n p in
          inl (
            share_loop p cs 1 n,
            generate_shares-ok draw secret t n p h,
            length-share_loop p cs 1 n,
            xs_of-share_loop p cs 1 n,
            h,
          )
      | inr bad ↦ inr (generate_shares_err draw secret t n p bad, λ h. ground arith)
    ]
