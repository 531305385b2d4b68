-- ===== src/Crypto/Recovery.antt =====
-- `lagrange_interpolate` against the polynomial that its shares lie on.
use mathlib.Core.List.{append_assoc}
use native.Mathlib.Nat.{mod-lt, mod-eq_of_lt, zero-mod}
use decentralized_idp.Prelude.{
  ℕ, suc, ◌+◌, ◌-◌, ◌*◌, ◌%◌, ◌^◌, ◌≤◌, ◌<◌, ◌≡◌, ◌≢◌, refl, sym, ap, subst, ◌∙◌, List, [], ◌∷◌,
  ◌++◌, arith, All, length, length-append, ◌==◌, false, Bool-cases, ==_iff, inl, inr, ok,
}
use decentralized_idp.Arith.Cong.{
  Cong, Cong-refl, Cong-of_eq, Cong-trans, Cong-mod, Cong-add, Cong-mul,
}
use decentralized_idp.Arith.Prime.{IsPrime}
use decentralized_idp.Crypto.Lagrange.{
  Share, neg_mod, sub_mod, mod_inverse, extend_basis, basis_loop, interpolate_loop,
  lagrange_interpolate,
}
use decentralized_idp.Crypto.Interpolation.{
  eval, Distinct, factor, point_factor_self, point_factor_ne, weight, weighted, sub_mod-ne-zero,
}
use decentralized_idp.Crypto.Interpolation.AtZero.{weighted-eval}

abbrev pub xs_of : List Share → List ℕ
xs_of [] = []
xs_of (s ∷ rest) = s.0 ∷ xs_of rest

-- The x of index i is the given one, and no other is, counting the list's indices from j.
abbrev pub IsAligned : ℕ → ℕ → ℕ → List Share → Type 0
IsAligned i j x [] = Unit
IsAligned i j x (s ∷ rest) = ((i ≡ j → s.0 ≡ x) × (i ≢ j → x ≢ s.0)) × IsAligned i (suc j) x rest

IsAligned-after :
    (i j x : ℕ) (post : List Share) → i < j → All (λ y. y ≢ x) (xs_of post) → IsAligned i j x post
IsAligned-after i j x [] h ne = tt
IsAligned-after i j x (s ∷ post) h ne = (
  ((λ e. absurd (omega arith)), (λ _ e. ne.0 (sym e))),
  IsAligned-after i (suc j) x post (omega arith) ne.1,
)

pub IsAligned-at :
    (i j x y : ℕ) (pre post : List Share)
    → i ≡ length pre + j
    → All (λ z. z ≢ x) (xs_of pre)
    → All (λ z. z ≢ x) (xs_of post)
    → IsAligned i j x (pre ++ (x, y) ∷ post)
IsAligned-at i j x y [] post e hp hq = (
  ((λ _. refl), (λ ne. absurd (ne (omega arith)))),
  IsAligned-after i (suc j) x post (omega arith) hq,
)
IsAligned-at i j x y (s ∷ pre) post e hp hq = (
  ((λ e'. absurd (omega arith)), (λ _ e'. hp.0 (sym e'))),
  IsAligned-at i (suc j) x y pre post (omega arith) hp.1 hq,
)

All_middle :
    (P : ℕ → Type 0) (x y : ℕ) (pre post : List Share) → All P (xs_of (pre ++ (x, y) ∷ post)) → P x
All_middle P x y [] post h = h.0
All_middle P x y (s ∷ pre) post h = All_middle P x y pre post h.1

pub Distinct-middle :
    (x y : ℕ) (pre post : List Share)
    → Distinct (xs_of (pre ++ (x, y) ∷ post))
    → All (λ z. z ≢ x) (xs_of pre) × All (λ z. z ≢ x) (xs_of post)
Distinct-middle x y [] post h = (tt, h.0)
Distinct-middle x y (s ∷ pre) post h =
    let ih = Distinct-middle x y pre post h.1 in
    (((λ e. All_middle (λ z. z ≢ s.0) x y pre post h.0 (sym e)), ih.0), ih.1)

-- The shares lie on the polynomial with the listed coefficients.
abbrev pub IsOn : ℕ → List ℕ → List Share → Type 0
IsOn p cs [] = Unit
IsOn p cs (s ∷ rest) = Cong p s.1 (eval s.0 cs) × IsOn p cs rest

module _ {p : ℕ} (prime : IsPrime p) where
  extend_basis_lem :
      (x a basis : ℕ)
      → x < p
      → a < p
      → x ≢ a
      → (b : ℕ) × (extend_basis p x a basis ≡ ok b) × Cong p b (basis * factor p x a)
  unfolding extend_basis mod_inverse factor
  extend_basis_lem x a basis hx ha ne =
      let d = sub_mod x a p in
      let n = neg_mod a p in
      let e : (d == 0) ≡ false = ground (arith, sub_mod-ne-zero prime x a hx ha ne, zero-mod p) in
      (
        (basis * n % p) * (d ^ (p - 2) % p) % p,
        rw e refl,
        Cong-trans (Cong-mod (basis * n % p * (d ^ (p - 2) % p))) (
            Cong-trans (Cong-mul (Cong-mod (basis * n)) (Cong-mod (d ^ (p - 2))))
              (Cong-of_eq (omega arith))),
      )

  basis_loop_lem :
      (i j x : ℕ) (rest : List Share) (basis : ℕ)
      → x < p
      → All (λ z. z < p) (xs_of rest)
      → IsAligned i j x rest
      → (b : ℕ) × (basis_loop p i x j rest basis ≡ ok b)
        × Cong p b (basis * weight p (xs_of rest) x)
  unfolding basis_loop weight
  basis_loop_lem i j x [] basis hx hs al = (basis, refl, Cong-of_eq (omega arith))
  basis_loop_lem i j x ((a, y) ∷ rest) basis hx hs al = elim (Bool-cases (i == j)) [
    | inl same ↦
        let xa : a ≡ x = al.0.0 ((==_iff i j).0 same) in
        let rec = basis_loop_lem i (suc j) x rest basis hx hs.1 al.1 in
        (
          rec.0,
          rw same rec.1,
          Cong-trans rec.2 (Cong-of_eq (rw xa (rw (point_factor_self p x) (omega arith)))),
        )
    | inr other ↦
        let ne : x ≢ a = al.0.1 (ground arith) in
        let now = extend_basis_lem x a basis hx hs.0 ne in
        let rec = basis_loop_lem i (suc j) x rest now.0 hx hs.1 al.1 in
        (
          rec.0,
          rw (other, now.1) rec.1,
          Cong-trans rec.2 (
              Cong-trans (Cong-mul now.2 (Cong-refl (weight p (xs_of rest) x)))
                (Cong-of_eq (rw (point_factor_ne p x a ne) (omega arith)))),
        )
  ]

  interpolate_loop_lem :
      (cs : List ℕ) (shares pre rest : List Share) (i result : ℕ)
      → i ≡ length pre
      → shares ≡ pre ++ rest
      → All (λ z. z < p) (xs_of shares)
      → Distinct (xs_of shares)
      → IsOn p cs rest
      → result < p
      → (r : ℕ) × (interpolate_loop p shares i rest result ≡ ok r)
        × (r < p)
        × Cong p r (result + weighted p (λ x. eval x cs) (xs_of shares) (xs_of rest))
  unfolding interpolate_loop weighted
  interpolate_loop_lem cs shares pre [] i result ei e hs ne on small =
      (result, refl, small, Cong-of_eq (omega arith))
  interpolate_loop_lem cs shares pre ((x, y) ∷ rest) i result ei e hs ne on small =
      let mid = Distinct-middle x y pre rest (subst (λ l. Distinct (xs_of l)) e ne) in
      let hx =
        All_middle (λ z. z < p) x y pre rest (subst (λ l. All (λ z. z < p) (xs_of l)) e hs) in
      let al : IsAligned i 0 x shares =
        rw e (IsAligned-at i 0 x y pre rest (omega arith) mid.0 mid.1) in
      let now = basis_loop_lem i 0 x shares 1 hx hs al in
      let next = result + y * now.0 in
      let later =
        interpolate_loop_lem cs shares (pre ++ (x, y) ∷ []) rest (suc i) (next % p)
          (omega (arith, length-append pre ((x, y) ∷ [])))
          (e ∙ sym (append_assoc pre ((x, y) ∷ []) rest)) hs ne on.1 (mod-lt next (omega arith)) in
      let w = weight p (xs_of shares) x in
      (
        later.0,
        rw now.1 later.1,
        later.2,
        Cong-trans later.3 (
            Cong-trans
              (Cong-add
                (Cong-trans (Cong-mod next) (Cong-add (Cong-refl result) (Cong-mul on.0 now.2)))
                (Cong-refl (weighted p (λ z. eval z cs) (xs_of shares) (xs_of rest))))
              (Cong-of_eq (omega arith))),
      )

  -- Enough shares of distinct nodes on a polynomial interpolate to its constant coefficient.
  pub lagrange_interpolate-IsOn :
      (cs : List ℕ) (shares : List Share)
      → All (λ z. z < p) (xs_of shares)
      → Distinct (xs_of shares)
      → IsOn p cs shares
      → length cs ≤ length (xs_of shares)
      → lagrange_interpolate shares p ≡ ok (eval 0 cs % p)
  unfolding lagrange_interpolate
  lagrange_interpolate-IsOn cs shares hs ne on len =
      let found =
        interpolate_loop_lem cs shares [] shares 0 0 refl refl hs ne on
          (omega (arith, prime.large)) in
      let same : Cong p found.0 (eval 0 cs) =
        Cong-trans found.3 (
          Cong-trans (Cong-of_eq (omega arith))
            (weighted-eval prime (xs_of shares) cs hs ne len)) in
      found.1 ∙ ap ok (sym (mod-eq_of_lt found.2) ∙ same.same)
