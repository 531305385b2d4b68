-- ===== src/Authentication/Flow/Sublists.antt =====
-- authentication/authenticate.py: the subsets of `itertools.combinations` as the lists that keep the
-- order of the proofs.
use decentralized_idp.Prelude.{
  ℕ, zero, suc, ◌%◌, ◌≤◌, ◌≡◌, ◌≢◌, refl, sym, ap, subst, ◌∙◌, List, [], ◌∷◌, ◌++◌, map, take,
  filter, Bool, true, ◌⊎◌, inl, inr, All, All-mono, Elem, length, arith, Bool-cases,
}
use decentralized_idp.Crypto.Interpolation.{Distinct}
use decentralized_idp.Node.PartialProof.{Proof}
use decentralized_idp.Authentication.Flow.{combinations}

module _ {A : Type 0} where
  -- The first list is the second without some of its elements.
  abbrev pub Sublist : List A → List A → Type 0
  Sublist [] ys = Unit
  Sublist (x ∷ xs) [] = ⊥
  Sublist (x ∷ xs) (y ∷ ys) = ((x ≡ y) × Sublist xs ys) ⊎ Sublist (x ∷ xs) ys

  Sublist-skip : (xs : List A) (y : A) (ys : List A) → Sublist xs ys → Sublist xs (y ∷ ys)
  Sublist-skip [] y ys sub = tt
  Sublist-skip (x ∷ xs) y ys sub = inr sub

  pub length-Sublist : (xs ys : List A) → Sublist xs ys → length xs ≤ length ys
  length-Sublist [] ys sub = omega arith
  length-Sublist (x ∷ xs) [] sub = absurd sub
  length-Sublist (x ∷ xs) (y ∷ ys) (inl (e, sub)) = omega (arith, length-Sublist xs ys sub)
  length-Sublist (x ∷ xs) (y ∷ ys) (inr sub) = omega (arith, length-Sublist (x ∷ xs) ys sub)

  pub All-Sublist : (P : A → Type 0) (xs ys : List A) → Sublist xs ys → All P ys → All P xs
  All-Sublist P [] ys sub a = tt
  All-Sublist P (x ∷ xs) [] sub a = absurd sub
  All-Sublist P (x ∷ xs) (y ∷ ys) (inl (e, sub)) a =
      (subst P (sym e) a.0, All-Sublist P xs ys sub a.1)
  All-Sublist P (x ∷ xs) (y ∷ ys) (inr sub) a = All-Sublist P (x ∷ xs) ys sub a.1

  pub Sublist-take : (n : ℕ) (xs ys : List A) → Sublist xs ys → Sublist (take n xs) ys
  Sublist-take zero xs ys sub = tt
  Sublist-take (suc n) [] ys sub = tt
  Sublist-take (suc n) (x ∷ xs) [] sub = absurd sub
  Sublist-take (suc n) (x ∷ xs) (y ∷ ys) (inl (e, sub)) = inl (e, Sublist-take n xs ys sub)
  Sublist-take (suc n) (x ∷ xs) (y ∷ ys) (inr sub) = inr (Sublist-take (suc n) (x ∷ xs) ys sub)

  -- A filter that drops none of the kept elements.
  pub Sublist-filter :
      (test : A → Bool) (xs ys : List A)
      → All (λ x. test x ≡ true) xs
      → Sublist xs ys
      → Sublist xs (filter test ys)
  Sublist-filter test [] ys a sub = tt
  Sublist-filter test (x ∷ xs) [] a sub = absurd sub
  Sublist-filter test (x ∷ xs) (y ∷ ys) a (inl (e, sub)) =
      rw (ap test (sym e) ∙ a.0) (inl (e, Sublist-filter test xs ys a.1 sub))
  Sublist-filter test (x ∷ xs) (y ∷ ys) a (inr sub) =
      let rest = Sublist-filter test (x ∷ xs) ys a sub in
      elim (Bool-cases (test y)) [ inl kept ↦ rw kept (inr rest) | inr dropped ↦ rw dropped rest ]

  Elem-append_left : (s : A) (xs ys : List A) → Elem s xs → Elem s (xs ++ ys)
  Elem-append_left s [] ys m = absurd m
  Elem-append_left s (x ∷ xs) ys (inl e) = inl e
  Elem-append_left s (x ∷ xs) ys (inr m) = inr (Elem-append_left s xs ys m)

  Elem-append_right : (s : A) (xs ys : List A) → Elem s ys → Elem s (xs ++ ys)
  Elem-append_right s [] ys m = m
  Elem-append_right s (x ∷ xs) ys m = inr (Elem-append_right s xs ys m)

  All-append : (P : A → Type 0) (xs ys : List A) → All P xs → All P ys → All P (xs ++ ys)
  All-append P [] ys a b = b
  All-append P (x ∷ xs) ys a b = (a.0, All-append P xs ys a.1 b)

Elem-map : {A B : Type 0} (f : A → B) (s : A) (xs : List A) → Elem s xs → Elem (f s) (map f xs)
Elem-map f s [] m = absurd m
Elem-map f s (x ∷ xs) (inl e) = inl (ap f e)
Elem-map f s (x ∷ xs) (inr m) = inr (Elem-map f s xs m)

All-map :
    {A B : Type 0} (f : A → B) (P : B → Type 0) (xs : List A)
    → All (λ x. P (f x)) xs
    → All P (map f xs)
All-map f P [] a = tt
All-map f P (x ∷ xs) a = (a.0, All-map f P xs a.1)

module _ {A : Type 0} where
  -- Every sublist of k elements is tried.
  pub Elem-combinations : (s ys : List A) → Sublist s ys → Elem s (combinations (length s) ys)
  unfolding combinations
  Elem-combinations [] ys sub = inl refl
  Elem-combinations (x ∷ s) [] sub = absurd sub
  Elem-combinations (x ∷ s) (y ∷ ys) (inl (e, sub)) =
      Elem-append_left (x ∷ s) (map (λ rest. y ∷ rest) (combinations (length s) ys))
        (combinations (suc (length s)) ys)
        (subst (λ u. Elem (u ∷ s) (map (λ rest. y ∷ rest) (combinations (length s) ys))) (sym e)
          (Elem-map (λ rest. y ∷ rest) s (combinations (length s) ys) (Elem-combinations s ys sub)))
  Elem-combinations (x ∷ s) (y ∷ ys) (inr sub) =
      Elem-append_right (x ∷ s) (map (λ rest. y ∷ rest) (combinations (length s) ys))
        (combinations (suc (length s)) ys) (Elem-combinations (x ∷ s) ys sub)

  -- And nothing else.
  pub combinations-Sublist :
      (k : ℕ) (ys : List A) → All (λ s. (length s ≡ k) × Sublist s ys) (combinations k ys)
  unfolding combinations
  combinations-Sublist zero ys = ((refl, tt), tt)
  combinations-Sublist (suc k) [] = tt
  combinations-Sublist (suc k) (y ∷ ys) =
      All-append _ (map (λ rest. y ∷ rest) (combinations k ys)) (combinations (suc k) ys)
        (All-map (λ rest. y ∷ rest) _ (combinations k ys)
          (All-mono _ _ (combinations k ys) (λ s h. (ap suc h.0, inl (refl, h.1)))
            (combinations-Sublist k ys)))
        (All-mono _ _ (combinations (suc k) ys) (λ s h. (h.0, Sublist-skip s y ys h.1))
          (combinations-Sublist (suc k) ys))

-- The indices of the proofs as elements of the field.
abbrev pub residues : ℕ → List Proof → List ℕ
residues p [] = []
residues p (q ∷ rest) = q.x % p ∷ residues p rest

All-residues :
    (p : ℕ) (P : ℕ → Type 0) (proofs : List Proof)
    → All P (residues p proofs)
    → All (λ q. P (q.x % p)) proofs
All-residues p P [] a = tt
All-residues p P (q ∷ rest) a = (a.0, All-residues p P rest a.1)

residues-All :
    (p : ℕ) (P : ℕ → Type 0) (proofs : List Proof)
    → All (λ q. P (q.x % p)) proofs
    → All P (residues p proofs)
residues-All p P [] a = tt
residues-All p P (q ∷ rest) a = (a.0, residues-All p P rest a.1)

pub Distinct-Sublist :
    (p : ℕ) (xs ys : List Proof)
    → Sublist xs ys
    → Distinct (residues p ys)
    → Distinct (residues p xs)
Distinct-Sublist p [] ys sub d = tt
Distinct-Sublist p (x ∷ xs) [] sub d = absurd sub
Distinct-Sublist p (x ∷ xs) (y ∷ ys) (inl (e, sub)) d = (
  subst (λ u. All (λ z. z ≢ u.x % p) (residues p xs)) (sym e)
      (residues-All p (λ z. z ≢ y.x % p) xs
        (All-Sublist (λ q. q.x % p ≢ y.x % p) xs ys sub
          (All-residues p (λ z. z ≢ y.x % p) ys d.0))),
  Distinct-Sublist p xs ys sub d.1,
)
Distinct-Sublist p (x ∷ xs) (y ∷ ys) (inr sub) d = Distinct-Sublist p (x ∷ xs) ys sub d.1
