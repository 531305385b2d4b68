-- ===== src/Authentication/Flow/Subsets.antt =====
-- authentication/authenticate.py: the subsets that `itertools.combinations` gives.
use decentralized_idp.Prelude.{
  ℕ, zero, suc, ◌≡◌, refl, sym, ap, subst, List, [], ◌∷◌, ◌++◌, map, inl, inr, All, All-mono, Elem,
  length,
}
use decentralized_idp.Node.PartialProof.{Proof}
use decentralized_idp.Authentication.Flow.{combinations}

Elem-append :
    {B : Type 0} (s : B) (xs ys : List B) (P : Type 0)
    → (Elem s xs → P)
    → (Elem s ys → P)
    → Elem s (xs ++ ys)
    → P
Elem-append s [] ys P f g m = g m
Elem-append s (x ∷ xs) ys P f g (inl e) = f (inl e)
Elem-append s (x ∷ xs) ys P f g (inr m) = Elem-append s xs ys P (λ n. f (inr n)) g m

module _ {A : Type 0} where
  -- The subset has k elements, all of the list.
  abbrev pub IsChoice : ℕ → List A → List A → Type 0
  IsChoice k xs s = (length s ≡ k) × All (λ q. Elem q xs) s

  IsChoice-cons :
      (k : ℕ) (x : A) (xs s : List A) → IsChoice k xs s → IsChoice (suc k) (x ∷ xs) (x ∷ s)
  IsChoice-cons k x xs s h = (
    ap suc h.0,
    (inl refl, All-mono (λ q. Elem q xs) (λ q. Elem q (x ∷ xs)) s (λ q m. inr m) h.1),
  )

  IsChoice-skip : (k : ℕ) (x : A) (xs s : List A) → IsChoice k xs s → IsChoice k (x ∷ xs) s
  IsChoice-skip k x xs s h =
      (h.0, All-mono (λ q. Elem q xs) (λ q. Elem q (x ∷ xs)) s (λ q m. inr m) h.1)

  Elem-map_cons :
      (x : A) (s : List A) (subsets : List (List A))
      → Elem s (map (λ rest. x ∷ rest) subsets)
      → (rest : List A) × (s ≡ x ∷ rest) × Elem rest subsets
  Elem-map_cons x s [] m = absurd m
  Elem-map_cons x s (t ∷ subsets) (inl e) = (t, e, inl refl)
  Elem-map_cons x s (t ∷ subsets) (inr m) =
      let found = Elem-map_cons x s subsets m in (found.0, found.1, inr found.2)

  pub combinations-IsChoice : (k : ℕ) (xs s : List A) → Elem s (combinations k xs) → IsChoice k xs s
  unfolding combinations
  combinations-IsChoice zero xs s (inl e) = subst (IsChoice zero xs) (sym e) (refl, tt)
  combinations-IsChoice zero xs s (inr m) = absurd m
  combinations-IsChoice (suc k) [] s m = absurd m
  combinations-IsChoice (suc k) (x ∷ xs) s m =
      Elem-append s (map (λ rest. x ∷ rest) (combinations k xs)) (combinations (suc k) xs)
        (IsChoice (suc k) (x ∷ xs) s)
        (λ with_x.
          let found = Elem-map_cons x s (combinations k xs) with_x in
          subst (IsChoice (suc k) (x ∷ xs)) (sym found.1)
            (IsChoice-cons k x xs found.0 (combinations-IsChoice k xs found.0 found.2)))
        (λ without_x. IsChoice-skip (suc k) x xs s (combinations-IsChoice (suc k) xs s without_x)) m

pub All-through :
    (P : Proof → Type 0) (xs s : List Proof) → All P xs → All (λ q. Elem q xs) s → All P s
All-through P xs [] a m = tt
All-through P xs (q ∷ s) a m = (at xs a m.0, All-through P xs s a m.1)
  where
    at : {r : Proof} (ys : List Proof) → All P ys → Elem r ys → P r
    at [] b n = absurd n
    at (y ∷ ys) b (inl e) = subst P (sym e) b.0
    at (y ∷ ys) b (inr n) = at ys b.1 n
