-- ===== src/Stdlib/Counter.antt =====
-- `collections.Counter(items).most_common(1)[0][0]`: the first of the items that occur most often.
use decentralized_idp.Prelude.{
  ℕ, ◌+◌, ◌*◌, ◌<◌, ◌≡◌, ◌↔◌, ap, Bool-cases, inl, inr, List, [], ◌∷◌, Bool, true, Option, none,
  some, arith, length, ltb, if◌then◌else◌,
}

module _ {A : Type 0} (eq : A → A → Bool) where
  unfoldable pub count_up : A → List (A × ℕ) → List (A × ℕ)
  count_up k [] = (k, 1) ∷ []
  count_up k ((j, n) ∷ rest) = if eq k j then (j, n + 1) ∷ rest else (j, n) ∷ count_up k rest

  unfoldable pub counter : List (A × ℕ) → List A → List (A × ℕ)
  counter counts [] = counts
  counter counts (x ∷ xs) = counter (count_up x counts) xs

  -- The entry with the greatest count, the first of them in a tie.
  unfoldable pub greatest : A × ℕ → List (A × ℕ) → A × ℕ
  greatest best [] = best
  greatest best (e ∷ rest) = greatest (if ltb best.1 e.1 then e else best) rest

  -- There is no item to return where there are no items.
  abbrev pub first_greatest : List (A × ℕ) → Option A
  first_greatest [] = none
  first_greatest (e ∷ rest) = some (greatest e rest).0

  unfoldable pub most_common : List A → Option A
  most_common xs = first_greatest (counter [] xs)

  abbrev pub occurrences : A → List A → ℕ
  occurrences a [] = 0
  occurrences a (x ∷ xs) = (if eq a x then 1 else 0) + occurrences a xs

  abbrev count_of : A → List (A × ℕ) → ℕ
  count_of a [] = 0
  count_of a ((j, n) ∷ rest) = if eq a j then n else count_of a rest

  abbrev total : List (A × ℕ) → ℕ
  total [] = 0
  total ((j, n) ∷ rest) = n + total rest

module _ {A : Type 0} (eq : A → A → Bool) (eq_iff : (a b : A) → (eq a b ≡ true) ↔ (a ≡ b)) where
  count_of-count_up :
      (a k : A) (counts : List (A × ℕ))
      → count_of eq a (count_up eq k counts) ≡ (if eq a k then 1 else 0) + count_of eq a counts
  unfolding count_up
  count_of-count_up a k [] = ground arith
  count_of-count_up a k ((j, n) ∷ rest) =
      ground (arith, count_of-count_up a k rest, eq_iff a k, eq_iff k j, eq_iff a j)

  total-count_up :
      (k : A) (counts : List (A × ℕ)) → total eq (count_up eq k counts) ≡ total eq counts + 1
  unfolding count_up
  total-count_up k [] = omega arith
  total-count_up k ((j, n) ∷ rest) = ground (arith, total-count_up k rest)

  count_of-counter :
      (a : A) (counts : List (A × ℕ)) (xs : List A)
      → count_of eq a (counter eq counts xs) ≡ count_of eq a counts + occurrences eq a xs
  unfolding counter
  count_of-counter a counts [] = omega arith
  count_of-counter a counts (x ∷ xs) =
      omega (arith, count_of-counter a (count_up eq x counts) xs, count_of-count_up a x counts)

  total-counter :
      (counts : List (A × ℕ)) (xs : List A)
      → total eq (counter eq counts xs) ≡ total eq counts + length xs
  unfolding counter
  total-counter counts [] = omega arith
  total-counter counts (x ∷ xs) =
      omega (arith, total-counter (count_up eq x counts) xs, total-count_up x counts)

  greatest_majority :
      (a k : A) (n : ℕ) (rest : List (A × ℕ))
      → total eq ((k, n) ∷ rest) < 2 * count_of eq a ((k, n) ∷ rest)
      → (greatest eq (k, n) rest).0 ≡ a
  unfolding greatest
  greatest_majority a k n [] h = ground (arith, eq_iff a k)
  greatest_majority a k n ((j, m) ∷ rest) h = elim (Bool-cases (ltb n m)) [
    | inl e ↦ rw (e, greatest) (greatest_majority a j m rest (ground arith))
    | inr e ↦ rw (e, greatest) (greatest_majority a k n rest (ground arith))
  ]

  first_greatest_majority :
      (a : A) (counts : List (A × ℕ))
      → total eq counts < 2 * count_of eq a counts
      → first_greatest eq counts ≡ some a
  first_greatest_majority a [] h = absurd (omega arith)
  first_greatest_majority a ((k, n) ∷ rest) h = ap some (greatest_majority a k n rest h)

  -- An item that makes up more than half of the list is the one returned.
  pub most_common_majority :
      (a : A) (xs : List A) → length xs < 2 * occurrences eq a xs → most_common eq xs ≡ some a
  unfolding most_common
  most_common_majority a xs h =
      first_greatest_majority a (counter eq [] xs)
        (omega (arith, total-counter [] xs, count_of-counter a [] xs))
