-- ===== src/Stdlib/Dict.antt =====
-- A `dict` keyed by text, in insertion order; also a table with a text as primary key.
use decentralized_idp.Prelude.{◌≡◌, refl, Option, none, some, List, [], ◌∷◌, arith, if◌then◌else◌}
use decentralized_idp.Stdlib.Bytes.{Str, bytes_eq, bytes_eq_iff}

abbrev pub Dict : Type 0 → Type 0
Dict V = List (Str × V)

module _ {V : Type 0} where
  -- `d.get(k)`
  unfoldable pub lookup : Str → Dict V → Option V
  lookup k [] = none
  lookup k ((j, v) ∷ d) = if bytes_eq k j then some v else lookup k d

  -- `d[k] = v`
  unfoldable pub insert : Str → V → Dict V → Dict V
  insert k v [] = (k, v) ∷ []
  insert k v ((j, w) ∷ d) = if bytes_eq k j then (j, v) ∷ d else (j, w) ∷ insert k v d

  -- `del d[k]`, for every entry of k
  unfoldable pub erase : Str → Dict V → Dict V
  erase k [] = []
  erase k ((j, w) ∷ d) = let rest = erase k d in if bytes_eq k j then rest else (j, w) ∷ rest

  pub lookup-insert :
      (k j : Str) (v : V) (d : Dict V)
      → lookup j (insert k v d) ≡ (if bytes_eq k j then some v else lookup j d)
  unfolding lookup insert
  lookup-insert k j v [] = ground (arith, bytes_eq_iff k j, bytes_eq_iff j k)
  lookup-insert k j v ((i, w) ∷ d) =
      ground (arith, lookup-insert k j v d, bytes_eq_iff k i, bytes_eq_iff j i, bytes_eq_iff k j)

  pub lookup-erase :
      (k j : Str) (d : Dict V) → lookup j (erase k d) ≡ (if bytes_eq k j then none else lookup j d)
  unfolding lookup erase
  lookup-erase k j [] = ground arith
  lookup-erase k j ((i, w) ∷ d) =
      ground (arith, lookup-erase k j d, bytes_eq_iff k i, bytes_eq_iff j i, bytes_eq_iff k j)

  -- No key has two entries.
  abbrev pub UniqueKeys : Dict V → Type 0
  UniqueKeys [] = Unit
  UniqueKeys ((k, v) ∷ d) = (lookup k d ≡ none) × UniqueKeys d

  pub UniqueKeys-insert : (k : Str) (v : V) (d : Dict V) → UniqueKeys d → UniqueKeys (insert k v d)
  unfolding insert
  UniqueKeys-insert k v [] u = (unfold lookup in refl, tt)
  UniqueKeys-insert k v ((j, w) ∷ d) u =
      ground (arith, UniqueKeys-insert k v d u.1, lookup-insert k j v d, bytes_eq_iff k j)

  pub UniqueKeys-erase : (k : Str) (d : Dict V) → UniqueKeys d → UniqueKeys (erase k d)
  unfolding erase
  UniqueKeys-erase k [] u = tt
  UniqueKeys-erase k ((j, w) ∷ d) u = ground (arith, UniqueKeys-erase k d u.1, lookup-erase k j d)
