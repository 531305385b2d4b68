-- ===== src/Ledger/Tamper.antt =====
-- ledger/ledger.py: what a change to stored rows does to the chain.
use mathlib.Core.List.{append_assoc}
use decentralized_idp.Prelude.{
  ℕ, ◌*◌, ◌≡◌, refl, sym, ap, ap₂, ◌∙◌, List, [], ◌∷◌, ◌++◌, true, false, arith, length,
  if◌then◌else◌,
}
use decentralized_idp.Stdlib.Bytes.{Bytes, Str, bytes_eq, bytes_eq_iff}
use decentralized_idp.Stdlib.Hex.{hex, hex_injective}
use decentralized_idp.Stdlib.Json.{Codec}
use decentralized_idp.External.{Hashing, IsHashing, NoCollision}
use decentralized_idp.Ledger.{
  Entry, Ledger, genesis, last_hash_of, last_hash, hash_input, compute_hash, recomputed,
  verify_loop, verify_chain,
}

head_eq : {a b : ℕ} {xs ys : Bytes} → a ∷ xs ≡ b ∷ ys → a ≡ b
head_eq e = cc

tail_eq : {a b : ℕ} {xs ys : Bytes} → a ∷ xs ≡ b ∷ ys → xs ≡ ys
tail_eq e = cc

append_split :
    (xs xs' : Bytes) {ys ys' : Bytes}
    → length xs ≡ length xs'
    → xs ++ ys ≡ xs' ++ ys'
    → (xs ≡ xs') × (ys ≡ ys')
append_split [] [] len e = (refl, e)
append_split [] (b ∷ xs') len e = absurd (omega arith)
append_split (a ∷ xs) [] len e = absurd (omega arith)
append_split (a ∷ xs) (b ∷ xs') len e =
    let rec = append_split xs xs' (omega arith) (tail_eq e) in
    (ap₂ (λ u v. u ∷ v) (head_eq e) rec.0, rec.1)

length-hex : (bs : Bytes) → length (hex bs) ≡ 2 * length bs
unfolding hex
length-hex [] = refl
length-hex (b ∷ bs) = omega (arith, length-hex bs)

module _ (hashing : Hashing) (codec : Codec) where
  -- The hashed texts of a row after its previous hash.
  abbrev pub payload : Entry → Bytes
  payload e = e.entry_type ++ (e.did ++ (e.data_json ++ codec.repr_float e.timestamp))

  -- The same links and the same hashed texts, row by row.
  abbrev pub SameRows : List Entry → List Entry → Type 0
  SameRows [] [] = Unit
  SameRows [] (e ∷ rows) = ⊥
  SameRows (e ∷ rows) [] = ⊥
  SameRows (e ∷ rows) (e' ∷ rows') =
      (e.previous_hash ≡ e'.previous_hash)
      × (e.entry_hash ≡ e'.entry_hash)
      × (payload e ≡ payload e')
      × SameRows rows rows'

  -- The first row of a chain that verifies, and the rest.
  pub record IsLinked (expected : Str) (e : Entry) (rows : List Entry) : Type 0 where
    pub previous : e.previous_hash ≡ expected
    pub hash : recomputed hashing codec e ≡ e.entry_hash
    pub rest : verify_loop hashing codec e.entry_hash rows ≡ true

  verify_loop_inv :
      (expected : Str) (e : Entry) (rows : List Entry)
      → verify_loop hashing codec expected (e ∷ rows) ≡ true
      → IsLinked expected e rows
  unfolding verify_loop
  verify_loop_inv expected e rows h = ground (
    arith,
    bytes_eq_iff e.previous_hash expected,
    bytes_eq_iff (recomputed hashing codec e) e.entry_hash,
  )

  abbrev pub input_of : Entry → Bytes
  input_of e = hash_input hashing codec e.previous_hash e.entry_type e.did e.data_json e.timestamp

  -- No two rows in one place collide.
  abbrev pub NoCollisions : List Entry → List Entry → Type 0
  NoCollisions [] rows' = Unit
  NoCollisions (e ∷ rows) [] = Unit
  NoCollisions (e ∷ rows) (e' ∷ rows') =
      NoCollision hashing (input_of e) (input_of e') × NoCollisions rows rows'

  module _ (ish : IsHashing hashing) where
    length-recomputed : (e : Entry) → length (recomputed hashing codec e) ≡ 64
    unfolding compute_hash
    length-recomputed e =
        length-hex (hashing.sha3_256 (input_of e)) ∙ omega (arith, ish.sha3_length (input_of e))

    recomputed_injective :
        (e e' : Entry)
        → length e.previous_hash ≡ length e'.previous_hash
        → NoCollision hashing (input_of e) (input_of e')
        → recomputed hashing codec e ≡ recomputed hashing codec e'
        → (e.previous_hash ≡ e'.previous_hash) × (payload e ≡ payload e')
    unfolding compute_hash hash_input
    recomputed_injective e e' len free eq = append_split e.previous_hash e'.previous_hash len (
        free (
          hex_injective (hashing.sha3_256 (input_of e)) (hashing.sha3_256 (input_of e'))
            (ish.sha3_bytes (input_of e)) (ish.sha3_bytes (input_of e')) eq))

    same_from :
        (expected expected' : Str) (rows rows' : List Entry)
        → length expected ≡ 64
        → length expected' ≡ 64
        → verify_loop hashing codec expected rows ≡ true
        → verify_loop hashing codec expected' rows' ≡ true
        → length rows ≡ length rows'
        → NoCollisions rows rows'
        → last_hash_of expected rows ≡ last_hash_of expected' rows'
        → (expected ≡ expected') × SameRows rows rows'
    unfolding last_hash_of
    same_from expected expected' [] [] le le' v v' len free last = (last, tt)
    same_from expected expected' [] (e' ∷ rows') le le' v v' len free last = absurd (omega arith)
    same_from expected expected' (e ∷ rows) [] le le' v v' len free last = absurd (omega arith)
    same_from expected expected' (e ∷ rows) (e' ∷ rows') le le' v v' len free last =
        let a = verify_loop_inv expected e rows v in
        let a' = verify_loop_inv expected' e' rows' v' in
        let n : length e.entry_hash ≡ 64 = ap length (sym a.hash) ∙ length-recomputed e in
        let n' : length e'.entry_hash ≡ 64 = ap length (sym a'.hash) ∙ length-recomputed e' in
        let later =
          same_from e.entry_hash e'.entry_hash rows rows' n n' a.rest a'.rest (omega arith) free.1
            last in
        let now =
          recomputed_injective e e' (omega (arith, ap length a.previous, ap length a'.previous))
            free.0 (a.hash ∙ later.0 ∙ sym a'.hash) in
        (sym a.previous ∙ now.0 ∙ a'.previous, (now.0, later.0, now.1, later.1))

    -- Two ledgers with equally many rows that both verify and end in the same hash agree, row by
    -- row, in the links and in the hashed text, unless two rows in one place collide in the hash.
    pub verify_chain_tamper_evident :
        (l l' : Ledger)
        → verify_chain hashing codec l ≡ true
        → verify_chain hashing codec l' ≡ true
        → length l.entries ≡ length l'.entries
        → NoCollisions l.entries l'.entries
        → last_hash l ≡ last_hash l'
        → SameRows l.entries l'.entries
    unfolding verify_chain last_hash
    verify_chain_tamper_evident l l' v v' len free last =
        (same_from genesis genesis l.entries l'.entries refl refl v v' len free last).1

  verify_loop_swap :
      (expected : Str) (before after : List Entry) (e e' : Entry)
      → e.previous_hash ≡ e'.previous_hash
      → e.entry_hash ≡ e'.entry_hash
      → payload e ≡ payload e'
      → verify_loop hashing codec expected (before ++ e ∷ after)
        ≡ verify_loop hashing codec expected (before ++ e' ∷ after)
  unfolding verify_loop
  verify_loop_swap expected [] after e e' p q same =
      let r : recomputed hashing codec e ≡ recomputed hashing codec e' =
        unfold compute_hash hash_input in ap₂ (λ a b. hex (hashing.sha3_256 (a ++ b))) p same in
      ap
        (λ u.
          if bytes_eq u expected
          then (if bytes_eq (recomputed hashing codec e) e.entry_hash
              then verify_loop hashing codec e.entry_hash after
              else false)
          else false)
        p
      ∙ ap
          (λ u.
            if bytes_eq e'.previous_hash expected
            then (if bytes_eq u e.entry_hash
                then verify_loop hashing codec e.entry_hash after
                else false)
            else false)
          r
      ∙ ap
          (λ u.
            if bytes_eq e'.previous_hash expected
            then (if bytes_eq (recomputed hashing codec e') u
                then verify_loop hashing codec u after
                else false)
            else false)
          q
  verify_loop_swap expected (r ∷ before) after e e' p q same =
      ground (arith, verify_loop_swap r.entry_hash before after e e' p q same)

  -- The texts are hashed one after another with nothing between them, so a row whose entry type and
  -- DID are divided at another place passes `verify_chain` exactly when the original row does.
  pub verify_chain_moved_boundary :
      (before after : List Entry) (e : Entry) (next_id : ℕ) (entry_type did : Str)
      → entry_type ++ did ≡ e.entry_type ++ e.did
      → verify_chain hashing codec (record {
        entries = before ++ record e { entry_type = entry_type; did = did } ∷ after;
        next_id = next_id;
      })
        ≡ verify_chain hashing codec (record { entries = before ++ e ∷ after; next_id = next_id })
  unfolding verify_chain
  verify_chain_moved_boundary before after e next_id entry_type did same =
      let row : Entry = record e { entry_type = entry_type; did = did } in
      let rest = e.data_json ++ codec.repr_float e.timestamp in
      verify_loop_swap genesis before after row e refl refl (
        sym (append_assoc entry_type did rest)
        ∙ ap (λ u. u ++ rest) same
        ∙ append_assoc e.entry_type e.did rest)
