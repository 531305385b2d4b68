-- ===== src/Ledger/Chain.antt =====
-- ledger/ledger.py: every ledger that appends build verifies.
use decentralized_idp.Prelude.{
  ℕ, ◌≡◌, refl, ap, ◌∙◌, List, [], ◌∷◌, ◌++◌, Bool, true, false, arith, if◌then◌else◌,
}
use decentralized_idp.Stdlib.Bytes.{Str, bytes_eq_iff}
use decentralized_idp.Stdlib.Json.{Fields, Codec}
use decentralized_idp.External.{Hashing}
use decentralized_idp.Ledger.{
  Entry, Ledger, empty, genesis, last_hash_of, last_hash, append, new_row, recomputed, verify_loop,
  verify_chain,
}

module _ (hashing : Hashing) (codec : Codec) where
  -- A chain followed by one more row.
  pub verify_loop-append :
      (expected : Str) (rows : List Entry) (e : Entry)
      → verify_loop hashing codec expected (rows ++ e ∷ []) ≡ (
          if verify_loop hashing codec expected rows
          then verify_loop hashing codec (last_hash_of expected rows) (e ∷ [])
          else false)
  unfolding verify_loop last_hash_of
  verify_loop-append expected [] e = refl
  verify_loop-append expected (r ∷ rows) e = ground (arith, verify_loop-append r.entry_hash rows e)

  -- A row that names the hash before it and carries its own passes.
  verify_loop_one :
      (expected : Str) (e : Entry)
      → e.previous_hash ≡ expected
      → recomputed hashing codec e ≡ e.entry_hash
      → verify_loop hashing codec expected (e ∷ []) ≡ true
  unfolding verify_loop
  verify_loop_one expected e p q = ground (
    arith,
    bytes_eq_iff e.previous_hash expected,
    bytes_eq_iff (recomputed hashing codec e) e.entry_hash,
  )

  if_true-false : (b : Bool) → (if b then true else false) ≡ b
  if_true-false b = ground arith

  -- An append leaves the ledger verifying exactly when it verified before.
  pub verify_chain-append :
      (entry_type did : Str) (fields : Fields) (timestamp : ℕ) (l : Ledger)
      → verify_chain hashing codec (append hashing codec entry_type did fields timestamp l).0
        ≡ verify_chain hashing codec l
  unfolding verify_chain append new_row last_hash
  verify_chain-append entry_type did fields timestamp l =
      let row = new_row hashing codec entry_type did fields timestamp l in
      verify_loop-append genesis l.entries row
      ∙ ap (λ b. if verify_loop hashing codec genesis l.entries then b else false)
          (verify_loop_one (last_hash l) row refl refl)
      ∙ if_true-false (verify_loop hashing codec genesis l.entries)

-- The ledgers that a sequence of appends to an empty one builds.
pub data Built (hashing : Hashing) (codec : Codec) : Ledger → Type 0 where
  start : Built hashing codec empty
  grow :
      {l : Ledger} (entry_type did : Str) (fields : Fields) (timestamp : ℕ)
      → Built hashing codec l
      → Built hashing codec (append hashing codec entry_type did fields timestamp l).0

-- Every ledger that appends alone have built passes `verify_chain`.
pub verify_chain-Built :
    {hashing : Hashing} {codec : Codec} (l : Ledger)
    → Built hashing codec l
    → verify_chain hashing codec l ≡ true
verify_chain-Built {hashing} {codec} _ start = unfold verify_chain verify_loop in refl
verify_chain-Built {hashing} {codec} _ (grow {l = l} entry_type did fields timestamp b) =
    verify_chain-append hashing codec entry_type did fields timestamp l ∙ verify_chain-Built l b
