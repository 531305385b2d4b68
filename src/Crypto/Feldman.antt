-- ===== src/Crypto/Feldman.antt =====
-- crypto/feldman.py: a hash commitment for each share value.
use decentralized_idp.Prelude.{
  ℕ, zero, suc, List, [], ◌∷◌, ◌++◌, Bool, false, Option, none, some, Result, ok, ◌>>=◌, length,
  leb, if◌then◌else◌,
}
use decentralized_idp.Stdlib.Bytes.{Bytes, bytes_eq, to_bytes}
use decentralized_idp.External.{Hashing}
use decentralized_idp.Crypto.Lagrange.{Share}

module _ (h : Hashing) where
  -- The digest of salt, i and value, which both functions compute.
  unfoldable pub commitment : Bytes → ℕ → ℕ → Result Bytes
  commitment salt i value = do
    index ← to_bytes i 4
    number ← to_bytes value 32
    ok (h.sha3_256 (salt ++ (index ++ number)))

  -- `for i, value in enumerate(coefficients)`, from i on.
  unfoldable pub commitment_loop : Bytes → ℕ → List ℕ → Result (List Bytes)
  commitment_loop salt i [] = ok []
  commitment_loop salt i (value ∷ rest) = do
    digest ← commitment salt i value
    others ← commitment_loop salt (suc i) rest
    ok (digest ∷ others)

  -- The salt given, or what `os.urandom(32)` returned.
  abbrev pub salt_or : Option Bytes → Bytes → Bytes
  salt_or none fresh = fresh
  salt_or (some salt) fresh = salt

  unfoldable pub generate_commitments : Bytes → List ℕ → Option Bytes → Result (List Bytes × Bytes)
  generate_commitments urandom coefficients given = do
    let salt = salt_or given urandom
    commitments ← commitment_loop salt 0 coefficients
    ok (commitments, salt)

  -- `commitments[idx]` where the index is in range; what is not there compares unequal.
  unfoldable pub matches_at : Bytes → List Bytes → ℕ → Bool
  matches_at digest [] idx = false
  matches_at digest (c ∷ rest) zero = bytes_eq digest c
  matches_at digest (c ∷ rest) (suc idx) = matches_at digest rest idx

  -- With x = 0 the source's index is -1, which its first test refuses.
  unfoldable pub verify_share : Share → List Bytes → Bytes → Result Bool
  verify_share (zero, y) commitments salt = ok false
  verify_share (suc idx, y) commitments salt =
      if leb (length commitments) idx
      then ok false
      else do digest ← commitment salt idx y; ok (matches_at digest commitments idx)
