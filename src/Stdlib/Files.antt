-- ===== src/Stdlib/Files.antt =====
-- Files by their path, and key pairs that are kept in two files: read where both are there, and made
-- and written where one is missing, as crypto keys are in node/node.py and authentication/iat.py.
use decentralized_idp.Prelude.{
  ◌==◌, ◌≡◌, refl, sym, ap, ◌∙◌, [], ◌∷◌, false, Option, none, some, Result, ok, ◌>>=◌, >>=-eq-ok,
  ok_injective, Option-cases, inl, inr, arith, if◌then◌else◌,
}
use decentralized_idp.Stdlib.Bytes.{Bytes, Str, bytes_eq, bytes_eq_refl}
use decentralized_idp.Stdlib.Dict.{Dict, lookup, insert, lookup-insert}

abbrev pub Files : Type 0
Files = Dict Bytes

-- `os.path.join(dir, name)`, for a relative name: a separator, unless the directory is empty or ends
-- in one.
unfoldable pub join : Str → Str → Str
join [] name = name
join (c ∷ []) name = if c == 47 then c ∷ name else c ∷ 47 ∷ name
join (c ∷ d ∷ dir) name = c ∷ join (d ∷ dir) name

-- `os.path.exists`, and the contents if the file exists.
abbrev pub both : Option Bytes → Option Bytes → Option (Bytes × Bytes)
both none public_key = none
both (some private_key) none = none
both (some private_key) (some public_key) = some (private_key, public_key)

abbrev pub write_pair : Str → Str → Bytes × Bytes → Files → Files
write_pair priv_path pub_path pair files = insert pub_path pair.1 (insert priv_path pair.0 files)

-- The pair that was read, or the one that `generate` makes, which is then written.
unfoldable pub use_pair :
    Str
    → Str
    → Result (Bytes × Bytes)
    → Files
    → Option (Bytes × Bytes)
    → Result ((Bytes × Bytes) × Files)
use_pair priv_path pub_path generate files (some pair) = ok (pair, files)
use_pair priv_path pub_path generate files none = do
  pair ← generate
  ok (pair, write_pair priv_path pub_path pair files)

unfoldable pub load_or_make :
    Str → Str → Result (Bytes × Bytes) → Files → Result ((Bytes × Bytes) × Files)
load_or_make priv_path pub_path generate files =
    use_pair priv_path pub_path generate files
      (both (lookup priv_path files) (lookup pub_path files))

-- Names that differ are different paths in one directory.
pub join-ne : (dir a b : Str) → bytes_eq a b ≡ false → bytes_eq (join dir a) (join dir b) ≡ false
unfolding join bytes_eq
join-ne [] a b ne = ne
join-ne (c ∷ []) a b ne = ground (arith, ne)
join-ne (c ∷ d ∷ dir) a b ne = ground (arith, join-ne (d ∷ dir) a b ne)

-- What was written to two paths is read back.
write_pair-both :
    (priv_path pub_path : Str) (pair : Bytes × Bytes) (files : Files)
    → bytes_eq pub_path priv_path ≡ false
    → both
        (lookup priv_path (write_pair priv_path pub_path pair files))
        (lookup pub_path (write_pair priv_path pub_path pair files))
      ≡ some pair
write_pair-both priv_path pub_path pair files ne =
    let inner = insert priv_path pair.0 files in
    rw
      (
        lookup-insert pub_path priv_path pair.1 inner,
        ne,
        lookup-insert priv_path priv_path pair.0 files,
        bytes_eq_refl priv_path,
        lookup-insert pub_path pub_path pair.1 inner,
        bytes_eq_refl pub_path,
      )
      refl

-- The next start reads the keys of this one, and writes nothing, whatever it would have generated.
pub load_or_make_again :
    (priv_path pub_path : Str) (generate generate' : Result (Bytes × Bytes)) (files files' : Files)
    (pair : Bytes × Bytes)
    → bytes_eq pub_path priv_path ≡ false
    → load_or_make priv_path pub_path generate files ≡ ok (pair, files')
    → load_or_make priv_path pub_path generate' files' ≡ ok (pair, files')
unfolding load_or_make use_pair
load_or_make_again priv_path pub_path generate generate' files files' pair ne made =
    ap (use_pair priv_path pub_path generate' files') (elim (Option-cases (stored files)) [
      | inl missing ↦
          let step = >>=-eq-ok generate _ (rw missing at made) in
          let same : (step.0, write_pair priv_path pub_path step.0 files) ≡ (pair, files') =
            ok_injective step.2 in
          sym (ap (λ u. stored u.1) same)
          ∙ write_pair-both priv_path pub_path step.0 files ne
          ∙ ap (λ u. some u.0) same
      | inr (found, there) ↦
          let same : (found, files) ≡ (pair, files') = ok_injective (rw there at made) in
          sym (ap (λ u. stored u.1) same) ∙ there ∙ ap (λ u. some u.0) same
    ])
  where
    stored : Files → Option (Bytes × Bytes)
    stored fs = both (lookup priv_path fs) (lookup pub_path fs)

-- Where the private key's file is missing, the pair is the one that was generated.
pub load_or_make_fresh :
    (priv_path pub_path : Str) (generate : Result (Bytes × Bytes)) (files files' : Files)
    (pair : Bytes × Bytes)
    → lookup priv_path files ≡ none
    → load_or_make priv_path pub_path generate files ≡ ok (pair, files')
    → generate ≡ ok pair
unfolding load_or_make use_pair
load_or_make_fresh priv_path pub_path generate files files' pair missing made =
    let step = >>=-eq-ok generate _ (rw missing at made) in
    let same : (step.0, write_pair priv_path pub_path step.0 files) ≡ (pair, files') =
      ok_injective step.2 in
    step.1 ∙ ap (λ u. ok u.0) same
