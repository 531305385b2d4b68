-- ===== src/Stdlib/Base64.antt =====
-- The URL-safe Base64 alphabet: `base64.urlsafe_b64encode`, and `rstrip("=")`.
use decentralized_idp.Prelude.{
  ℕ, ◌+◌, ◌-◌, ◌*◌, ◌/◌, ◌%◌, List, [], ◌∷◌, Bool, true, false, ◌&&◌, ltb, ◌==◌, if◌then◌else◌,
}
use decentralized_idp.Stdlib.Bytes.{Bytes, Str}

-- A-Z, a-z, 0-9, then "-" and "_".
unfoldable pub b64_char : ℕ → ℕ
b64_char d =
    if ltb d 26
    then d + 65
    else if ltb d 52
    then d + 71
    else if ltb d 62
    then d - 4
    else if d == 62
    then 45
    else 95

unfoldable pub urlsafe_b64encode : Bytes → Str
urlsafe_b64encode [] = []
urlsafe_b64encode (a ∷ []) = b64_char (a / 4) ∷ b64_char (a % 4 * 16) ∷ 61 ∷ 61 ∷ []
urlsafe_b64encode (a ∷ b ∷ []) =
    b64_char (a / 4) ∷ b64_char (a % 4 * 16 + b / 16) ∷ b64_char (b % 16 * 4) ∷ 61 ∷ []
urlsafe_b64encode (a ∷ b ∷ c ∷ rest) =
    b64_char (a / 4)
    ∷ b64_char (a % 4 * 16 + b / 16)
    ∷ b64_char (b % 16 * 4 + c / 64)
    ∷ b64_char (c % 64)
    ∷ urlsafe_b64encode rest

abbrev is_empty : Str → Bool
is_empty [] = true
is_empty (c ∷ s) = false

-- `s.rstrip("=")`
unfoldable pub rstrip_padding : Str → Str
rstrip_padding [] = []
rstrip_padding (c ∷ s) =
    let rest = rstrip_padding s in if (c == 61) && is_empty rest then [] else c ∷ rest

-- `s.split(".")`
abbrev cons_first : ℕ → List Str → List Str
cons_first c [] = (c ∷ []) ∷ []
cons_first c (part ∷ parts) = (c ∷ part) ∷ parts

unfoldable pub split_dots : Str → List Str
split_dots [] = [] ∷ []
split_dots (c ∷ s) = let parts = split_dots s in if c == 46 then [] ∷ parts else cons_first c parts
