-- ===== src/Stdlib/Text.antt =====
-- `str.split`, `str.strip` and `str.lower` on texts of ASCII characters.
use decentralized_idp.Prelude.{ℕ, ◌+◌, ◌==◌, ◌||◌, ◌&&◌, leb, List, [], ◌∷◌, Bool, if◌then◌else◌}
use decentralized_idp.Stdlib.Bytes.{Str}

abbrev cons_to_first : ℕ → List Str → List Str
cons_to_first c [] = (c ∷ []) ∷ []
cons_to_first c (part ∷ parts) = (c ∷ part) ∷ parts

-- `s.split(",")`
unfoldable pub split_commas : Str → List Str
split_commas [] = [] ∷ []
split_commas (c ∷ s) =
    let parts = split_commas s in if c == 44 then [] ∷ parts else cons_to_first c parts

-- The white space of ASCII, as `str.strip` knows it.
unfoldable pub is_blank : ℕ → Bool
is_blank c = (leb 9 c && leb c 13) || (leb 28 c && leb c 32)

unfoldable pub lstrip : Str → Str
lstrip [] = []
lstrip (c ∷ s) = if is_blank c then lstrip s else c ∷ s

abbrev cons_unless_blank : ℕ → Str → Str
cons_unless_blank c [] = if is_blank c then [] else c ∷ []
cons_unless_blank c (d ∷ s) = c ∷ d ∷ s

unfoldable pub rstrip : Str → Str
rstrip [] = []
rstrip (c ∷ s) = cons_unless_blank c (rstrip s)

-- `addr.strip()`
unfoldable pub strip : Str → Str
strip s = rstrip (lstrip s)

-- `str.lower` on ASCII letters.
unfoldable pub lower : Str → Str
lower [] = []
lower (c ∷ s) = (if leb 65 c && leb c 90 then c + 32 else c) ∷ lower s
