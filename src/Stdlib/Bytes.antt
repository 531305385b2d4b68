-- ===== src/Stdlib/Bytes.antt =====
-- `bytes`, `str`, `int.to_bytes`, `int.from_bytes` and `str(int)`. A `str` is held as the list of its
-- UTF-8 bytes, so `.encode()` changes nothing.
use Prim.Native.Char.{code}
use Prim.Native.String.{String}
use native.Mathlib.Nat.{pow-suc, pow-zero}
use decentralized_idp.Prelude.{
  ℕ, zero, suc, ◌+◌, ◌*◌, ◌/◌, ◌%◌, ◌^◌, ◌<◌, ◌≡◌, ◌↔◌, refl, ap, ◌∙◌, List, [], ◌∷◌, ◌++◌, arith,
  length, length-append, Bool, true, false, ◌&&◌, Result, ok, err, overflow_error, ltb, ◌==◌,
  if◌then◌else◌,
}

abbrev pub Bytes : Type 0
Bytes = List ℕ

abbrev pub Str : Type 0
Str = List ℕ

-- A text constant of the source.
abbrev pub codes : String → Str
codes String.[] = []
codes (String.◌∷◌ c s) = code c ∷ codes s

unfoldable pub bytes_eq : Bytes → Bytes → Bool
bytes_eq [] [] = true
bytes_eq [] (b ∷ bs) = false
bytes_eq (a ∷ as') [] = false
bytes_eq (a ∷ as') (b ∷ bs) = (a == b) && bytes_eq as' bs

pub bytes_eq_refl : (s : Bytes) → bytes_eq s s ≡ true
unfolding bytes_eq
bytes_eq_refl [] = refl
bytes_eq_refl (a ∷ s) = ground (arith, bytes_eq_refl s)

pub eq_of_bytes_eq : (s t : Bytes) → bytes_eq s t ≡ true → s ≡ t
unfolding bytes_eq
eq_of_bytes_eq [] [] h = refl
eq_of_bytes_eq [] (b ∷ t) h = cc
eq_of_bytes_eq (a ∷ s) [] h = cc
eq_of_bytes_eq (a ∷ s) (b ∷ t) h = ground (arith, eq_of_bytes_eq s t)

pub bytes_eq_iff : (s t : Bytes) → (bytes_eq s t ≡ true) ↔ (s ≡ t)
bytes_eq_iff s t = (eq_of_bytes_eq s t, λ e. ap (λ u. bytes_eq u t) e ∙ bytes_eq_refl t)

-- `int.from_bytes(b, "big")`, with the bytes read so far as a number.
unfoldable pub from_bytes_loop : ℕ → Bytes → ℕ
from_bytes_loop acc [] = acc
from_bytes_loop acc (b ∷ bs) = from_bytes_loop (acc * 256 + b) bs

unfoldable pub from_bytes : Bytes → ℕ
unfolding from_bytes_loop
from_bytes bs = from_bytes_loop 0 bs

-- The last `width` base-256 digits, the most significant first.
unfoldable pub big_endian : ℕ → ℕ → Bytes
big_endian zero n = []
big_endian (suc width) n = big_endian width (n / 256) ++ n % 256 ∷ []

-- `n.to_bytes(width, "big")`
unfoldable pub to_bytes : ℕ → ℕ → Result Bytes
to_bytes n width = if ltb n (256 ^ width) then ok (big_endian width n) else err overflow_error

from_bytes_loop-append :
    (acc : ℕ) (bs : Bytes) (b : ℕ)
    → from_bytes_loop acc (bs ++ b ∷ []) ≡ from_bytes_loop acc bs * 256 + b
unfolding from_bytes_loop
from_bytes_loop-append acc [] b = refl
from_bytes_loop-append acc (c ∷ bs) b = from_bytes_loop-append (acc * 256 + c) bs b

pub from_bytes-big_endian : (width n : ℕ) → n < 256 ^ width → from_bytes (big_endian width n) ≡ n
unfolding from_bytes big_endian
from_bytes-big_endian zero n h = omega (arith, pow-zero 256)
from_bytes-big_endian (suc width) n h =
    from_bytes_loop-append 0 (big_endian width (n / 256)) (n % 256)
    ∙ omega (arith, from_bytes-big_endian width (n / 256) (omega (arith, pow-suc 256 width)))

pub length-big_endian : (width n : ℕ) → length (big_endian width n) ≡ width
unfolding big_endian
length-big_endian zero n = refl
length-big_endian (suc width) n = omega (
  arith,
  length-append (big_endian width (n / 256)) (n % 256 ∷ []),
  length-big_endian width (n / 256),
)

-- The decimal digits of n, by the digits left to write, in front of those written.
unfoldable pub decimal_loop : ℕ → ℕ → Str → Str
decimal_loop zero n out = out
decimal_loop (suc fuel) n out =
    let rest = decimal_loop fuel (n / 10) ((48 + n % 10) ∷ out) in
    if ltb n 10 then (48 + n) ∷ out else rest

-- `str(n)`; a number has at most as many digits as its value and one more.
unfoldable pub decimal : ℕ → Str
unfolding decimal_loop
decimal n = decimal_loop (suc n) n []
