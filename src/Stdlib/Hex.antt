-- ===== src/Stdlib/Hex.antt =====
-- `bytes.hex`, `bytes.fromhex` and `int(text, 16)`.
use decentralized_idp.Prelude.{
  ℕ, ◌+◌, ◌-◌, ◌*◌, ◌/◌, ◌%◌, ◌<◌, ◌≡◌, refl, sym, ap, ◌∙◌, [], ◌∷◌, arith, All, Bool, false, ◌&&◌,
  ◌||◌, Result, ok, ok_injective, err, value_error, ◌>>=◌, ltb, leb, ◌==◌, if◌then◌else◌,
}
use decentralized_idp.Stdlib.Bytes.{Bytes, Str, from_bytes_loop, from_bytes}

unfoldable pub hex_digit : ℕ → ℕ
hex_digit d = if ltb d 10 then 48 + d else 87 + d

unfoldable pub hex : Bytes → Str
hex [] = []
hex (b ∷ bs) = hex_digit (b / 16) ∷ hex_digit (b % 16) ∷ hex bs

unfoldable pub unhex_digit : ℕ → Result ℕ
unhex_digit c =
    if leb 48 c && leb c 57
    then ok (c - 48)
    else if leb 97 c && leb c 102
    then ok (c - 87)
    else if leb 65 c && leb c 70
    then ok (c - 55)
    else err value_error

-- The white space that `bytes.fromhex` skips between bytes.
unfoldable pub is_space : ℕ → Bool
is_space c = (c == 32) || (leb 9 c && leb c 13)

unfoldable pub from_hex : Str → Result Bytes
from_hex [] = ok []
from_hex (c ∷ []) = if is_space c then ok [] else err value_error
from_hex (c ∷ d ∷ text) =
    let skipped = from_hex (d ∷ text) in
    let read = from_hex text in
    if is_space c
    then skipped
    else do hi ← unhex_digit c; lo ← unhex_digit d; rest ← read; ok ((hi * 16 + lo) ∷ rest)

-- `int(text, 16)` of a text of hexadecimal digits, with the number read so far.
unfoldable pub int_16_loop : ℕ → Str → Result ℕ
int_16_loop acc [] = ok acc
int_16_loop acc (c ∷ text) = do d ← unhex_digit c; int_16_loop (acc * 16 + d) text

unfoldable pub int_16 : Str → Result ℕ
int_16 [] = err value_error
int_16 (c ∷ text) = int_16_loop 0 (c ∷ text)

pub unhex_digit-hex_digit : (d : ℕ) → d < 16 → unhex_digit (hex_digit d) ≡ ok d
unfolding unhex_digit hex_digit
unhex_digit-hex_digit d h = ground arith

is_space-hex_digit : (d : ℕ) → d < 16 → is_space (hex_digit d) ≡ false
unfolding is_space hex_digit
is_space-hex_digit d h = ground arith

-- Reading back what `hex` wrote gives the bytes.
pub from_hex-hex : (bs : Bytes) → All (λ b. b < 256) bs → from_hex (hex bs) ≡ ok bs
unfolding from_hex hex
from_hex-hex [] h = refl
from_hex-hex (b ∷ bs) h =
    rw
      (
        is_space-hex_digit (b / 16) (omega (arith, h.0)),
        unhex_digit-hex_digit (b / 16) (omega (arith, h.0)),
        unhex_digit-hex_digit (b % 16) (omega arith),
        from_hex-hex bs h.1,
      )
      (ap (λ u. ok (u ∷ bs)) (omega arith))

pub hex_injective :
    (a b : Bytes) → All (λ c. c < 256) a → All (λ c. c < 256) b → hex a ≡ hex b → a ≡ b
hex_injective a b ha hb e =
    ok_injective (sym (from_hex-hex a ha) ∙ ap from_hex e ∙ from_hex-hex b hb)

int_16_loop-hex :
    (acc : ℕ) (bs : Bytes)
    → All (λ b. b < 256) bs
    → int_16_loop acc (hex bs) ≡ ok (from_bytes_loop acc bs)
unfolding int_16_loop hex from_bytes_loop
int_16_loop-hex acc [] h = refl
int_16_loop-hex acc (b ∷ bs) h =
    rw
      (
        unhex_digit-hex_digit (b / 16) (omega (arith, h.0)),
        unhex_digit-hex_digit (b % 16) (omega arith),
      )
      (ap (λ u. int_16_loop u (hex bs)) {x = (acc * 16 + b / 16) * 16 + b % 16} {y = acc * 256 + b}
          (omega arith)
        ∙ int_16_loop-hex (acc * 256 + b) bs h.1)

-- The number that a non-empty hexadecimal digest spells is that of its bytes.
pub int_16-hex :
    (b : ℕ) (bs : Bytes)
    → All (λ c. c < 256) (b ∷ bs)
    → int_16 (hex (b ∷ bs)) ≡ ok (from_bytes (b ∷ bs))
unfolding int_16 hex from_bytes
int_16-hex b bs h = int_16_loop-hex 0 (b ∷ bs) h
