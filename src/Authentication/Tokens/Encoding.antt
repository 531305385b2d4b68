-- ===== src/Authentication/Tokens/Encoding.antt =====
-- authentication/iat.py: the encoding of the parts of a token.
use mathlib.Core.List.{append_assoc}
use decentralized_idp.Prelude.{
  ℕ, suc, ◌+◌, ◌*◌, ◌-◌, ◌/◌, ◌%◌, ◌<◌, ◌≡◌, ◌≢◌, refl, sym, ap, subst, ◌∙◌, [], ◌∷◌, ◌++◌, false,
  ◌==◌, ok, All, length, arith,
}
use decentralized_idp.Stdlib.Bytes.{Bytes, Str, codes}
use decentralized_idp.Stdlib.Base64.{b64_char, urlsafe_b64encode, rstrip_padding, split_dots}
use decentralized_idp.External.{Base64, IsBase64}
use decentralized_idp.Authentication.Tokens.{padding, equal_signs, b64url_encode, b64url_decode}

-- The alphabet has neither "." nor "=".
b64_char-ne : (d : ℕ) → (b64_char d ≢ 46) × ((b64_char d == 61) ≡ false)
unfolding b64_char
b64_char-ne d = (ground arith, ground arith)

-- A character of the alphabet stays before what stays.
keep : (d : ℕ) (s t : Str) → rstrip_padding s ≡ t → rstrip_padding (b64_char d ∷ s) ≡ b64_char d ∷ t
unfolding rstrip_padding
keep d s t e = rw (b64_char-ne d).1 (ap (λ l. b64_char d ∷ l) e)

stripped_one : rstrip_padding (61 ∷ []) ≡ []
unfolding rstrip_padding
stripped_one = refl

stripped_two : rstrip_padding (61 ∷ 61 ∷ []) ≡ []
unfolding rstrip_padding
stripped_two = refl

-- The encoded text without its padding.
unpadded : Bytes → Str
unpadded [] = []
unpadded (a ∷ []) = b64_char (a / 4) ∷ b64_char (a % 4 * 16) ∷ []
unpadded (a ∷ b ∷ []) =
    b64_char (a / 4) ∷ b64_char (a % 4 * 16 + b / 16) ∷ b64_char (b % 16 * 4) ∷ []
unpadded (a ∷ b ∷ c ∷ rest) =
    b64_char (a / 4)
    ∷ b64_char (a % 4 * 16 + b / 16)
    ∷ b64_char (b % 16 * 4 + c / 64)
    ∷ b64_char (c % 64)
    ∷ unpadded rest

b64url_encode-unpadded : (data' : Bytes) → b64url_encode data' ≡ unpadded data'
unfolding b64url_encode unpadded urlsafe_b64encode
b64url_encode-unpadded [] = unfold rstrip_padding in refl
b64url_encode-unpadded (a ∷ []) = keep (a / 4) _ _ (keep (a % 4 * 16) _ _ stripped_two)
b64url_encode-unpadded (a ∷ b ∷ []) =
    keep (a / 4) _ _ (keep (a % 4 * 16 + b / 16) _ _ (keep (b % 16 * 4) _ _ stripped_one))
b64url_encode-unpadded (a ∷ b ∷ c ∷ rest) = keep (a / 4) _ _ (
    keep (a % 4 * 16 + b / 16) _ _
      (keep (b % 16 * 4 + c / 64) _ _ (keep (c % 64) _ _ (b64url_encode-unpadded rest))))

padding-four : (n : ℕ) → padding (suc (suc (suc (suc n)))) ≡ padding n
padding-four n = ap (λ m. equal_signs ((4 - m) % 4)) (omega arith)

padded :
    (data' : Bytes) → unpadded data' ++ padding (length (unpadded data')) ≡ urlsafe_b64encode data'
unfolding unpadded urlsafe_b64encode
padded [] = refl
padded (a ∷ []) = refl
padded (a ∷ b ∷ []) = refl
padded (a ∷ b ∷ c ∷ rest) =
    ap
      (λ l.
        b64_char (a / 4)
        ∷ b64_char (a % 4 * 16 + b / 16)
        ∷ b64_char (b % 16 * 4 + c / 64)
        ∷ b64_char (c % 64)
        ∷ l)
      (ap (λ l. unpadded rest ++ l) (padding-four (length (unpadded rest))) ∙ padded rest)

-- The code's own padding undoes its own stripping.
pub b64url_decode-b64url_encode :
    (base64 : Base64) (data' : Bytes)
    → IsBase64 base64
    → All (λ c. c < 256) data'
    → b64url_decode base64 (b64url_encode data') ≡ ok data'
unfolding b64url_decode
b64url_decode-b64url_encode base64 data' law bytes =
    ap (λ s. base64.urlsafe_b64decode (s ++ padding (length s))) (b64url_encode-unpadded data')
    ∙ ap base64.urlsafe_b64decode (padded data')
    ∙ law.decode-encode data' bytes

-- No "." in what is encoded.
abbrev pub NoDot : Str → Type 0
NoDot s = All (λ c. c ≢ 46) s

unpadded-NoDot : (data' : Bytes) → NoDot (unpadded data')
unfolding unpadded
unpadded-NoDot [] = tt
unpadded-NoDot (a ∷ []) = ((b64_char-ne (a / 4)).0, ((b64_char-ne (a % 4 * 16)).0, tt))
unpadded-NoDot (a ∷ b ∷ []) = (
  (b64_char-ne (a / 4)).0,
  ((b64_char-ne (a % 4 * 16 + b / 16)).0, ((b64_char-ne (b % 16 * 4)).0, tt)),
)
unpadded-NoDot (a ∷ b ∷ c ∷ rest) = (
  (b64_char-ne (a / 4)).0,
  (
    (b64_char-ne (a % 4 * 16 + b / 16)).0,
    ((b64_char-ne (b % 16 * 4 + c / 64)).0, ((b64_char-ne (c % 64)).0, unpadded-NoDot rest)),
  ),
)

pub b64url_encode-NoDot : (data' : Bytes) → NoDot (b64url_encode data')
b64url_encode-NoDot data' = subst NoDot (sym (b64url_encode-unpadded data')) (unpadded-NoDot data')

split_dots-last : (s : Str) → NoDot s → split_dots s ≡ s ∷ []
unfolding split_dots
split_dots-last [] h = refl
split_dots-last (c ∷ s) h = rw (split_dots-last s h.1) (ground (arith, h.0))

split_dots-first : (s rest : Str) → NoDot s → split_dots (s ++ 46 ∷ rest) ≡ s ∷ split_dots rest
unfolding split_dots
split_dots-first [] rest h = refl
split_dots-first (c ∷ s) rest h = rw (split_dots-first s rest h.1) (ground (arith, h.0))

-- The three parts of a token.
pub split_dots-three :
    (header part sig : Str)
    → NoDot header
    → NoDot part
    → NoDot sig
    → split_dots ((header ++ codes "." ++ part) ++ codes "." ++ sig) ≡ header ∷ part ∷ sig ∷ []
split_dots-three header part sig h k l =
    ap split_dots (
      append_assoc ((header ++ 46 ∷ []) ++ part) (46 ∷ []) sig
      ∙ ap (λ s. s ++ 46 ∷ sig) (append_assoc header (46 ∷ []) part)
      ∙ append_assoc header (46 ∷ part) (46 ∷ sig))
    ∙ split_dots-first header (part ++ 46 ∷ sig) h
    ∙ ap (λ ps. header ∷ ps)
        (split_dots-first part sig k ∙ ap (λ ps. part ∷ ps) (split_dots-last sig l))
