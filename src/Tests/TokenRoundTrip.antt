-- ===== src/Tests/TokenRoundTrip.antt =====
-- authentication/iat.py on a token that was issued, with a decoder of canonical Base64.
use decentralized_idp.Prelude.{
  ℕ, ◌+◌, ◌-◌, ◌*◌, ◌/◌, ◌%◌, ◌<◌, ◌≡◌, refl, ap, ap₂, subst, ok_injective, ◌∙◌, [], ◌∷◌, ◌++◌,
  filter, true, none, some, Result, ok, err, value_error, ◌>>=◌, leb, ltb, ◌==◌, ◌&&◌, arith, All,
  if◌then◌else◌, false, Bool-cases, inl, inr,
}
use decentralized_idp.Stdlib.Bytes.{Bytes, Str, codes}
use decentralized_idp.Stdlib.Base64.{b64_char, urlsafe_b64encode}
use decentralized_idp.Stdlib.Json.{Fields, object, get_field}
use decentralized_idp.External.{Base64, IsBase64}
use decentralized_idp.Crypto.{iat_ttl_seconds}
use decentralized_idp.Authentication.Challenge.{second}
use decentralized_idp.Authentication.Tokens.{
  token_fields, sorted, insert_sorted, signing_input, b64url_encode, issue_token, verify_iat,
}
use decentralized_idp.Authentication.Tokens.RoundTrip.{verify_iat-issue_token}
use decentralized_idp.Tests.Serial.{serial, serial-IsCodec}
use decentralized_idp.Tests.Fixtures.{plain_signatures}

-- The value of a character of the alphabet.
abbrev sextet : ℕ → ℕ
sextet c =
    if leb 65 c && leb c 90
    then c - 65
    else if leb 97 c && leb c 122
    then c - 71
    else if leb 48 c && leb c 57
    then c + 4
    else if c == 45
    then 62
    else 63

sextet-b64_char : (d : ℕ) → d < 64 → sextet (b64_char d) ≡ d
unfolding b64_char
sextet-b64_char d h = ground arith

abbrev first_byte : ℕ → ℕ → ℕ
first_byte a b = sextet a * 4 + sextet b / 16

abbrev second_byte : ℕ → ℕ → ℕ
second_byte b c = sextet b % 16 * 16 + sextet c / 4

abbrev third_byte : ℕ → ℕ → ℕ
third_byte c d = sextet c % 4 * 64 + sextet d

abbrev group : ℕ → ℕ → ℕ → ℕ → Result Bytes → Result Bytes
group a b c d more =
    if c == 61
    then ok (first_byte a b ∷ [])
    else if d == 61
    then ok (first_byte a b ∷ second_byte b c ∷ [])
    else more >>= λ rest. ok (first_byte a b ∷ second_byte b c ∷ third_byte c d ∷ rest)

pub decode : Bytes → Result Bytes
decode [] = ok []
decode (a ∷ []) = err value_error
decode (a ∷ b ∷ []) = err value_error
decode (a ∷ b ∷ c ∷ []) = err value_error
decode (a ∷ b ∷ c ∷ d ∷ rest) = let more = decode rest in group a b c d more

not_padding : (d : ℕ) → (b64_char d == 61) ≡ false
unfolding b64_char
not_padding d = ground arith

group_two :
    (u v w : ℕ) (more : Result Bytes)
    → u < 64
    → v < 64
    → w < 64
    → group (b64_char u) (b64_char v) (b64_char w) 61 more
      ≡ ok ((u * 4 + v / 16) ∷ (v % 16 * 16 + w / 4) ∷ [])
group_two u v w more hu hv hw =
    rw (not_padding w, sextet-b64_char u hu, sextet-b64_char v hv, sextet-b64_char w hw) refl

group_three :
    (t u v w : ℕ) (more : Result Bytes) (rest : Bytes)
    → t < 64
    → u < 64
    → v < 64
    → w < 64
    → more ≡ ok rest
    → group (b64_char t) (b64_char u) (b64_char v) (b64_char w) more
      ≡ ok ((t * 4 + u / 16) ∷ (u % 16 * 16 + v / 4) ∷ (v % 4 * 64 + w) ∷ rest)
group_three t u v w more rest ht hu hv hw e =
    rw
      (
        not_padding v,
        not_padding w,
        sextet-b64_char t ht,
        sextet-b64_char u hu,
        sextet-b64_char v hv,
        sextet-b64_char w hw,
        e,
      )
      refl

decode-urlsafe_b64encode :
    (data' : Bytes) → All (λ c. c < 256) data' → decode (urlsafe_b64encode data') ≡ ok data'
unfolding decode urlsafe_b64encode
decode-urlsafe_b64encode [] h = refl
decode-urlsafe_b64encode (a ∷ []) h =
    rw (sextet-b64_char (a / 4) (omega (arith, h.0)), sextet-b64_char (a % 4 * 16) (omega arith))
      (ap (λ x. ok (x ∷ [])) (omega arith))
decode-urlsafe_b64encode (a ∷ b ∷ []) h =
    group_two (a / 4) (a % 4 * 16 + b / 16) (b % 16 * 4) (ok []) (omega (arith, h.0))
      (omega (arith, h.1.0)) (omega arith)
    ∙ ap₂ (λ x y. ok (x ∷ y ∷ [])) (omega (arith, h.1.0)) (omega arith)
decode-urlsafe_b64encode (a ∷ b ∷ c ∷ rest) h =
    let x : a / 4 * 4 + (a % 4 * 16 + b / 16) / 16 ≡ a = omega (arith, h.1.0) in
    let y : (a % 4 * 16 + b / 16) % 16 * 16 + (b % 16 * 4 + c / 64) / 4 ≡ b =
      omega (arith, h.1.0, h.1.1.0) in
    let z : (b % 16 * 4 + c / 64) % 4 * 64 + c % 64 ≡ c = omega (arith, h.1.1.0) in
    group_three (a / 4) (a % 4 * 16 + b / 16) (b % 16 * 4 + c / 64) (c % 64)
      (decode (urlsafe_b64encode rest)) rest (omega (arith, h.0)) (omega (arith, h.1.0))
      (omega (arith, h.1.1.0)) (omega arith) (decode-urlsafe_b64encode rest h.1.1.1)
    ∙ ap₂ (λ u v. ok (u ∷ v ∷ c' ∷ rest)) x y
    ∙ ap (λ u. ok (a ∷ b ∷ u ∷ rest)) z
  where
    c' : ℕ
    c' = (b % 16 * 4 + c / 64) % 4 * 64 + c % 64

abbrev pub canonical_base64 : Base64
canonical_base64 = record { urlsafe_b64decode = decode }

pub canonical_base64-IsBase64 : IsBase64 canonical_base64
canonical_base64-IsBase64 = record { decode-encode = decode-urlsafe_b64encode }

pub all_bytes : (s : Bytes) → filter (λ c. leb 256 c) s ≡ [] → All (λ c. c < 256) s
all_bytes [] h = tt
all_bytes (c ∷ s) h = elim (Bool-cases (leb 256 c)) [
  | inl large ↦ absurd (cc (rw large at h))
  | inr small ↦ (ground arith, all_bytes s (rw small at h))
]

abbrev payload : Fields
payload = token_fields (codes "did:a") 1 (codes "j") (5 ∷ 2 ∷ 4 ∷ [])

abbrev token : Str
token = signing_input serial true payload ++ codes "." ++ b64url_encode (1 ∷ [])

verify_iat-issue_token_example :
    (read : Fields) × (verify_iat plain_signatures serial canonical_base64
        (some (9 ∷ []))
        61_000_000
        token
      ≡ (if ltb ((1 + iat_ttl_seconds) * second) 61_000_000 then none else some (object read)))
    × ((k : Str) → get_field k read ≡ get_field k payload)
verify_iat-issue_token_example =
    verify_iat-issue_token plain_signatures serial canonical_base64 true (3 ∷ []) (9 ∷ []) 1
      61_000_000 (codes "j") (codes "did:a") (5 ∷ 2 ∷ 4 ∷ []) token serial-IsCodec
      canonical_base64-IsBase64
      (λ message signature made.
        (refl, subst (All (λ c. c < 256)) (ok_injective made) (ground arith)))
      (all_bytes (serial.dumps (object payload)) (unfold token_fields sorted insert_sorted in refl))
      (unfold issue_token in refl)
