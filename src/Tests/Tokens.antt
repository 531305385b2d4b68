-- ===== src/Tests/Tokens.antt =====
-- authentication/iat.py on a concrete token.
use decentralized_idp.Prelude.{◌≡◌, refl, [], ◌∷◌, ◌++◌, some}
use decentralized_idp.Stdlib.Bytes.{Str, codes, bytes_eq}
use decentralized_idp.Stdlib.Base64.{split_dots}
use decentralized_idp.Stdlib.Json.{Json, num, object, field, end, get_field, subscript}
use decentralized_idp.Authentication.Tokens.{verify_iat, read_payload, b64url_decode, pqc_verify}
use decentralized_idp.Authentication.Tokens.Validity.{IsValid, verify_iat-IsValid}
use decentralized_idp.Tests.Serial.{serial}
use decentralized_idp.Tests.Fixtures.{plain_signatures, plain_base64}

abbrev payload : Json
payload = object (field (codes "exp") (num 5) end)

abbrev token : Str
token = codes "h." ++ serial.dumps payload ++ codes ".s"

token_lem : verify_iat plain_signatures serial plain_base64 (some (9 ∷ [])) 100 token ≡ some payload
unfolding verify_iat split_dots read_payload b64url_decode pqc_verify subscript get_field bytes_eq
token_lem = refl

verify_iat-IsValid_example :
    IsValid plain_signatures serial plain_base64 (some (9 ∷ [])) 100 (split_dots token) payload
verify_iat-IsValid_example =
    verify_iat-IsValid plain_signatures serial plain_base64 (some (9 ∷ [])) 100 token payload
      token_lem
