-- ===== src/Authentication/Tokens.antt =====
-- authentication/iat.py: the identity assertion tokens, and `_extract_jti` of authenticate.py. The
-- system's key pair is passed in; `none` is a key that was not initialised. Times of tokens are whole
-- seconds where they are issued and microseconds where they are checked.
pub mod Validity
pub mod Encoding
pub mod RoundTrip
use decentralized_idp.Prelude.{
  ℕ, zero, suc, ◌+◌, ◌*◌, ◌-◌, ◌%◌, List, [], ◌∷◌, ◌++◌, Bool, false, Option, none, some, Result,
  ok, err, runtime_error, type_error, value_error, ◌>>=◌, length, leb, ltb, if◌then◌else◌,
}
use decentralized_idp.Stdlib.Bytes.{Bytes, Str, codes}
use decentralized_idp.Stdlib.Base64.{urlsafe_b64encode, rstrip_padding, split_dots}
use decentralized_idp.Stdlib.Json.{
  Json, null, num, text, array, object, Items, stop, item, Fields, end, field, get_field, subscript,
  Codec,
}
use decentralized_idp.External.{Signatures, Base64}
use decentralized_idp.Crypto.{iat_ttl_seconds}
use decentralized_idp.Authentication.Challenge.{second}

unfoldable pub b64url_encode : Bytes → Str
b64url_encode data' = rstrip_padding (urlsafe_b64encode data')

-- `"=" * n`
abbrev pub equal_signs : ℕ → Str
equal_signs zero = []
equal_signs (suc k) = 61 ∷ equal_signs k

-- `"=" * (-len(s) % 4)`
abbrev pub padding : ℕ → Str
padding n = equal_signs ((4 - n % 4) % 4)

unfoldable pub b64url_decode : Base64 → Str → Result Bytes
b64url_decode base64 s = base64.urlsafe_b64decode (s ++ padding (length s))

-- `sorted`, by insertion.
unfoldable pub insert_sorted : ℕ → List ℕ → List ℕ
insert_sorted n [] = n ∷ []
insert_sorted n (m ∷ rest) = if leb n m then n ∷ m ∷ rest else m ∷ insert_sorted n rest

unfoldable pub sorted : List ℕ → List ℕ
sorted [] = []
sorted (n ∷ rest) = insert_sorted n (sorted rest)

abbrev pub num_items : List ℕ → Items
num_items [] = stop
num_items (n ∷ rest) = item (num n) (num_items rest)

unfoldable pub token_fields : Str → ℕ → Str → List ℕ → Fields
token_fields did now jti quorum_nodes = field (codes "sub") (text did) (
    field (codes "iat") (num now) (
      field (codes "exp") (num (now + iat_ttl_seconds)) (
        field (codes "jti") (text jti) (
          field (codes "quorum") (array (num_items (sorted quorum_nodes)))
            (field (codes "iss") (text (codes "did:decidp:system")) end)))))

unfoldable pub header_fields : Bool → Fields
header_fields pqc_available =
    field (codes "alg") (text (if pqc_available then codes "ML-DSA-65" else codes "Ed25519"))
      (field (codes "typ") (text (codes "DECIDP-IAT")) end)

-- What is signed, before the signature is joined to it.
unfoldable pub signing_input : Codec → Bool → Fields → Str
signing_input codec pqc_available payload =
    b64url_encode (codec.dumps_unsorted (object (header_fields pqc_available)))
    ++ codes "."
    ++ b64url_encode (codec.dumps (object payload))

-- `issue`, with the time in seconds and the `uuid4`.
unfoldable pub issue_token :
    Signatures → Codec → Bool → Option Bytes → ℕ → Str → Str → List ℕ → Result Str
issue_token signatures codec pqc_available none now jti did quorum_nodes = err runtime_error
issue_token signatures codec pqc_available (some private_key) now jti did quorum_nodes = do
  let input = signing_input codec pqc_available (token_fields did now jti quorum_nodes)
  sig ← signatures.sign private_key input
  ok (input ++ codes "." ++ b64url_encode sig)

-- `verify` of crypto/pqc.py: whatever raises is an invalid signature.
unfoldable pub pqc_verify : Signatures → Bytes → Bytes → Bytes → Bool
pqc_verify signatures public_key message signature =
    elim (signatures.verify public_key message signature) [ ok valid ↦ valid | err e ↦ false ]

abbrev or_null : Option Json → Json
or_null none = null
or_null (some v) = v

-- `payload.get("jti")`
abbrev get_jti : Json → Result Json
get_jti (object fs) = ok (or_null (get_field (codes "jti") fs))
get_jti null = err type_error
get_jti (num n) = err type_error
get_jti (text s) = err type_error
get_jti (array js) = err type_error

-- The second of exactly three parts.
abbrev payload_part : List Str → Result Str
payload_part (header ∷ payload ∷ sig ∷ []) = ok payload
payload_part [] = err value_error
payload_part (a ∷ []) = err value_error
payload_part (a ∷ b ∷ []) = err value_error
payload_part (a ∷ b ∷ c ∷ d ∷ rest) = err value_error

-- `_extract_jti`; `None` is JSON's null, as it is written to the ledger.
unfoldable pub extract_jti : Codec → Base64 → Str → Json
extract_jti codec base64 token =
    elim (do
      part ← payload_part (split_dots token)
      bytes ← b64url_decode base64 part
      payload ← codec.loads bytes
      get_jti payload) [ ok jti ↦ jti | err e ↦ null ]

-- `time.time() > payload["exp"]`, and the payload if that is false.
abbrev pub unexpired : ℕ → Json → Json → Option Json
unexpired now payload (num expiry) = if ltb (expiry * second) now then none else some payload
unexpired now payload null = none
unexpired now payload (text s) = none
unexpired now payload (array js) = none
unexpired now payload (object fs) = none

abbrev pub or_none : {A : Type 0} → Result A → (A → Option Json) → Option Json
or_none (ok a) next = next a
or_none (err e) next = none

-- The rest of `verify_iat` once the signature holds.
unfoldable pub read_payload : Codec → Base64 → ℕ → Str → Option Json
read_payload codec base64 now payload_b64 =
    or_none (do bytes ← b64url_decode base64 payload_b64; codec.loads bytes)
      (λ payload.
        or_none (subscript (codes "exp") payload) (λ expiry. unexpired now payload expiry))

abbrev pub check_signature :
    Signatures → Codec → Base64 → Option Bytes → ℕ → Str → Str → Bytes → Option Json
check_signature signatures codec base64 none now header payload sig = none
check_signature signatures codec base64 (some public_key) now header payload sig =
    if pqc_verify signatures public_key (header ++ codes "." ++ payload) sig
    then read_payload codec base64 now payload
    else none

abbrev pub verify_parts : Signatures → Codec → Base64 → Option Bytes → ℕ → List Str → Option Json
verify_parts signatures codec base64 key now (header ∷ payload ∷ sig_b64 ∷ []) =
    or_none (b64url_decode base64 sig_b64)
      (λ sig. check_signature signatures codec base64 key now header payload sig)
verify_parts signatures codec base64 key now [] = none
verify_parts signatures codec base64 key now (a ∷ []) = none
verify_parts signatures codec base64 key now (a ∷ b ∷ []) = none
verify_parts signatures codec base64 key now (a ∷ b ∷ c ∷ d ∷ rest) = none

-- `verify_iat`: every exception becomes None.
unfoldable pub verify_iat : Signatures → Codec → Base64 → Option Bytes → ℕ → Str → Option Json
verify_iat signatures codec base64 key now token =
    verify_parts signatures codec base64 key now (split_dots token)
