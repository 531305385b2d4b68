-- ===== src/Authentication/Tokens/RoundTrip.antt =====
-- authentication/iat.py: what `issue` makes, `verify_iat` reads.
use decentralized_idp.Authentication.Tokens.Encoding.{
  b64url_decode-b64url_encode, b64url_encode-NoDot, split_dots-three,
}
use decentralized_idp.Prelude.{
  ℕ, ◌+◌, ◌*◌, ◌<◌, ◌≡◌, refl, sym, ap, ◌∙◌, List, ◌++◌, Bool, true, none, some, ok, ok_injective,
  >>=-eq-ok, All, ltb, if◌then◌else◌,
}
use decentralized_idp.Stdlib.Bytes.{Bytes, Str, codes, bytes_eq}
use decentralized_idp.Stdlib.Json.{num, object, Fields, get_field, subscript, Codec, IsCodec}
use decentralized_idp.External.{Signatures, Base64, IsBase64}
use decentralized_idp.Crypto.{iat_ttl_seconds}
use decentralized_idp.Authentication.Challenge.{second}
use decentralized_idp.Authentication.Tokens.{
  b64url_encode, token_fields, header_fields, signing_input, issue_token, pqc_verify,
  check_signature, read_payload, verify_iat,
}

module _ (signatures : Signatures) (codec : Codec) (base64 : Base64) where
  -- The payload part of a token that was issued, read at some time.
  read_payload-dumps :
      (fs : Fields) (expiry now : ℕ)
      → IsCodec codec
      → IsBase64 base64
      → All (λ c. c < 256) (codec.dumps (object fs))
      → get_field (codes "exp") fs ≡ some (num expiry)
      → (gs : Fields) × (read_payload codec base64 now (b64url_encode (codec.dumps (object fs)))
          ≡ (if ltb (expiry * second) now then none else some (object gs)))
        × ((k : Str) → get_field k gs ≡ get_field k fs)
  unfolding read_payload subscript
  read_payload-dumps fs expiry now law law64 bytes expires =
      let read = law.loads-dumps fs in
      (
        read.0,
        rw
            (
              b64url_decode-b64url_encode base64 (codec.dumps (object fs)) law64 bytes,
              read.1,
              read.2 (codes "exp"),
              expires,
            )
            refl,
        read.2,
      )

  pqc_verify-holds :
      (public_key message sig : Bytes)
      → signatures.verify public_key message sig ≡ ok true
      → pqc_verify signatures public_key message sig ≡ true
  unfolding pqc_verify
  pqc_verify-holds public_key message sig e = rw (e, pqc_verify) refl

  check_signature-holds :
      (public_key : Bytes) (now : ℕ) (header part : Str) (sig : Bytes)
      → signatures.verify public_key (header ++ codes "." ++ part) sig ≡ ok true
      → check_signature signatures codec base64 (some public_key) now header part sig
        ≡ read_payload codec base64 now part
  check_signature-holds public_key now header part sig e =
      ap (λ b. if b then read_payload codec base64 now part else none)
        (pqc_verify-holds public_key (header ++ codes "." ++ part) sig e)

  -- A token that was issued is accepted up to the moment 60 seconds after its issue, that moment
  -- included, and refused after it, under the public key of the pair that signed it; its payload has the fields that were issued. The
  -- bytes of the payload's text and of the signature are below 256.
  pub verify_iat-issue_token :
      (pqc_available : Bool) (private_key public_key : Bytes) (issued now : ℕ) (jti did : Str)
      (quorum : List ℕ) (token : Str)
      → IsCodec codec
      → IsBase64 base64
      → ((message signature : Bytes)
          → signatures.sign private_key message ≡ ok signature
          → (signatures.verify public_key message signature ≡ ok true)
            × All (λ c. c < 256) signature)
      → All (λ c. c < 256) (codec.dumps (object (token_fields did issued jti quorum)))
      → issue_token signatures codec pqc_available (some private_key) issued jti did quorum
        ≡ ok token
      → (payload : Fields) × (verify_iat signatures codec base64 (some public_key) now token
          ≡ (if ltb ((issued + iat_ttl_seconds) * second) now then none else some (object payload)))
        × ((k : Str) → get_field k payload ≡ get_field k (token_fields did issued jti quorum))
  unfolding issue_token verify_iat signing_input
  verify_iat-issue_token pqc_available private_key public_key issued now jti did quorum token law
        law64 pair bytes made =
      let fs = token_fields did issued jti quorum in
      let header = b64url_encode (codec.dumps_unsorted (object (header_fields pqc_available))) in
      let part = b64url_encode (codec.dumps (object fs)) in
      let signed = >>=-eq-ok (signatures.sign private_key (header ++ codes "." ++ part)) _ made in
      let sig = signed.0 in
      let holds = pair (header ++ codes "." ++ part) sig signed.1 in
      let expires : get_field (codes "exp") fs ≡ some (num (issued + iat_ttl_seconds)) =
        unfold token_fields get_field bytes_eq in refl in
      let read = read_payload-dumps fs (issued + iat_ttl_seconds) now law law64 bytes expires in
      let parts =
        split_dots-three header part (b64url_encode sig)
          (b64url_encode-NoDot (codec.dumps_unsorted (object (header_fields pqc_available))))
          (b64url_encode-NoDot (codec.dumps (object fs))) (b64url_encode-NoDot sig) in
      (
        read.0,
        ap (verify_iat signatures codec base64 (some public_key) now) (sym (ok_injective signed.2))
            ∙ rw (parts, b64url_decode-b64url_encode base64 sig law64 holds.1)
                (check_signature-holds public_key now header part sig holds.0 ∙ read.1),
        read.2,
      )
