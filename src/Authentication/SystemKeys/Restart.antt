-- ===== src/Authentication/SystemKeys/Restart.antt =====
-- authentication/iat.py: the tokens of a system that is started again in its directory.
use decentralized_idp.Prelude.{
  ℕ, ◌+◌, ◌*◌, ◌<◌, ◌≡◌, sym, ap, ◌∙◌, List, Bool, none, some, ok, ok_injective, All, ltb,
  if◌then◌else◌,
}
use decentralized_idp.Stdlib.Bytes.{Bytes, Str, codes}
use decentralized_idp.Stdlib.Dict.{lookup}
use decentralized_idp.Stdlib.Files.{Files, join, load_or_make_fresh}
use decentralized_idp.Stdlib.Json.{object, Fields, get_field, Codec, IsCodec}
use decentralized_idp.External.{Base64, IsBase64}
use decentralized_idp.Crypto.{iat_ttl_seconds}
use decentralized_idp.Crypto.Pqc.{
  Oqs, Ed25519, IsSignature, generate_keypair, signatures_of, try_verify-sign_message,
}
use decentralized_idp.Authentication.Challenge.{second}
use decentralized_idp.Authentication.Tokens.{token_fields, issue_token, verify_iat}
use decentralized_idp.Authentication.Tokens.RoundTrip.{verify_iat-issue_token}
use decentralized_idp.Authentication.SystemKeys.{init_system_keys, init_system_keys_again}

module _ (pqc_available : Bool) (oqs : Oqs) (ed : Ed25519) (codec : Codec) (base64 : Base64) where
  -- A system that starts in a directory without a private key, issues a token and starts again there
  -- reads that token as it was issued: it accepts the token up to the moment 60 seconds after the
  -- issue, that moment included, and refuses it after it; the payload has the fields that were issued.
  -- The bytes of the payload's text are below 256, and the backend's signatures verify.
  pub verify_iat-init_system_keys :
      (data_dir : Str) (seed seed' : Bytes) (files files' files'' : Files)
      (pair pair' : Bytes × Bytes) (issued now : ℕ) (jti did : Str) (quorum : List ℕ) (token : Str)
      → IsSignature oqs ed
      → IsCodec codec
      → IsBase64 base64
      → lookup (join data_dir (codes "system.key")) files ≡ none
      → init_system_keys pqc_available oqs ed data_dir seed files ≡ ok (pair, files')
      → All (λ c. c < 256) (codec.dumps (object (token_fields did issued jti quorum)))
      → issue_token
          (signatures_of pqc_available oqs ed)
          codec
          pqc_available
          (some pair.0)
          issued
          jti
          did
          quorum
        ≡ ok token
      → init_system_keys pqc_available oqs ed data_dir seed' files' ≡ ok (pair', files'')
      → (payload : Fields) × (verify_iat
            (signatures_of pqc_available oqs ed)
            codec
            base64
            (some pair'.1)
            now
            token
          ≡ (if ltb ((issued + iat_ttl_seconds) * second) now then none else some (object payload)))
        × ((k : Str) → get_field k payload ≡ get_field k (token_fields did issued jti quorum))
  unfolding init_system_keys
  verify_iat-init_system_keys data_dir seed seed' files files' files'' pair pair' issued now jti did
        quorum token law written law64 fresh started bytes made restarted =
      let keys =
        load_or_make_fresh (join data_dir (codes "system.key")) (join data_dir (codes "system.pub"))
          (generate_keypair pqc_available oqs ed seed) files files' pair fresh started in
      let again =
        init_system_keys_again pqc_available oqs ed data_dir seed seed' files files' pair started in
      let same : (pair, files') ≡ (pair', files'') = ok_injective (sym again ∙ restarted) in
      let read =
        verify_iat-issue_token (signatures_of pqc_available oqs ed) codec base64 pqc_available
          pair.0 pair.1 issued now jti did quorum token written law64
          (λ message signature signed.
            try_verify-sign_message pqc_available oqs ed law seed message signature pair keys
              signed)
          bytes made in
      (
        read.0,
        ap
              (λ u.
                verify_iat (signatures_of pqc_available oqs ed) codec base64 (some u.0.1) now token)
              (sym same)
            ∙ read.1,
        read.2,
      )
