-- ===== src/Authentication/Tokens/Validity.antt =====
-- authentication/iat.py: what a token that `verify_iat` accepts has been checked for.
use decentralized_idp.Prelude.{
  ℕ, ◌*◌, ◌≤◌, ◌≡◌, refl, List, [], ◌∷◌, ◌++◌, true, Option, none, some, Result, ok, err, ◌>>=◌,
  Bool-cases, inl, inr, arith, ltb,
}
use decentralized_idp.Stdlib.Bytes.{Bytes, Str, codes}
use decentralized_idp.Stdlib.Base64.{split_dots}
use decentralized_idp.Stdlib.Json.{Json, null, num, text, array, object, subscript, Codec}
use decentralized_idp.External.{Signatures, Base64}
use decentralized_idp.Authentication.Challenge.{second}
use decentralized_idp.Authentication.Tokens.{
  b64url_decode, pqc_verify, unexpired, or_none, read_payload, check_signature, verify_parts,
  verify_iat,
}

module _ (signatures : Signatures) (codec : Codec) (base64 : Base64) where
  -- The payload part decodes to the payload, which has not expired.
  pub record IsFresh (now : ℕ) (part : Str) (payload : Json) : Type 0 where
    pub expiry : ℕ
    pub loaded : (b64url_decode base64 part >>= λ bytes. codec.loads bytes) ≡ ok payload
    pub expires : subscript (codes "exp") payload ≡ ok (num expiry)
    pub in_time : now ≤ expiry * second

  -- The token has three parts, of which the last signs the others, and its payload has not expired.
  pub record IsValid (key : Option Bytes) (now : ℕ) (parts : List Str) (payload : Json)
      : Type 0 where
    pub header : Str
    pub part : Str
    pub sig_b64 : Str
    pub public_key : Bytes
    pub sig : Bytes
    pub parts_eq : parts ≡ header ∷ part ∷ sig_b64 ∷ []
    pub key_eq : key ≡ some public_key
    pub decoded : b64url_decode base64 sig_b64 ≡ ok sig
    pub signed : pqc_verify signatures public_key (header ++ codes "." ++ part) sig ≡ true
    pub fresh : IsFresh now part payload

  or_none_inv :
      {A : Type 0} (r : Result A) (next : A → Option Json) {payload : Json}
      → or_none r next ≡ some payload
      → (a : A) × (r ≡ ok a) × (next a ≡ some payload)
  or_none_inv (err x) next e = absurd (cc e)
  or_none_inv (ok a) next e = (a, refl, e)

  unexpired_inv :
      (now : ℕ) (payload value out : Json)
      → unexpired now payload value ≡ some out
      → (expiry : ℕ) × (value ≡ num expiry) × (payload ≡ out) × (now ≤ expiry * second)
  unexpired_inv now payload (num n) out e = elim (Bool-cases (ltb (n * second) now)) [
    | inl late ↦ absurd (cc (rw late at e))
    | inr soon ↦ (n, refl, cc (rw soon at e), ground (arith, soon))
  ]
  unexpired_inv now payload null out e = absurd (cc e)
  unexpired_inv now payload (text s) out e = absurd (cc e)
  unexpired_inv now payload (array js) out e = absurd (cc e)
  unexpired_inv now payload (object fs) out e = absurd (cc e)

  read_payload-IsFresh :
      (now : ℕ) (part : Str) (payload : Json)
      → read_payload codec base64 now part ≡ some payload
      → IsFresh now part payload
  unfolding read_payload
  read_payload-IsFresh now part payload e =
      let a = or_none_inv (b64url_decode base64 part >>= λ bytes. codec.loads bytes) _ e in
      let b = or_none_inv (subscript (codes "exp") a.0) _ a.2 in
      let c = unexpired_inv now a.0 b.0 payload b.2 in
      record {
        expiry = c.0;
        loaded = rw (← c.2) a.1;
        expires = rw (← c.2, b.1, c.1) refl;
        in_time = c.3;
      }

  check_signature_inv :
      (key : Option Bytes) (now : ℕ) (header part : Str) (sig : Bytes) (payload : Json)
      → check_signature signatures codec base64 key now header part sig ≡ some payload
      → (public_key : Bytes) × (key ≡ some public_key)
        × (pqc_verify signatures public_key (header ++ codes "." ++ part) sig ≡ true)
        × IsFresh now part payload
  check_signature_inv none now header part sig payload e = absurd (cc e)
  check_signature_inv (some public_key) now header part sig payload e =
      elim (Bool-cases (pqc_verify signatures public_key (header ++ codes "." ++ part) sig)) [
        | inl valid ↦
            (public_key, refl, valid, read_payload-IsFresh now part payload (rw valid at e))
        | inr invalid ↦ absurd (cc (rw invalid at e))
      ]

  verify_parts-IsValid :
      (key : Option Bytes) (now : ℕ) (parts : List Str) (payload : Json)
      → verify_parts signatures codec base64 key now parts ≡ some payload
      → IsValid key now parts payload
  verify_parts-IsValid key now [] payload e = absurd (cc e)
  verify_parts-IsValid key now (a ∷ []) payload e = absurd (cc e)
  verify_parts-IsValid key now (a ∷ b ∷ []) payload e = absurd (cc e)
  verify_parts-IsValid key now (a ∷ b ∷ c ∷ d ∷ rest) payload e = absurd (cc e)
  verify_parts-IsValid key now (header ∷ part ∷ sig_b64 ∷ []) payload e =
      let s = or_none_inv (b64url_decode base64 sig_b64) _ e in
      let c = check_signature_inv key now header part s.0 payload s.2 in
      record {
        header = header;
        part = part;
        sig_b64 = sig_b64;
        public_key = c.0;
        sig = s.0;
        parts_eq = refl;
        key_eq = c.1;
        decoded = s.1;
        signed = c.2;
        fresh = c.3;
      }

  -- A token that is accepted has exactly three parts, the system's key verifies the last as a signature
  -- of the first two, and the payload that is returned is that of the second and has not expired.
  pub verify_iat-IsValid :
      (key : Option Bytes) (now : ℕ) (token : Str) (payload : Json)
      → verify_iat signatures codec base64 key now token ≡ some payload
      → IsValid key now (split_dots token) payload
  unfolding verify_iat
  verify_iat-IsValid key now token payload e =
      verify_parts-IsValid key now (split_dots token) payload e
