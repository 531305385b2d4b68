-- ===== src/Crypto/Hkdf.antt =====
-- crypto/hkdf.py: the identity secret and its commitment hash.
use decentralized_idp.Prelude.{ℕ, ◌+◌, ◌-◌, ◌%◌, [], ◌∷◌, ◌++◌, Result, ok, ◌>>=◌, arith, ◌≤◌, ◌<◌}
use native.Mathlib.Nat.{mod-lt}
use decentralized_idp.Stdlib.Bytes.{Bytes, Str, codes, from_bytes, to_bytes}
use decentralized_idp.Stdlib.Hex.{hex}
use decentralized_idp.External.{Hashing}

module _ (h : Hashing) where
  unfoldable pub derive_identity_secret : ℕ → Bytes → Bytes → Str → ℕ
  derive_identity_secret p public_key_bytes registration_nonce password =
      let ikm = public_key_bytes ++ password in
      let prk = h.hmac_sha3_256 registration_nonce ikm in
      let okm = h.hmac_sha3_256 prk (codes "decidp-identity-secret-v1" ++ 1 ∷ []) in
      from_bytes okm % (p - 1) + 1

  unfoldable pub commitment_hash : ℕ → Result Str
  commitment_hash s = do bytes ← to_bytes s 32; ok (hex (h.sha3_256 bytes))

  -- The derived secret lies between 1 and p - 1, so it can be shared and is not zero in the field.
  pub derive_identity_secret_bounds :
      (p : ℕ) (public_key nonce : Bytes) (password : Str)
      → 1 < p
      → (1 ≤ derive_identity_secret p public_key nonce password)
        × (derive_identity_secret p public_key nonce password ≤ p - 1)
  unfolding derive_identity_secret
  derive_identity_secret_bounds p public_key nonce password large =
      let okm =
        h.hmac_sha3_256 (h.hmac_sha3_256 nonce (public_key ++ password))
          (codes "decidp-identity-secret-v1" ++ 1 ∷ []) in
      (omega arith, omega (arith, mod-lt (from_bytes okm) {m = p - 1} (omega arith)))
