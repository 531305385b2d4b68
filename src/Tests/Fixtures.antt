-- ===== src/Tests/Fixtures.antt =====
-- Primitives simple enough to compute with, that have the documented behaviour: a digest is one fixed
-- block, or the message itself, and encryption keeps the text.
use decentralized_idp.Prelude.{
  ℕ, zero, suc, ◌≢◌, ◌<◌, ◌%◌, refl, [], ◌∷◌, true, some, All, arith, ok,
}
use decentralized_idp.Stdlib.Bytes.{Bytes}
use decentralized_idp.External.{
  Hashing, IsHashing, Aead, IsAead, Derivation, Kem, Signatures, Base64,
}
use decentralized_idp.Arith.Prime.{IsPrime}

abbrev pub block : ℕ → Bytes
block zero = []
block (suc n) = 1 ∷ block n

abbrev pub fixed_hashing : Hashing
fixed_hashing = record { sha3_256 = λ m. block 32; hmac_sha3_256 = λ k m. block 32 }

block_bytes : (n : ℕ) → All (λ b. b < 256) (block n)
block_bytes zero = tt
block_bytes (suc n) = (omega arith, block_bytes n)

pub fixed_hashing-IsHashing : IsHashing fixed_hashing
fixed_hashing-IsHashing = record { sha3_length = λ m. refl; sha3_bytes = λ m. block_bytes 32 }

abbrev pub plain_hashing : Hashing
plain_hashing = record { sha3_256 = λ m. m; hmac_sha3_256 = λ k m. m }

abbrev pub plain_aead : Aead
plain_aead = record {
  encrypt = λ key nonce text data'. text;
  decrypt = λ key nonce text data'. some text;
}

pub plain_aead-IsAead : IsAead plain_aead
plain_aead-IsAead = record { decrypt-encrypt = λ key nonce text data'. refl }

abbrev pub plain_derivation : Derivation
plain_derivation = record { pbkdf2_hmac = λ password salt. password }

abbrev sixteen : Bytes
sixteen = 0 ∷ 0 ∷ 0 ∷ 0 ∷ 0 ∷ 0 ∷ 0 ∷ 0 ∷ 0 ∷ 0 ∷ 0 ∷ 0 ∷ 0 ∷ 0 ∷ 0 ∷ 0 ∷ []

abbrev pub plain_kem : Kem
plain_kem = record { encapsulate = λ key. ok (key, sixteen) }

seven_only : (d : ℕ) → 1 < d → d < 7 → 7 % d ≢ 0
seven_only zero a b = absurd (omega arith)
seven_only (suc zero) a b = absurd (omega arith)
seven_only (suc (suc zero)) a b = omega arith
seven_only (suc (suc (suc zero))) a b = omega arith
seven_only (suc (suc (suc (suc zero)))) a b = omega arith
seven_only (suc (suc (suc (suc (suc zero))))) a b = omega arith
seven_only (suc (suc (suc (suc (suc (suc zero)))))) a b = omega arith
seven_only (suc (suc (suc (suc (suc (suc (suc d))))))) a b = absurd (omega arith)

pub seven-IsPrime : IsPrime 7
seven-IsPrime = record { large = omega arith; only = seven_only }

abbrev pub plain_signatures : Signatures
plain_signatures = record {
  sign = λ private_key message. ok (1 ∷ []);
  verify = λ public_key message signature. ok true;
}

abbrev pub plain_base64 : Base64
plain_base64 = record { urlsafe_b64decode = λ s. ok s }
