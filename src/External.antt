-- ===== src/External.antt =====
-- The cryptographic primitives that the code takes from hashlib, hmac, the cryptography package and
-- liboqs, as parameters of the model, and the documented behaviour that the theorems rely on.
use decentralized_idp.Prelude.{◌<◌, ◌≡◌, Bool, Option, some, All, length, Result, ok}
use decentralized_idp.Stdlib.Bytes.{Bytes}
use decentralized_idp.Stdlib.Base64.{urlsafe_b64encode}

pub record Hashing : Type 0 where
  pub sha3_256 : Bytes → Bytes
  -- key, then message
  pub hmac_sha3_256 : Bytes → Bytes → Bytes

-- A digest is 32 bytes.
pub record IsHashing (h : Hashing) : Type 0 where
  pub sha3_length : (m : Bytes) → length (h.sha3_256 m) ≡ 32
  pub sha3_bytes : (m : Bytes) → All (λ b. b < 256) (h.sha3_256 m)

-- The two messages are no collision of the hash: with one digest they are one message.
abbrev pub NoCollision : Hashing → Bytes → Bytes → Type 0
NoCollision h m m' = h.sha3_256 m ≡ h.sha3_256 m' → m ≡ m'

-- AES-256-GCM: key, nonce, text, associated data. `none` stands for the exception InvalidTag.
pub record Aead : Type 0 where
  pub encrypt : Bytes → Bytes → Bytes → Bytes → Bytes
  pub decrypt : Bytes → Bytes → Bytes → Bytes → Option Bytes

pub record IsAead (a : Aead) : Type 0 where
  pub decrypt-encrypt :
      (key nonce text data' : Bytes)
      → a.decrypt key nonce (a.encrypt key nonce text data') data' ≡ some text

-- The signature scheme in use, ML-DSA-65 or Ed25519; any call may raise.
pub record Signatures : Type 0 where
  -- private key, then message
  pub sign : Bytes → Bytes → Result Bytes
  -- public key, message, signature
  pub verify : Bytes → Bytes → Bytes → Result Bool

-- `hashlib.pbkdf2_hmac` with SHA3-256, 600 000 rounds and 32 bytes: password, then salt.
pub record Derivation : Type 0 where
  pub pbkdf2_hmac : Bytes → Bytes → Bytes

-- The encapsulation of crypto/pqc.py's KEM backend: a public key to a ciphertext and a shared secret.
pub record Kem : Type 0 where
  pub encapsulate : Bytes → Result (Bytes × Bytes)

-- `base64.urlsafe_b64decode`, which skips what is not in its alphabet.
pub record Base64 : Type 0 where
  pub urlsafe_b64decode : Bytes → Result Bytes

-- Decoding what was encoded gives the bytes.
pub record IsBase64 (b : Base64) : Type 0 where
  pub decode-encode :
      (data' : Bytes)
      → All (λ c. c < 256) data'
      → b.urlsafe_b64decode (urlsafe_b64encode data') ≡ ok data'
