-- ===== src/Crypto/Pqc.antt =====
-- crypto/pqc.py: the signatures and the key encapsulation, over liboqs where it is available and over
-- the cryptography package where it is not. The libraries are parameters; what a call draws at random
-- is passed in.
use decentralized_idp.Prelude.{
  ◌≡◌, ◌<◌, All, refl, sym, ap, ◌∙◌, Bool, true, false, take, Result, ok, ◌>>=◌, >>=-eq-ok,
  ok_injective, if◌then◌else◌,
}
use decentralized_idp.Stdlib.Bytes.{Bytes}
use decentralized_idp.External.{Signatures, Kem}

-- The module `oqs`, by the calls of its objects for ML-DSA-65 and ML-KEM-768. A `Signature` or a
-- `KeyEncapsulation` that makes keys is named by the bytes that it draws: `generate_keypair` returns
-- its public key, and `export_secret_key` afterwards its secret one.
pub record Oqs : Type 0 where
  pub signature_generate_keypair : Bytes → Result Bytes
  pub signature_export_secret_key : Bytes → Result Bytes
  -- private key, then message
  pub sign : Bytes → Bytes → Result Bytes
  -- message, signature, public key
  pub verify : Bytes → Bytes → Bytes → Result Bool
  pub kem_generate_keypair : Bytes → Result Bytes
  pub kem_export_secret_key : Bytes → Result Bytes
  -- public key, then what is drawn; a ciphertext and a shared secret
  pub encap_secret : Bytes → Bytes → Result (Bytes × Bytes)
  -- private key, then ciphertext
  pub decap_secret : Bytes → Bytes → Result Bytes

-- The Ed25519 keys of the cryptography package, named by the bytes that `generate` draws, and their
-- raw bytes; `verify` raises where the signature is invalid.
pub record Ed25519 : Type 0 where
  pub private_bytes : Bytes → Bytes
  pub public_bytes : Bytes → Bytes
  -- private key, then message
  pub sign : Bytes → Bytes → Result Bytes
  -- public key, signature, message
  pub verify : Bytes → Bytes → Bytes → Result (Unit {0})

-- A signature with the secret key of an object verifies with its public key, and consists of bytes.
pub record IsSignature (oqs : Oqs) (ed : Ed25519) : Type 0 where
  pub oqs_verify-sign :
      (seed private_key public_key message signature : Bytes)
      → oqs.signature_generate_keypair seed ≡ ok public_key
      → oqs.signature_export_secret_key seed ≡ ok private_key
      → oqs.sign private_key message ≡ ok signature
      → (oqs.verify message signature public_key ≡ ok true) × All (λ c. c < 256) signature
  pub ed_verify-sign :
      (seed message signature : Bytes)
      → ed.sign (ed.private_bytes seed) message ≡ ok signature
      → (ed.verify (ed.public_bytes seed) signature message ≡ ok tt) × All (λ c. c < 256) signature

module _ (pqc_available : Bool) (oqs : Oqs) (ed : Ed25519) where
  unfoldable pub generate_keypair : Bytes → Result (Bytes × Bytes)
  generate_keypair seed =
      if pqc_available
      then (do
        public_key ← oqs.signature_generate_keypair seed
        private_key ← oqs.signature_export_secret_key seed
        ok (private_key, public_key))
      else ok (ed.private_bytes seed, ed.public_bytes seed)

  unfoldable pub sign_message : Bytes → Bytes → Result Bytes
  sign_message private_key message =
      if pqc_available then oqs.sign private_key message else ed.sign private_key message

  -- What `verify` does under its `try`; Authentication/Tokens has the rest of it as `pqc_verify`.
  unfoldable pub try_verify : Bytes → Bytes → Bytes → Result Bool
  try_verify public_key message signature =
      if pqc_available
      then oqs.verify message signature public_key
      else (do done ← ed.verify public_key signature message; ok true)

  unfoldable pub kem_generate_keypair : Bytes → Result (Bytes × Bytes)
  kem_generate_keypair seed =
      if pqc_available
      then (do
        public_key ← oqs.kem_generate_keypair seed
        private_key ← oqs.kem_export_secret_key seed
        ok (private_key, public_key))
      else ok (seed, seed)

  unfoldable pub kem_encapsulate : Bytes → Bytes → Result (Bytes × Bytes)
  kem_encapsulate recipient_public_key coins =
      if pqc_available
      then (do pair ← oqs.encap_secret recipient_public_key coins; ok (pair.0, take 32 pair.1))
      else ok (coins, coins)

  unfoldable pub kem_decapsulate : Bytes → Bytes → Result Bytes
  kem_decapsulate private_key ciphertext =
      if pqc_available
      then (do secret ← oqs.decap_secret private_key ciphertext; ok (take 32 secret))
      else ok ciphertext

  -- The interfaces that the other parts take.
  abbrev pub signatures_of : Signatures
  signatures_of = record { sign = sign_message; verify = try_verify }

  abbrev pub kem_of : Bytes → Kem
  kem_of coins = record { encapsulate = λ key. kem_encapsulate key coins }

-- With either backend, a signature of a pair that was generated verifies, and consists of bytes.
pub try_verify-sign_message :
    (pqc_available : Bool) (oqs : Oqs) (ed : Ed25519)
    → IsSignature oqs ed
    → (seed message signature : Bytes) (pair : Bytes × Bytes)
    → generate_keypair pqc_available oqs ed seed ≡ ok pair
    → sign_message pqc_available oqs ed pair.0 message ≡ ok signature
    → (try_verify pqc_available oqs ed pair.1 message signature ≡ ok true)
      × All (λ c. c < 256) signature
unfolding generate_keypair sign_message try_verify
try_verify-sign_message true oqs ed law seed message signature pair keys signed =
    let public_key = >>=-eq-ok (oqs.signature_generate_keypair seed) _ keys in
    let private_key = >>=-eq-ok (oqs.signature_export_secret_key seed) _ public_key.2 in
    let same : (private_key.0, public_key.0) ≡ pair = ok_injective private_key.2 in
    law.oqs_verify-sign seed pair.0 pair.1 message signature (public_key.1 ∙ ap (λ u. ok u.1) same)
      (private_key.1 ∙ ap (λ u. ok u.0) same) signed
try_verify-sign_message false oqs ed law seed message signature pair keys signed =
    let same : (ed.private_bytes seed, ed.public_bytes seed) ≡ pair = ok_injective keys in
    let made : ed.sign (ed.private_bytes seed) message ≡ ok signature =
      ap (λ u. ed.sign u.0 message) same ∙ signed in
    let law' = law.ed_verify-sign seed message signature made in
    let holds : ed.verify pair.1 signature message ≡ ok tt =
      sym (ap (λ u. ed.verify u.1 signature message) same) ∙ law'.0 in
    (rw holds refl, law'.1)
