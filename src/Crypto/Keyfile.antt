-- ===== src/Crypto/Keyfile.antt =====
-- crypto/keyfile.py: the password-protected keyfile. A file is its text; the path is taken as given,
-- and the random salt and nonce are passed in.
use decentralized_idp.Prelude.{
  ◌<◌, ◌≡◌, refl, [], Option, none, some, Result, ok, err, value_error, file_not_found_error, ◌>>=◌,
  All, ◌∙◌,
}
use decentralized_idp.Stdlib.Bytes.{Bytes, Str, codes, bytes_eq}
use decentralized_idp.Stdlib.Hex.{hex, from_hex, from_hex-hex}
use decentralized_idp.Stdlib.Json.{
  Json, num, text, object, Fields, end, field, get_field, subscript, as_text, Codec, IsCodec,
}
use decentralized_idp.External.{Aead, IsAead, Derivation}

module _ (aead : Aead) (derivation : Derivation) (codec : Codec) where
  unfoldable pub derive_aes_key : Str → Bytes → Bytes
  derive_aes_key password salt = derivation.pbkdf2_hmac password salt

  unfoldable pub payload_fields : Bytes → Bytes → Bytes → Bytes → Str → Fields
  payload_fields salt nonce ciphertext public_key_bytes alg = field (codes "version") (num 1) (
      field (codes "alg") (text alg) (
        field (codes "salt") (text (hex salt)) (
          field (codes "nonce") (text (hex nonce)) (
            field (codes "ciphertext") (text (hex ciphertext))
              (field (codes "public_key") (text (hex public_key_bytes)) end)))))

  -- The text that is written to the file.
  unfoldable pub save_keyfile : Bytes → Bytes → Bytes → Bytes → Str → Str → Str
  save_keyfile salt nonce private_key_bytes public_key_bytes password alg =
      let aes_key = derive_aes_key password salt in
      let ciphertext = aead.encrypt aes_key nonce private_key_bytes [] in
      codec.dumps_unsorted (object (payload_fields salt nonce ciphertext public_key_bytes alg))

  -- `bytes.fromhex(payload[key])`
  abbrev pub hex_field : Str → Json → Result Bytes
  hex_field key payload = do v ← subscript key payload; s ← as_text v; from_hex s

  -- `except Exception: raise ValueError`
  abbrev pub or_value_error : Option Bytes → Result Bytes
  or_value_error none = err value_error
  or_value_error (some key) = ok key

  abbrev pub read_file : Option Str → Result Str
  read_file none = err file_not_found_error
  read_file (some contents) = ok contents

  -- `none` is a path where there is no file.
  unfoldable pub load_keyfile : Option Str → Str → Result (Bytes × Bytes)
  load_keyfile file password = do
    contents ← read_file file
    payload ← codec.loads contents
    salt ← hex_field (codes "salt") payload
    nonce ← hex_field (codes "nonce") payload
    ciphertext ← hex_field (codes "ciphertext") payload
    public_key_bytes ← hex_field (codes "public_key") payload
    private_key_bytes ←
        or_value_error (aead.decrypt (derive_aes_key password salt) nonce ciphertext [])
    ok (private_key_bytes, public_key_bytes)

  hex_field_lem :
      (key : Str) (fs : Fields) (bytes : Bytes)
      → All (λ b. b < 256) bytes
      → get_field key fs ≡ some (text (hex bytes))
      → hex_field key (object fs) ≡ ok bytes
  unfolding subscript as_text
  hex_field_lem key fs bytes h e = rw e (from_hex-hex bytes h)

  load_payload :
      IsCodec codec
      → (salt nonce ciphertext public_key : Bytes) (given alg : Str) → All (λ b. b < 256) salt
      → All (λ b. b < 256) nonce
      → All (λ b. b < 256) ciphertext
      → All (λ b. b < 256) public_key
      → load_keyfile
          (some
            (codec.dumps_unsorted (object (payload_fields salt nonce ciphertext public_key alg))))
          given
        ≡ (or_value_error (aead.decrypt (derive_aes_key given salt) nonce ciphertext []) >>= λ key.
            ok (key, public_key))
  unfolding load_keyfile
  load_payload law salt nonce ciphertext public_key given alg hs hn hc hp =
      let read = law.loads-dumps_unsorted (payload_fields salt nonce ciphertext public_key alg) in
      rw
        (
          read.1,
          hex_field_lem (codes "salt") read.0 salt hs
              (read.2 (codes "salt") ∙ (unfold payload_fields get_field bytes_eq in refl)),
          hex_field_lem (codes "nonce") read.0 nonce hn
              (read.2 (codes "nonce") ∙ (unfold payload_fields get_field bytes_eq in refl)),
          hex_field_lem (codes "ciphertext") read.0 ciphertext hc
              (read.2 (codes "ciphertext") ∙ (unfold payload_fields get_field bytes_eq in refl)),
          hex_field_lem (codes "public_key") read.0 public_key hp
              (read.2 (codes "public_key") ∙ (unfold payload_fields get_field bytes_eq in refl)),
        )
        refl

  -- A saved keyfile loads back to both keys under its password; under any password the outcome is that
  -- of decrypting with the key derived from that password, and ValueError where that fails.
  pub load_keyfile-save_keyfile :
      IsCodec codec
      → IsAead aead
      → (salt nonce private_key public_key : Bytes) (password given alg : Str)
      → All (λ b. b < 256) salt
      → All (λ b. b < 256) nonce
      → All (λ b. b < 256) (aead.encrypt (derive_aes_key password salt) nonce private_key [])
      → All (λ b. b < 256) public_key
      → (load_keyfile (some (save_keyfile salt nonce private_key public_key password alg)) password
          ≡ ok (private_key, public_key))
        × (load_keyfile (some (save_keyfile salt nonce private_key public_key password alg)) given
            ≡ (or_value_error (
                  aead.decrypt
                    (derive_aes_key given salt)
                    nonce
                    (aead.encrypt (derive_aes_key password salt) nonce private_key [])
                    [])
                >>= λ key. ok (key, public_key)))
  unfolding save_keyfile
  load_keyfile-save_keyfile law sound salt nonce private_key public_key password given alg hs hn hc
        hp =
      let ciphertext = aead.encrypt (derive_aes_key password salt) nonce private_key [] in
      (
        load_payload law salt nonce ciphertext public_key password alg hs hn hc hp
            ∙ rw (sound.decrypt-encrypt (derive_aes_key password salt) nonce private_key []) refl,
        load_payload law salt nonce ciphertext public_key given alg hs hn hc hp,
      )
