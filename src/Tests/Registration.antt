-- ===== src/Tests/Registration.antt =====
-- registration/register.py on concrete inputs.
use decentralized_idp.Prelude.{
  All, zero, suc, ℕ, ◌+◌, ◌≡◌, refl, List, [], ◌∷◌, inl, inr, arith, ok, true, Result,
}
use decentralized_idp.Stdlib.Bytes.{
  codes, bytes_eq, big_endian, to_bytes, from_bytes, from_bytes_loop,
}
use decentralized_idp.Stdlib.Hex.{hex, hex_digit}
use decentralized_idp.Stdlib.Dict.{lookup, insert}
use decentralized_idp.Crypto.Hkdf.{derive_identity_secret, commitment_hash}
use decentralized_idp.Crypto.Sss.{generate_shares, share_loop, share_value, random_coeffs}
use decentralized_idp.Crypto.Feldman.{generate_commitments, commitment_loop, commitment}
use decentralized_idp.Node.ShareStore.{store_share, get_share, open_row, check_hash, share_hash_of}
use decentralized_idp.Crypto.Lagrange.{Share}
use decentralized_idp.Ledger.{empty}
use decentralized_idp.Node.Answers.{Node}
use decentralized_idp.Registration.{
  register, share_out, prepare, record_registration, write_entry, distribute, give_share,
  aesgcm_key, State, Supply, Registered, did_of, keyfile_path_of,
}
use decentralized_idp.Registration.Recoverable.{
  outcome, IsHeld, IsRecoverable, register-IsRecoverable,
}
use decentralized_idp.Tests.Serial.{serial, serial-IsCodec}
use decentralized_idp.Tests.Fixtures.{
  fixed_hashing, plain_aead, plain_aead-IsAead, plain_kem, plain_derivation, seven-IsPrime,
}
use decentralized_idp.Tests.Services.{node_of}

abbrev pub supply : Supply
supply = record {
  private_key = 3 ∷ [];
  public_key = 4 ∷ [];
  registration_nonce = 5 ∷ [];
  draw = λ k. k + 1;
  urandom = 6 ∷ [];
  store_nonce = λ i. [];
  registered_at = 1;
  timestamp = 2;
  keyfile_salt = [];
  keyfile_nonce = [];
}

abbrev pub before : State
before = record {
  nodes = node_of 1 ∷ node_of 2 ∷ node_of 3 ∷ node_of 4 ∷ node_of 5 ∷ [];
  ledger = empty;
  files = [];
}

abbrev pub registered : Registered
registered = record {
  did = did_of fixed_hashing (4 ∷ []);
  public_key = hex (4 ∷ []);
  keyfile_path = keyfile_path_of (did_of fixed_hashing (4 ∷ []));
}

abbrev pub after : Result Registered × State
after =
    outcome fixed_hashing plain_aead plain_kem plain_derivation serial true 7 (codes "pw") supply
      before

pub after_lem : after.0 ≡ ok registered
unfolding register share_out prepare derive_identity_secret from_bytes from_bytes_loop
    generate_shares share_loop share_value random_coeffs generate_commitments commitment_loop
    commitment to_bytes record_registration write_entry commitment_hash distribute give_share
    aesgcm_key store_share
after_lem = refl

abbrev held : List Share
held = (1, 4) ∷ (2, 1) ∷ (5, 0) ∷ []

abbrev nth : ℕ → List Node → Node
nth i [] = node_of 0
nth zero (n ∷ nodes) = n
nth (suc i) (n ∷ nodes) = nth i nodes

held_lem : All (IsHeld fixed_hashing plain_aead registered.did after.1.nodes) held
unfolding register share_out prepare derive_identity_secret from_bytes from_bytes_loop
    generate_shares share_loop share_value random_coeffs generate_commitments commitment_loop
    commitment to_bytes record_registration write_entry commitment_hash distribute give_share
    aesgcm_key store_share get_share open_row check_hash lookup insert bytes_eq big_endian
    share_hash_of hex hex_digit did_of
held_lem = (
  (nth 0 after.1.nodes, inl refl, refl),
  (
    (nth 1 after.1.nodes, inr (inl refl), refl),
    ((nth 4 after.1.nodes, inr (inr (inr (inr (inl refl)))), refl), tt),
  ),
)

register-IsRecoverable_example :
    IsRecoverable fixed_hashing plain_aead plain_kem plain_derivation serial true 7
      (codes "pw")
      supply
      registered
      after.1
      held
register-IsRecoverable_example =
    register-IsRecoverable fixed_hashing plain_aead plain_kem plain_derivation serial true 7
      seven-IsPrime (omega arith) plain_aead-IsAead serial-IsCodec (codes "pw") supply before
      registered held (ground arith) after_lem held_lem (ground arith) (omega arith)
