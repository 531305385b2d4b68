-- ===== src/Tests/Keys.antt =====
-- crypto/pqc.py and the key files on concrete inputs.
use decentralized_idp.Prelude.{
  ◌≡◌, ◌<◌, refl, sym, ap, subst, ◌∙◌, [], ◌∷◌, ◌++◌, true, false, Result, ok, err, value_error,
  ok_injective, All, Bool-cases, inl, inr, arith, if◌then◌else◌,
}
use decentralized_idp.Stdlib.Bytes.{
  Bytes, codes, eq_of_bytes_eq, bytes_eq, bytes_eq_refl, decimal, decimal_loop,
}
use decentralized_idp.Stdlib.Dict.{lookup, insert}
use decentralized_idp.Stdlib.Files.{Files, join, load_or_make, use_pair}
use decentralized_idp.Crypto.Pqc.{Oqs, Ed25519, IsSignature, generate_keypair, kem_generate_keypair}
use decentralized_idp.Node.KemKeys.{node_dir, init_kem_keys, init_kem_keys_again}
use decentralized_idp.Authentication.SystemKeys.{init_system_keys, init_system_keys_again}

-- The public key has one byte more than the secret one, and only the secret key 7 signs.
abbrev pub sign_with : Bytes → Result Bytes
sign_with key = if bytes_eq key (7 ∷ []) then ok (1 ∷ 7 ∷ []) else err value_error

abbrev pub keyed_oqs : Oqs
keyed_oqs = record {
  signature_generate_keypair = λ seed. ok (0 ∷ seed);
  signature_export_secret_key = λ seed. ok seed;
  sign = λ private_key message. sign_with private_key;
  verify = λ message signature public_key. ok (bytes_eq public_key (0 ∷ 7 ∷ []));
  kem_generate_keypair = λ seed. ok (0 ∷ seed);
  kem_export_secret_key = λ seed. ok seed;
  encap_secret = λ public_key coins. ok (coins, public_key ++ coins);
  decap_secret = λ private_key ciphertext. ok (0 ∷ private_key ++ ciphertext);
}

abbrev pub keyed_ed : Ed25519
keyed_ed = record {
  private_bytes = λ seed. seed;
  public_bytes = λ seed. 0 ∷ seed;
  sign = λ private_key message. ok (1 ∷ []);
  verify = λ public_key signature message. ok tt;
}

sign_with_inv :
    (key signature : Bytes)
    → sign_with key ≡ ok signature
    → (key ≡ 7 ∷ []) × All (λ c. c < 256) signature
sign_with_inv key signature signed = elim (Bool-cases (bytes_eq key (7 ∷ []))) [
  | inl seven ↦ (
    eq_of_bytes_eq key (7 ∷ []) seven,
    subst (All (λ c. c < 256)) (ok_injective (rw seven at signed)) (ground arith),
  )
  | inr other ↦ absurd (cc (rw other at signed))
]

pub keyed-IsSignature : IsSignature keyed_oqs keyed_ed
keyed-IsSignature = record {
  oqs_verify-sign = λ seed private_key public_key message signature made exported signed.
      let inv = sign_with_inv private_key signature signed in
      let seven : seed ≡ 7 ∷ [] = ok_injective exported ∙ inv.0 in
      (
        ap (λ k. ok (bytes_eq k (0 ∷ 7 ∷ []))) (sym (ok_injective made) ∙ ap (λ u. 0 ∷ u) seven)
            ∙ ap ok (bytes_eq_refl (0 ∷ 7 ∷ [])),
        inv.1,
      );
  ed_verify-sign = λ seed message signature signed.
      (refl, subst (All (λ c. c < 256)) (ok_injective signed) (ground arith));
}

abbrev kem_files : Files
kem_files = (codes "data/node_2/kem.key", 7 ∷ []) ∷ (codes "data/node_2/kem.pub", 7 ∷ []) ∷ []

made_kem_keys :
    init_kem_keys false keyed_oqs keyed_ed (codes "data") 2 (7 ∷ []) []
    ≡ ok ((7 ∷ [], 7 ∷ []), kem_files)
unfolding init_kem_keys node_dir join decimal decimal_loop load_or_make use_pair lookup insert
    bytes_eq kem_generate_keypair
made_kem_keys = refl

same_kem_keys :
    init_kem_keys false keyed_oqs keyed_ed (codes "data") 2 (8 ∷ []) kem_files
    ≡ ok ((7 ∷ [], 7 ∷ []), kem_files)
same_kem_keys =
    init_kem_keys_again false keyed_oqs keyed_ed (codes "data") 2 (7 ∷ []) (8 ∷ []) [] kem_files
      (7 ∷ [], 7 ∷ []) made_kem_keys

abbrev pub system_files : Files
system_files = (codes "data/system.key", 7 ∷ []) ∷ (codes "data/system.pub", 0 ∷ 7 ∷ []) ∷ []

pub made_system_keys :
    init_system_keys true keyed_oqs keyed_ed (codes "data") (7 ∷ []) []
    ≡ ok ((7 ∷ [], 0 ∷ 7 ∷ []), system_files)
unfolding init_system_keys join load_or_make use_pair lookup insert bytes_eq generate_keypair
made_system_keys = refl

init_system_keys_again_example :
    init_system_keys true keyed_oqs keyed_ed (codes "data") (8 ∷ []) system_files
    ≡ ok ((7 ∷ [], 0 ∷ 7 ∷ []), system_files)
init_system_keys_again_example =
    init_system_keys_again true keyed_oqs keyed_ed (codes "data") (7 ∷ []) (8 ∷ []) [] system_files
      (7 ∷ [], 0 ∷ 7 ∷ []) made_system_keys
