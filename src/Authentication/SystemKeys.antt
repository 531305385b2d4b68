-- ===== src/Authentication/SystemKeys.antt =====
-- authentication/iat.py: the key pair that signs the tokens, kept in two files of the data directory.
pub mod Restart
use decentralized_idp.Prelude.{◌≡◌, refl, Bool, Result, ok}
use decentralized_idp.Stdlib.Bytes.{Bytes, Str, codes, bytes_eq}
use decentralized_idp.Stdlib.Files.{Files, join, join-ne, load_or_make, load_or_make_again}
use decentralized_idp.Crypto.Pqc.{Oqs, Ed25519, generate_keypair}

module _ (pqc_available : Bool) (oqs : Oqs) (ed : Ed25519) where
  -- `init_system_keys`, by the pair that it sets and the files that it leaves.
  unfoldable pub init_system_keys : Str → Bytes → Files → Result ((Bytes × Bytes) × Files)
  init_system_keys data_dir seed files =
      load_or_make (join data_dir (codes "system.key")) (join data_dir (codes "system.pub"))
        (generate_keypair pqc_available oqs ed seed) files

  -- A system that starts again in its directory has the key pair that it had, and writes nothing.
  pub init_system_keys_again :
      (data_dir : Str) (seed seed' : Bytes) (files files' : Files) (pair : Bytes × Bytes)
      → init_system_keys data_dir seed files ≡ ok (pair, files')
      → init_system_keys data_dir seed' files' ≡ ok (pair, files')
  unfolding init_system_keys
  init_system_keys_again data_dir seed seed' files files' pair made =
      load_or_make_again (join data_dir (codes "system.key")) (join data_dir (codes "system.pub"))
        (generate_keypair pqc_available oqs ed seed) (generate_keypair pqc_available oqs ed seed')
        files files' pair
        (join-ne data_dir (codes "system.pub") (codes "system.key") (unfold bytes_eq in refl)) made
