-- ===== src/Node/KemKeys.antt =====
-- node/node.py: the key pair of a node for the key encapsulation, kept in two files of its directory.
use decentralized_idp.Prelude.{ℕ, ◌≡◌, refl, ◌++◌, Bool, Result, ok}
use decentralized_idp.Stdlib.Bytes.{Bytes, Str, codes, bytes_eq, decimal}
use decentralized_idp.Stdlib.Files.{Files, join, join-ne, load_or_make, load_or_make_again}
use decentralized_idp.Crypto.Pqc.{Oqs, Ed25519, kem_generate_keypair}

-- `os.path.join(data_dir, f"node_{self.node_id}")`
unfoldable pub node_dir : Str → ℕ → Str
node_dir data_dir node_id = join data_dir (codes "node_" ++ decimal node_id)

module _ (pqc_available : Bool) (oqs : Oqs) (ed : Ed25519) where
  -- `_init_kem_keys`, by the pair that it sets and the files that it leaves.
  unfoldable pub init_kem_keys : Str → ℕ → Bytes → Files → Result ((Bytes × Bytes) × Files)
  init_kem_keys data_dir node_id seed files =
      let dir = node_dir data_dir node_id in
      load_or_make (join dir (codes "kem.key")) (join dir (codes "kem.pub"))
        (kem_generate_keypair pqc_available oqs ed seed) files

  -- A node that starts again in its directory has the key pair that it had, and writes nothing.
  pub init_kem_keys_again :
      (data_dir : Str) (node_id : ℕ) (seed seed' : Bytes) (files files' : Files)
      (pair : Bytes × Bytes)
      → init_kem_keys data_dir node_id seed files ≡ ok (pair, files')
      → init_kem_keys data_dir node_id seed' files' ≡ ok (pair, files')
  unfolding init_kem_keys
  init_kem_keys_again data_dir node_id seed seed' files files' pair made =
      let dir = node_dir data_dir node_id in
      load_or_make_again (join dir (codes "kem.key")) (join dir (codes "kem.pub"))
        (kem_generate_keypair pqc_available oqs ed seed)
        (kem_generate_keypair pqc_available oqs ed seed') files files' pair
        (join-ne dir (codes "kem.pub") (codes "kem.key") (unfold bytes_eq in refl)) made
