-- ===== src/Registration.antt =====
-- registration/register.py: the registration flow.
pub mod Distribution
pub mod Recoverable
pub mod Readiness
use decentralized_idp.Prelude.{
  ℕ, zero, suc, ◌+◌, ◌-◌, List, [], ◌∷◌, ◌++◌, map, Bool, ◌&&◌, Option, none, some, Result, ok, err,
  index_error, assertion_error, value_error, length, ◌==◌, ◌||◌, ◌>>=◌, leb, if◌then◌else◌, take,
  get_elem?,
}
use decentralized_idp.Stdlib.Bytes.{Bytes, Str, codes, to_bytes}
use decentralized_idp.Stdlib.Hex.{hex}
use decentralized_idp.Stdlib.Dict.{Dict, insert}
use decentralized_idp.Stdlib.Json.{
  Json, num, text, array, Items, stop, item, Fields, end, field, Codec,
}
use decentralized_idp.External.{Hashing, Aead, Derivation, Kem}
use decentralized_idp.Crypto.{threshold, n_nodes}
use decentralized_idp.Crypto.Lagrange.{Share}
use decentralized_idp.Crypto.Sss.{generate_shares}
use decentralized_idp.Crypto.Hkdf.{derive_identity_secret, commitment_hash}
use decentralized_idp.Crypto.Feldman.{generate_commitments}
use decentralized_idp.Crypto.Keyfile.{save_keyfile}
use decentralized_idp.Node.ShareStore.{store_share}
use decentralized_idp.Node.Answers.{Node}
use decentralized_idp.Ledger.{Ledger, append}

-- What the registration changes: the nodes' stores, the ledger and the user's files.
pub record State : Type 0 where
  pub nodes : List Node
  pub ledger : Ledger
  pub files : Dict Str

-- What the calls of one registration to `generate_keypair`, `secrets`, `os.urandom` and the clock
-- return; the random bytes of the i-th node's round are given by i.
pub record Supply : Type 0 where
  pub private_key : Bytes
  pub public_key : Bytes
  pub registration_nonce : Bytes
  pub draw : ℕ → ℕ
  pub urandom : Bytes
  pub store_nonce : ℕ → Bytes
  pub registered_at : ℕ
  pub timestamp : ℕ
  pub keyfile_salt : Bytes
  pub keyfile_nonce : Bytes

pub record Registered : Type 0 where
  pub did : Str
  pub public_key : Str
  pub keyfile_path : Str

-- `xs[i]`, for i ≥ 0
abbrev pub at_index : {A : Type 0} → List A → ℕ → Result A
at_index [] i = err index_error
at_index (x ∷ xs) zero = ok x
at_index (x ∷ xs) (suc i) = at_index xs i

abbrev pub second_of : Share → ℕ
second_of s = s.1

abbrev pub hex_list : List Bytes → Items
hex_list [] = stop
hex_list (b ∷ bs) = item (text (hex b)) (hex_list bs)

-- `"did:decidp:" + hashlib.sha3_256(pub).hexdigest()[:16]`
unfoldable pub did_of : Hashing → Bytes → Str
did_of hashing public_key = codes "did:decidp:" ++ take 16 (hex (hashing.sha3_256 public_key))

-- `AESGCM(key)`, which raises unless the key has 16, 24 or 32 bytes.
unfoldable pub aesgcm_key : Bytes → Result Bytes
aesgcm_key key =
    if (length key == 16) || (length key == 24) || (length key == 32)
    then ok key
    else err value_error

module _ (hashing : Hashing) (aead : Aead) (kem : Kem) where
  -- One round of step 8, for the node at the 0-based index i. The encrypted y is made and dropped.
  unfoldable pub give_share : (ℕ → Bytes) → Str → List Share → List Bytes → ℕ → Node → Result Node
  give_share store_nonce did shares commitments i node = do
    share ← at_index shares i
    pair ← kem.encapsulate node.kem_public_key
    aes ← aesgcm_key pair.1
    y_bytes ← to_bytes share.1 32
    commitment ← at_index commitments i
    store ←
        store_share hashing aead (store_nonce i) did share.0 share.1 (some commitment)
          node.share_store
    ok (record node { share_store = store })

  -- Step 8: the nodes as they are when the loop ends or raises, and the exception if it raises.
  unfoldable pub distribute :
      (ℕ → Bytes) → Str → List Share → List Bytes → ℕ → List Node → List Node × Result (Unit {0})
  distribute store_nonce did shares commitments i [] = ([], ok tt)
  distribute store_nonce did shares commitments i (node ∷ rest) =
      elim (give_share store_nonce did shares commitments i node) [
        | ok given ↦
            let (others, outcome) = distribute store_nonce did shares commitments (suc i) rest in
            (given ∷ others, outcome)
        | err e ↦ (node ∷ rest, err e)
      ]

-- The entry of step 9.
unfoldable pub register_fields : Bytes → Str → Bytes → List Bytes → Bytes → ℕ → Fields
register_fields public_key commitment registration_nonce commitments salt registered_at =
    field (codes "public_key") (text (hex public_key)) (
      field (codes "commitment_hash") (text commitment) (
        field (codes "nonce") (text (hex registration_nonce)) (
          field (codes "feldman_commitments") (array (hex_list commitments)) (
            field (codes "feldman_salt") (text (hex salt))
              (field (codes "registered_at") (num registered_at) end)))))

unfoldable pub keyfile_path_of : Str → Str
keyfile_path_of did = codes "~/.decidp/" ++ (did ++ codes ".key")

module _ (hashing : Hashing) (aead : Aead) (kem : Kem) (derivation : Derivation) (codec : Codec)
    (pqc_available : Bool) (p : ℕ) where
  -- Steps 1 to 7: the secret, its shares, and the commitments with their salt.
  unfoldable pub prepare : Str → Supply → Result (ℕ × List Share × List Bytes × Bytes)
  prepare password s = do
    let secret = derive_identity_secret hashing p s.public_key s.registration_nonce password
    secret' ← if leb 1 secret && leb secret (p - 1) then ok secret else err assertion_error
    shares ← generate_shares s.draw secret' threshold n_nodes p
    committed ← generate_commitments hashing s.urandom (map second_of shares) none
    ok (secret', shares, committed.0, committed.1)

  -- Steps 9 to 12, once the secret is hashed. Zeroing the secret and the shares changes no result.
  unfoldable pub write_entry :
      Str → Supply → List Bytes → Bytes → State → Result Str → Result Registered × State
  write_entry password s commitments salt st (err e) = (err e, st)
  write_entry password s commitments salt st (ok commitment) =
      let did = did_of hashing s.public_key in
      let entry =
        register_fields s.public_key commitment s.registration_nonce commitments salt
          s.registered_at in
      let alg = if pqc_available then codes "ML-DSA-65" else codes "Ed25519" in
      let path = keyfile_path_of did in
      let contents =
        save_keyfile aead derivation codec s.keyfile_salt s.keyfile_nonce s.private_key s.public_key
          password alg in
      (
        ok (record { did = did; public_key = hex s.public_key; keyfile_path = path }),
        record st {
          ledger = (append hashing codec (codes "DID_REGISTER") did entry s.timestamp st.ledger).0;
          files = insert path contents st.files;
        },
      )

  -- Steps 9 to 12, unless the loop over the nodes raised.
  unfoldable pub record_registration :
      Str → Supply → ℕ → List Bytes → Bytes → State → Result (Unit {0}) → Result Registered × State
  record_registration password s secret commitments salt st (err e) = (err e, st)
  record_registration password s secret commitments salt st (ok done) =
      write_entry password s commitments salt st (commitment_hash hashing secret)

  -- Steps 8 to 12, unless one of the first seven raised.
  unfoldable pub share_out :
      Str
      → Supply
      → State
      → Result (ℕ × List Share × List Bytes × Bytes)
      → Result Registered × State
  share_out password s st (err e) = (err e, st)
  share_out password s st (ok (secret, shares, commitments, salt)) =
      let given =
        distribute hashing aead kem s.store_nonce (did_of hashing s.public_key) shares commitments 0
          st.nodes in
      record_registration password s secret commitments salt (record st { nodes = given.0 }) given.1

  -- `RegistrationService.register`
  unfoldable pub register : Str → Supply → State → Result Registered × State
  register password s st = share_out password s st (prepare password s)
