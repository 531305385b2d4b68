-- ===== src/Node/ShareStore.antt =====
-- node/share_store.py: the encrypted store of one node. The table `shares` is held by its primary
-- key; the column registered_at, which nothing reads, is left out. Times and random bytes are passed in.
pub mod RoundTrip
use decentralized_idp.Prelude.{
  ℕ, List, [], ◌∷◌, ◌++◌, Bool, true, false, not, Option, none, some, Result, ok, err, value_error,
  invalid_tag, ◌>>=◌, if◌then◌else◌,
}
use decentralized_idp.Stdlib.Bytes.{Bytes, Str, bytes_eq, to_bytes, from_bytes, decimal}
use decentralized_idp.Stdlib.Hex.{hex}
use decentralized_idp.Stdlib.Dict.{Dict, lookup, insert, erase}
use decentralized_idp.External.{Hashing, Aead}
use decentralized_idp.Crypto.Lagrange.{Share}

pub record Row : Type 0 where
  pub x_coord : ℕ
  pub y_coord_encrypted : Bytes
  pub aes_nonce : Bytes
  pub share_hash : Str
  pub feldman_commitment : Option Bytes

pub record ShareStore : Type 0 where
  pub aes_key : Bytes
  pub shares : Dict Row

-- The key that `__init__` takes: the stored one, or a fresh one, which it then stores.
unfoldable pub open_key : Option Bytes → Bytes → Bytes
open_key none token = token
open_key (some key) token = key

-- `hashlib.sha3_256((str(x) + str(y)).encode()).hexdigest()`
unfoldable pub share_hash_of : Hashing → ℕ → ℕ → Str
share_hash_of hashing x y = hex (hashing.sha3_256 (decimal x ++ decimal y))

-- The integrity check that ends `get_share`.
unfoldable pub check_hash : Hashing → Row → ℕ → Result Share
check_hash hashing row y =
    if not (bytes_eq (share_hash_of hashing row.x_coord y) row.share_hash)
    then err value_error
    else ok (row.x_coord, y)

module _ (hashing : Hashing) (aead : Aead) where
  -- `INSERT OR REPLACE`; a y too large for 32 bytes raises before the table is touched.
  unfoldable pub store_share : Bytes → Str → ℕ → ℕ → Option Bytes → ShareStore → Result ShareStore
  store_share nonce did x y feldman_commitment s = do
    y_bytes ← to_bytes y 32
    let row : Row = record {
      x_coord = x;
      y_coord_encrypted = aead.encrypt s.aes_key nonce y_bytes did;
      aes_nonce = nonce;
      share_hash = share_hash_of hashing x y;
      feldman_commitment = feldman_commitment;
    }
    ok (record s { shares = insert did row s.shares })

  abbrev pub or_invalid_tag : Option Bytes → Result Bytes
  or_invalid_tag none = err invalid_tag
  or_invalid_tag (some text) = ok text

  -- The rest of `get_share` once the row has been fetched.
  unfoldable pub open_row : Bytes → Str → Row → Result Share
  open_row key did row = do
    y_bytes ← or_invalid_tag (aead.decrypt key row.aes_nonce row.y_coord_encrypted did)
    let y = from_bytes y_bytes
    check_hash hashing row y

  abbrev pub open_found : Bytes → Str → Option Row → Result (Option Share)
  open_found key did none = ok none
  open_found key did (some row) = do share ← open_row key did row; ok (some share)

  unfoldable pub get_share : Str → ShareStore → Result (Option Share)
  get_share did s = open_found s.aes_key did (lookup did s.shares)

unfoldable pub delete_share : Str → ShareStore → ShareStore
delete_share did s = record s { shares = erase did s.shares }

-- `row is not None`
abbrev pub is_found : Option Row → Bool
is_found none = false
is_found (some row) = true

unfoldable pub has_share : Str → ShareStore → Bool
has_share did s = is_found (lookup did s.shares)
