-- ===== src/Ledger.antt =====
-- ledger/ledger.py: the hash chain and its lookups. The table's rows are held in the order of their
-- ids, which AUTOINCREMENT hands out upwards; times are microseconds, passed in.
pub mod Chain
pub mod Tamper
pub mod Registry
pub mod Listing
use decentralized_idp.Prelude.{
  ℕ, zero, suc, ◌+◌, List, [], ◌∷◌, ◌++◌, Bool, true, false, ◌&&◌, Option, none, some, Result, ok,
  err, ◌>>=◌, if◌then◌else◌,
}
use decentralized_idp.Stdlib.Bytes.{Bytes, Str, codes, bytes_eq}
use decentralized_idp.Stdlib.Hex.{hex, from_hex}
use decentralized_idp.Stdlib.Json.{
  Json, Fields, object, is_truthy, subscript, as_text, hex_array, Codec,
}
use decentralized_idp.External.{Hashing}

pub record Entry : Type 0 where
  pub id : ℕ
  pub entry_type : Str
  pub did : Str
  pub data_json : Str
  pub timestamp : ℕ
  pub entry_hash : Str
  pub previous_hash : Str

-- The rows, and the id that the next one gets.
pub record Ledger : Type 0 where
  pub entries : List Entry
  pub next_id : ℕ

abbrev pub empty : Ledger
empty = record { entries = []; next_id = 1 }

abbrev pub zeros : ℕ → Str
zeros zero = []
zeros (suc n) = 48 ∷ zeros n

-- `"0" * 64`
abbrev pub genesis : Str
genesis = zeros 64

-- The hash of the last of the rows, or the given one where there is no row.
unfoldable pub last_hash_of : Str → List Entry → Str
last_hash_of h [] = h
last_hash_of h (e ∷ rest) = last_hash_of e.entry_hash rest

unfoldable pub last_hash : Ledger → Str
last_hash l = last_hash_of genesis l.entries

module _ (hashing : Hashing) (codec : Codec) where
  -- What the digest is taken of: the five texts one after another.
  unfoldable pub hash_input : Str → Str → Str → Str → ℕ → Bytes
  hash_input previous_hash entry_type did data_json timestamp =
      previous_hash ++ (entry_type ++ (did ++ (data_json ++ codec.repr_float timestamp)))

  unfoldable pub compute_hash : Str → Str → Str → Str → ℕ → Str
  compute_hash previous_hash entry_type did data_json timestamp =
      hex (hashing.sha3_256 (hash_input previous_hash entry_type did data_json timestamp))

  -- The row that `append` inserts.
  unfoldable pub new_row : Str → Str → Fields → ℕ → Ledger → Entry
  new_row entry_type did fields timestamp l =
      let data_json = codec.dumps (object fields) in
      let previous_hash = last_hash l in
      record {
        id = l.next_id;
        entry_type = entry_type;
        did = did;
        data_json = data_json;
        timestamp = timestamp;
        entry_hash = compute_hash previous_hash entry_type did data_json timestamp;
        previous_hash = previous_hash;
      }

  unfoldable pub append : Str → Str → Fields → ℕ → Ledger → Ledger × Str
  append entry_type did fields timestamp l =
      let row = new_row entry_type did fields timestamp l in
      (record l { entries = l.entries ++ row ∷ []; next_id = l.next_id + 1 }, row.entry_hash)

  -- The hash that the row should have.
  abbrev pub recomputed : Entry → Str
  recomputed e = compute_hash e.previous_hash e.entry_type e.did e.data_json e.timestamp

  -- `for row in rows`, with the hash that the next row has to name.
  unfoldable pub verify_loop : Str → List Entry → Bool
  verify_loop expected [] = true
  verify_loop expected (e ∷ rest) =
      let later = verify_loop e.entry_hash rest in
      if bytes_eq e.previous_hash expected
      then (if bytes_eq (recomputed e) e.entry_hash then later else false)
      else false

  unfoldable pub verify_chain : Ledger → Bool
  verify_chain l = verify_loop genesis l.entries

-- The last of the rows that register the DID.
unfoldable pub last_register : Str → Option Entry → List Entry → Option Entry
last_register did found [] = found
last_register did found (e ∷ rest) =
    last_register did
      (if bytes_eq e.entry_type (codes "DID_REGISTER") && bytes_eq e.did did then some e else found)
      rest

-- `read(data) if data else None`
abbrev pub if_truthy : {A : Type 0} → (Json → Result A) → Option Json → Result (Option A)
if_truthy read none = ok none
if_truthy read (some value) = if is_truthy value then (do r ← read value; ok (some r)) else ok none

-- `None` where there is no data, else `read(data)`
abbrev pub if_some : {A : Type 0} → (Json → Result A) → Option Json → Result (Option A)
if_some read none = ok none
if_some read (some value) = do r ← read value; ok (some r)

-- `bytes.fromhex(data[key])`
abbrev pub read_hex : Str → Json → Result Bytes
read_hex key value = do v ← subscript key value; s ← as_text v; from_hex s

module _ (codec : Codec) where
  abbrev pub load_entry : Option Entry → Result (Option Json)
  load_entry none = ok none
  load_entry (some e) = do value ← codec.loads e.data_json; ok (some value)

  unfoldable pub get_register_data : Str → Ledger → Result (Option Json)
  get_register_data did l = load_entry (last_register did none l.entries)

  unfoldable pub get_did_document : Str → Ledger → Result (Option Json)
  get_did_document did l = get_register_data did l

  -- A stored value that is no text, which the registration never writes, raises here and is returned
  -- by the code.
  unfoldable pub get_commitment_hash : Str → Ledger → Result (Option Str)
  get_commitment_hash did l = do
    found ← get_register_data did l
    if_truthy (λ value. do v ← subscript (codes "commitment_hash") value; as_text v) found

  unfoldable pub get_registration_nonce : Str → Ledger → Result (Option Bytes)
  get_registration_nonce did l = do
    found ← get_register_data did l
    if_truthy (read_hex (codes "nonce")) found

  unfoldable pub get_public_key : Str → Ledger → Result (Option Bytes)
  get_public_key did l = do
    found ← get_register_data did l
    if_truthy (read_hex (codes "public_key")) found

  unfoldable pub get_feldman_commitments : Str → Ledger → Result (Option (List Bytes))
  get_feldman_commitments did l = do
    found ← get_register_data did l
    if_some (λ value. do v ← subscript (codes "feldman_commitments") value; hex_array v) found

-- An element of the list that `get_all_entries` returns.
pub record Listed : Type 0 where
  pub id : ℕ
  pub entry_type : Str
  pub did : Str
  pub contents : Json
  pub timestamp : ℕ
  pub entry_hash : Str

abbrev pub listed_row : Json → Entry → Listed
listed_row contents e = record {
  id = e.id;
  entry_type = e.entry_type;
  did = e.did;
  contents = contents;
  timestamp = e.timestamp;
  entry_hash = e.entry_hash;
}

module _ (codec : Codec) where
  unfoldable pub list_entries : List Entry → Result (List Listed)
  list_entries [] = ok []
  list_entries (e ∷ rest) = do
    contents ← codec.loads e.data_json
    others ← list_entries rest
    ok (listed_row contents e ∷ others)

  unfoldable pub get_all_entries : Ledger → Result (List Listed)
  get_all_entries l = list_entries l.entries
