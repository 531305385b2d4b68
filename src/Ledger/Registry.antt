-- ===== src/Ledger/Registry.antt =====
-- ledger/ledger.py: the lookups read the latest registration.
use decentralized_idp.Prelude.{
  ℕ, ◌<◌, ◌≡◌, refl, ap, ◌∙◌, List, [], ◌∷◌, ◌++◌, Bool, true, false, ◌&&◌, Option, none, some, All,
  if◌then◌else◌, ok,
}
use decentralized_idp.Stdlib.Bytes.{Bytes, Str, codes, bytes_eq, bytes_eq_refl}
use decentralized_idp.Stdlib.Hex.{hex, from_hex-hex}
use decentralized_idp.Stdlib.Json.{
  Json, Fields, object, text, get_field, subscript, as_text, is_truthy, end, field, Codec, IsCodec,
}
use decentralized_idp.External.{Hashing}
use decentralized_idp.Ledger.{
  Entry, Ledger, append, new_row, last_register, load_entry, get_register_data, get_commitment_hash,
  get_public_key,
}

-- The row registers the DID.
abbrev pub registers : Str → Str → Str → Bool
registers entry_type did wanted = bytes_eq entry_type (codes "DID_REGISTER") && bytes_eq did wanted

last_register-append :
    (wanted : Str) (found : Option Entry) (rows : List Entry) (e : Entry)
    → last_register wanted found (rows ++ e ∷ [])
      ≡ (if registers e.entry_type e.did wanted then some e else last_register wanted found rows)
unfolding last_register
last_register-append wanted found [] e = refl
last_register-append wanted found (r ∷ rows) e =
    last_register-append wanted (if registers r.entry_type r.did wanted then some r else found) rows
      e

module _ (hashing : Hashing) (codec : Codec) where
  last_register-row :
      (entry_type did wanted : Str) (fields : Fields) (timestamp : ℕ) (l : Ledger)
      → last_register wanted none (append hashing codec entry_type did fields timestamp l).0.entries
        ≡ (if registers entry_type did wanted
            then some (new_row hashing codec entry_type did fields timestamp l)
            else last_register wanted none l.entries)
  unfolding append new_row
  last_register-row entry_type did wanted fields timestamp l =
      last_register-append wanted none l.entries
        (new_row hashing codec entry_type did fields timestamp l)

  -- A row that does not register the DID changes no lookup for it.
  pub get_register_data-append_other :
      (entry_type did wanted : Str) (fields : Fields) (timestamp : ℕ) (l : Ledger)
      → registers entry_type did wanted ≡ false
      → get_register_data codec wanted (append hashing codec entry_type did fields timestamp l).0
        ≡ get_register_data codec wanted l
  unfolding get_register_data
  get_register_data-append_other entry_type did wanted fields timestamp l h =
      ap (load_entry codec) (
        last_register-row entry_type did wanted fields timestamp l
        ∙ ap
            (λ b.
              if b
              then some (new_row hashing codec entry_type did fields timestamp l)
              else last_register wanted none l.entries)
            h)

  -- A registration is what the lookups of its DID read from then on.
  pub get_register_data-append_self :
      IsCodec codec
      → (did : Str) (fields : Fields) (timestamp : ℕ) (l : Ledger)
      → (gs : Fields) × (get_register_data codec did
            (append hashing codec (codes "DID_REGISTER") did fields timestamp l).0
          ≡ ok (some (object gs)))
        × ((k : Str) → get_field k gs ≡ get_field k fields)
  unfolding get_register_data
  get_register_data-append_self law did fields timestamp l =
      let row = new_row hashing codec (codes "DID_REGISTER") did fields timestamp l in
      let read = law.loads-dumps fields in
      let same : registers (codes "DID_REGISTER") did did ≡ true =
        rw (bytes_eq_refl (codes "DID_REGISTER"), bytes_eq_refl did) refl in
      (
        read.0,
        ap (load_entry codec) (
              last_register-row (codes "DID_REGISTER") did did fields timestamp l
              ∙ ap (λ b. if b then some row else last_register did none l.entries) same)
            ∙ row_data did fields timestamp l read.1,
        read.2,
      )
    where
      row_data :
          (did' : Str) (fields' : Fields) (timestamp' : ℕ) (l' : Ledger) {gs : Fields}
          → codec.loads (codec.dumps (object fields')) ≡ ok (object gs)
          → load_entry codec
              (some (new_row hashing codec (codes "DID_REGISTER") did' fields' timestamp' l'))
            ≡ ok (some (object gs))
      row_data did' fields' timestamp' l' e = unfold new_row in rw e refl

-- A row to be appended.
pub record Written : Type 0 where
  pub entry_type : Str
  pub did : Str
  pub fields : Fields
  pub timestamp : ℕ

module _ (hashing : Hashing) (codec : Codec) where
  abbrev pub append_all : List Written → Ledger → Ledger
  append_all [] l = l
  append_all (w ∷ ws) l =
      append_all ws (append hashing codec w.entry_type w.did w.fields w.timestamp l).0

  get_register_data-append_all :
      (did : Str) (later : List Written) (l : Ledger)
      → All (λ w. registers w.entry_type w.did did ≡ false) later
      → get_register_data codec did (append_all later l) ≡ get_register_data codec did l
  get_register_data-append_all did [] l h = refl
  get_register_data-append_all did (w ∷ ws) l h =
      get_register_data-append_all did ws
        (append hashing codec w.entry_type w.did w.fields w.timestamp l).0 h.1
      ∙ get_register_data-append_other hashing codec w.entry_type w.did did w.fields w.timestamp l
          h.0

  is_truthy_of_field :
      (k : Str) (fs : Fields) (v : Json) → get_field k fs ≡ some v → is_truthy (object fs) ≡ true
  unfolding is_truthy get_field
  is_truthy_of_field k end v e = cc
  is_truthy_of_field k (field j w rest) v e = refl

  -- After a registration the ledger returns its public key and commitment hash for the DID, whatever
  -- rows follow, as long as none of them registers the DID again.
  pub lookups-append_register :
      IsCodec codec
      → (did : Str) (fields : Fields) (timestamp : ℕ) (l : Ledger) (later : List Written)
        (public_key : Bytes) (commitment : Str)
      → All (λ w. registers w.entry_type w.did did ≡ false) later
      → All (λ b. b < 256) public_key
      → get_field (codes "public_key") fields ≡ some (text (hex public_key))
      → get_field (codes "commitment_hash") fields ≡ some (text commitment)
      → let l' =
          append_all later (append hashing codec (codes "DID_REGISTER") did fields timestamp l).0 in
        (get_public_key codec did l' ≡ ok (some public_key))
        × (get_commitment_hash codec did l' ≡ ok (some commitment))
  unfolding get_public_key get_commitment_hash subscript as_text
  lookups-append_register law did fields timestamp l later public_key commitment others bytes key
        hash =
      let stored = get_register_data-append_self hashing codec law did fields timestamp l in
      let data' : get_register_data codec did (
            append_all later (append hashing codec (codes "DID_REGISTER") did fields timestamp l).0)
          ≡ ok (some (object stored.0)) =
        get_register_data-append_all did later _ others ∙ stored.1 in
      let k = stored.2 (codes "public_key") ∙ key in
      let h = stored.2 (codes "commitment_hash") ∙ hash in
      let full = is_truthy_of_field (codes "public_key") stored.0 (text (hex public_key)) k in
      (rw (data', full, k, from_hex-hex public_key bytes) refl, rw (data', full, h) refl)
