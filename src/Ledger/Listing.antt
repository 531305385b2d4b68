-- ===== src/Ledger/Listing.antt =====
-- ledger/ledger.py: the listing of all rows.
use mathlib.Core.List.{map-append}
use decentralized_idp.Prelude.{
  ℕ, zero, suc, ◌+◌, ◌≡◌, refl, sym, ap, ap₂, ◌∙◌, List, [], ◌∷◌, ◌++◌, map, ok, ok_injective,
  >>=-eq-ok, arith, length, length-append,
}
use decentralized_idp.Stdlib.Json.{Json, object, Fields, Codec, IsCodec}
use decentralized_idp.Stdlib.Bytes.{Str}
use decentralized_idp.External.{Hashing}
use decentralized_idp.Ledger.{
  Entry, Ledger, Listed, listed_row, new_row, append, list_entries, get_all_entries,
}
use decentralized_idp.Ledger.Chain.{Built, start, grow}
use decentralized_idp.Crypto.Sharing.{count_from}

abbrev pub listed_ids : List Listed → List ℕ
listed_ids [] = []
listed_ids (e ∷ rest) = e.id ∷ listed_ids rest

count_from-append : (i n : ℕ) → count_from i n ++ (i + n) ∷ [] ≡ count_from i (suc n)
count_from-append i zero = ap (λ u. u ∷ []) (omega arith)
count_from-append i (suc n) =
    ap (λ l. i ∷ l)
      (ap (λ u. count_from (suc i) n ++ u ∷ []) (omega arith) ∙ count_from-append (suc i) n)

listed_ids-append :
    (xs : List Listed) (e : Listed) → listed_ids (xs ++ e ∷ []) ≡ listed_ids xs ++ e.id ∷ []
listed_ids-append [] e = refl
listed_ids-append (x ∷ xs) e = ap (λ l. x.id ∷ l) (listed_ids-append xs e)

-- A row whose text reads back is listed after the others.
list_entries-append :
    (codec : Codec) (rows : List Entry) (listed : List Listed) (e : Entry) (contents : Json)
    → list_entries codec rows ≡ ok listed
    → codec.loads e.data_json ≡ ok contents
    → list_entries codec (rows ++ e ∷ []) ≡ ok (listed ++ listed_row contents e ∷ [])
unfolding list_entries
list_entries-append codec [] listed e contents before loaded =
    rw loaded (ap (λ l. ok (l ++ listed_row contents e ∷ [])) (ok_injective before))
list_entries-append codec (r ∷ rows) listed e contents before loaded =
    let a = >>=-eq-ok (codec.loads r.data_json) _ before in
    let b = >>=-eq-ok (list_entries codec rows) _ a.2 in
    rw (a.1, list_entries-append codec rows b.0 e contents b.1 loaded)
      (ap (λ l. ok (l ++ listed_row contents e ∷ [])) (ok_injective b.2))

abbrev pub hashes_of : List Entry → List Str
hashes_of rows = map (λ e. e.entry_hash) rows

abbrev pub listed_hashes : List Listed → List Str
listed_hashes listed = map (λ e. e.entry_hash) listed

-- What the listing of a ledger says, and the id that comes next.
record IsListed (codec : Codec) (l : Ledger) : Type 0 where
  listed : List Listed
  returned : get_all_entries codec l ≡ ok listed
  ids : listed_ids listed ≡ count_from 1 (length l.entries)
  hashes : listed_hashes listed ≡ hashes_of l.entries
  next : l.next_id ≡ 1 + length l.entries

append-IsListed :
    (hashing : Hashing) (codec : Codec) (entry_type did : Str) (fields : Fields) (timestamp : ℕ)
    (l : Ledger)
    → IsCodec codec
    → IsListed codec l
    → IsListed codec (append hashing codec entry_type did fields timestamp l).0
unfolding append get_all_entries new_row
append-IsListed hashing codec entry_type did fields timestamp l law h =
    let row = new_row hashing codec entry_type did fields timestamp l in
    let read = law.loads-dumps fields in
    let longer : length (l.entries ++ row ∷ []) ≡ suc (length l.entries) =
      length-append l.entries (row ∷ []) ∙ omega arith in
    record {
      listed = h.listed ++ listed_row (object read.0) row ∷ [];
      returned = list_entries-append codec l.entries h.listed row (object read.0) h.returned read.1;
      ids =
          listed_ids-append h.listed (listed_row (object read.0) row)
          ∙ ap₂ (λ ids id. ids ++ id ∷ []) h.ids h.next
          ∙ count_from-append 1 (length l.entries)
          ∙ ap (count_from 1) (sym longer);
      hashes =
          map-append (λ e. e.entry_hash) h.listed (listed_row (object read.0) row ∷ [])
          ∙ ap (λ hs. hs ++ row.entry_hash ∷ []) h.hashes
          ∙ sym (map-append (λ e. e.entry_hash) l.entries (row ∷ []));
      next = omega (arith, h.next, longer);
    }

Built-IsListed :
    {hashing : Hashing} {codec : Codec} (l : Ledger)
    → IsCodec codec
    → Built hashing codec l
    → IsListed codec l
Built-IsListed {hashing} {codec} _ law start =
    unfold get_all_entries list_entries in
    record { listed = []; returned = refl; ids = refl; hashes = refl; next = omega arith }
Built-IsListed {hashing} {codec} _ law (grow {l = l} entry_type did fields timestamp b) =
    append-IsListed hashing codec entry_type did fields timestamp l law (Built-IsListed l law b)

-- A ledger that appends alone have built is listed without an exception: all its rows in their order,
-- with their hashes and with ids that count up from 1.
pub get_all_entries-Built :
    {hashing : Hashing} {codec : Codec} (l : Ledger)
    → IsCodec codec
    → Built hashing codec l
    → (listed : List Listed) × (get_all_entries codec l ≡ ok listed)
      × (listed_ids listed ≡ count_from 1 (length l.entries))
      × (listed_hashes listed ≡ hashes_of l.entries)
get_all_entries-Built l law b =
    let h = Built-IsListed l law b in (h.listed, h.returned, h.ids, h.hashes)
