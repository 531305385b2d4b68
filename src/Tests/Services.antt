-- ===== src/Tests/Services.antt =====
-- ledger/, authentication/ and registration/ on concrete inputs.
use decentralized_idp.Prelude.{
  ℕ, ◌+◌, ◌*◌, ◌≡◌, refl, ap, List, [], ◌∷◌, ◌++◌, arith, ok, length, true, false, none, some, ltb,
  if◌then◌else◌,
}
use decentralized_idp.Stdlib.Bytes.{codes, bytes_eq}
use decentralized_idp.Stdlib.Hex.{hex, hex_digit}
use decentralized_idp.Stdlib.Dict.{insert, erase, lookup}
use decentralized_idp.Stdlib.Json.{Fields, text, field, end, get_field}
use decentralized_idp.Crypto.{challenge_ttl_seconds}
use decentralized_idp.Ledger.{
  Entry, Ledger, Listed, get_all_entries, empty, append, verify_chain, new_row, get_public_key,
  get_commitment_hash, last_hash, last_hash_of, verify_loop, compute_hash,
}
use decentralized_idp.Authentication.Challenge.Board.{
  answers, board_answers, blank, answers-board_answers,
}
use decentralized_idp.Crypto.Sharing.{count_from}
use decentralized_idp.Ledger.Listing.{listed_ids, listed_hashes, hashes_of, get_all_entries-Built}
use decentralized_idp.Ledger.Chain.{Built, start, grow, verify_chain-Built}
use decentralized_idp.Ledger.Tamper.{
  SameRows, verify_chain_tamper_evident, verify_chain_moved_boundary,
}
use decentralized_idp.Ledger.Registry.{Written, append_all, lookups-append_register}
use decentralized_idp.Authentication.Challenge.{
  Manager, second, issue, consume, cleanup_expired, expired_ids, erase_all,
}
use decentralized_idp.Authentication.Challenge.SingleUse.{
  Action, issue_challenge, consume_challenge, clean_up, perform, perform_all, consume_once,
  consume-issue,
}
use decentralized_idp.Crypto.Lagrange.{Share}
use decentralized_idp.Node.Answers.{Node}
use decentralized_idp.Node.ShareStore.{store_share}
use decentralized_idp.Registration.{give_share, aesgcm_key, distribute}
use decentralized_idp.Registration.Distribution.{IsGiven, distribute-IsGiven}
use decentralized_idp.Stdlib.Bytes.{to_bytes}
use decentralized_idp.Tests.Serial.{serial, serial-IsCodec}
use decentralized_idp.Tests.Fixtures.{
  fixed_hashing, fixed_hashing-IsHashing, plain_aead, plain_aead-IsAead, plain_kem,
}

abbrev fields_a : Fields
fields_a =
    field (codes "public_key") (text (hex (1 ∷ 2 ∷ [])))
      (field (codes "commitment_hash") (text (codes "cc")) end)

abbrev ledger_a : Ledger
ledger_a = (append fixed_hashing serial (codes "DID_REGISTER") (codes "did:a") fields_a 5 empty).0

ledger_a-Built : Built fixed_hashing serial ledger_a
ledger_a-Built = grow (codes "DID_REGISTER") (codes "did:a") fields_a 5 start

ledger_a_verifies : verify_chain fixed_hashing serial ledger_a ≡ true
unfolding verify_chain verify_loop bytes_eq append new_row last_hash last_hash_of compute_hash hex
    hex_digit
ledger_a_verifies = refl

verify_chain-Built_example : verify_chain fixed_hashing serial ledger_a ≡ true
verify_chain-Built_example = verify_chain-Built ledger_a ledger_a-Built

verify_chain_tamper_evident_example :
    SameRows fixed_hashing serial ledger_a.entries ledger_a.entries
unfolding append
verify_chain_tamper_evident_example =
    verify_chain_tamper_evident fixed_hashing serial fixed_hashing-IsHashing ledger_a ledger_a
      ledger_a_verifies ledger_a_verifies refl (λ same. refl, tt) refl

abbrev row_a : Entry
row_a = new_row fixed_hashing serial (codes "AUTH") (codes "did:a") fields_a 5 empty

verify_chain_moved_boundary_example :
    verify_chain fixed_hashing serial (record {
      entries = [] ++ record row_a { entry_type = codes "AUTHdid"; did = codes ":a" } ∷ [];
      next_id = 2;
    })
    ≡ verify_chain fixed_hashing serial (record { entries = [] ++ row_a ∷ []; next_id = 2 })
verify_chain_moved_boundary_example =
    verify_chain_moved_boundary fixed_hashing serial [] [] row_a 2 (codes "AUTHdid") (codes ":a")
      (unfold new_row in refl)

abbrev login : Written
login = record { entry_type = codes "AUTH"; did = codes "did:a"; fields = end; timestamp = 9 }

lookups-append_register_example :
    (get_public_key serial (codes "did:a") (append_all fixed_hashing serial (login ∷ []) ledger_a)
      ≡ ok (some (1 ∷ 2 ∷ [])))
    × (get_commitment_hash serial
          (codes "did:a")
          (append_all fixed_hashing serial (login ∷ []) ledger_a)
        ≡ ok (some (codes "cc")))
unfolding bytes_eq get_field
lookups-append_register_example =
    lookups-append_register fixed_hashing serial serial-IsCodec (codes "did:a") fields_a 5 empty
      (login ∷ []) (1 ∷ 2 ∷ []) (codes "cc") (refl, tt) (ground arith) refl refl

abbrev pub manager : Manager
manager = (issue (7 ∷ []) (codes "c1") 100 (codes "did:a") []).0

consume_once_example :
    (consume 300 (codes "c1") (
      perform_all
        (issue_challenge (8 ∷ []) (codes "next") 200 (codes "did:a") ∷ clean_up 250 ∷ [])
        (consume 150 (codes "c1") manager).1)).0
    ≡ none
unfolding bytes_eq
consume_once_example =
    consume_once (codes "c1") 150 300
      (issue_challenge (8 ∷ []) (codes "next") 200 (codes "did:a") ∷ clean_up 250 ∷ []) manager
      (λ e. omega (arith, ap length e), tt)

consume-issue_example :
    (consume 150 (codes "c1") (issue (7 ∷ []) (codes "c1") 100 (codes "did:a") []).0).0
    ≡ (if ltb (100 + challenge_ttl_seconds * second) 150 then none else some (7 ∷ []))
consume-issue_example = consume-issue (7 ∷ []) (codes "c1") 100 150 (codes "did:a") []

abbrev pub node_of : ℕ → Node
node_of id = record {
  node_id = id;
  online = true;
  byzantine = false;
  share_store = record { aes_key = []; shares = [] };
  kem_public_key = [];
}

abbrev two_shares : List Share
two_shares = (1, 2) ∷ (2, 6) ∷ []

abbrev two_nodes : List Node
two_nodes = node_of 1 ∷ node_of 2 ∷ []

distribute-IsGiven_example :
    IsGiven fixed_hashing plain_aead
      (codes "did:a")
      two_shares
      0
      two_nodes
      (distribute fixed_hashing plain_aead plain_kem
        (λ i. [])
        (codes "did:a")
        two_shares
        ([] ∷ [] ∷ [])
        0
        two_nodes).0
distribute-IsGiven_example =
    distribute-IsGiven fixed_hashing plain_aead plain_aead-IsAead plain_kem (λ i. [])
      (codes "did:a") two_shares ([] ∷ [] ∷ []) 0 two_nodes
      (unfold distribute give_share aesgcm_key to_bytes store_share in refl)

get_all_entries-Built_example :
    (listed : List Listed) × (get_all_entries serial ledger_a ≡ ok listed)
    × (listed_ids listed ≡ count_from 1 (length ledger_a.entries))
    × (listed_hashes listed ≡ hashes_of ledger_a.entries)
get_all_entries-Built_example = get_all_entries-Built ledger_a serial-IsCodec ledger_a-Built

abbrev trace : List Action
trace =
    issue_challenge (8 ∷ []) (codes "c1") 100 (codes "did:a")
    ∷ consume_challenge 200 (codes "c1")
    ∷ consume_challenge 300 (codes "c1")
    ∷ issue_challenge (9 ∷ []) (codes "c2") 400 (codes "did:a")
    ∷ clean_up 40_000_000
    ∷ consume_challenge 50_000_000 (codes "c2")
    ∷ []

answers-board_answers_example : answers trace [] ≡ board_answers trace blank
answers-board_answers_example = answers-board_answers trace (ground arith)

-- The first use alone succeeds.
trace_answers : answers trace [] ≡ some (8 ∷ []) ∷ none ∷ none ∷ []
unfolding answers perform issue consume cleanup_expired expired_ids erase_all insert erase lookup
    bytes_eq
trace_answers = refl
