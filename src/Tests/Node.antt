-- ===== src/Tests/Node.antt =====
-- node/ on concrete inputs.
use decentralized_idp.Prelude.{
  ℕ, ◌*◌, ◌%◌, ◌≡◌, ◌≢◌, refl, List, [], ◌∷◌, arith, inl, inr, ok, length, false, none, some, All,
  Elem, take, if◌then◌else◌,
}
use decentralized_idp.Stdlib.Bytes.{
  codes, to_bytes, big_endian, bytes_eq, from_bytes, from_bytes_loop,
}
use decentralized_idp.Stdlib.Hex.{hex, hex_digit, unhex_digit, int_16, int_16_loop}
use decentralized_idp.Stdlib.Counter.{most_common, counter, count_up, greatest}
use decentralized_idp.Stdlib.Dict.{insert}
use decentralized_idp.Node.PartialProof.{
  Proof, compute_partial_proof, recover_secret_from_partial_proofs,
}
use decentralized_idp.Node.PartialProof.Recovery.{IsAnswer, recover_secret-compute_partial_proof}
use decentralized_idp.Node.Pbft.{
  init, run_pbft_round, try_commit, try_commit_on, commit, add_all, add_prepare_message,
  accepted_proofs,
}
use decentralized_idp.Node.Pbft.Safety.{DistinctIds, Agreed, run_pbft_round_safe}
use decentralized_idp.Node.Pbft.Liveness.{agreeing, run_pbft_round_live}
use decentralized_idp.Node.ShareStore.{
  ShareStore, Row, store_share, get_share, delete_share, has_share, share_hash_of,
}
use decentralized_idp.Node.ShareStore.RoundTrip.{get_share-store_share, get_share-delete_share}
use decentralized_idp.Tests.Fixtures.{
  fixed_hashing, fixed_hashing-IsHashing, plain_hashing, plain_aead, plain_aead-IsAead,
  seven-IsPrime,
}
use decentralized_idp.Tests.Crypto.{draw, five_shares, five_shares_lem}

-- The answers to the nonce 8 of the holders of the shares (2, 6), (4, 4) and (5, 5): H is 5.
abbrev pub answer : ℕ → ℕ → ℕ → Proof
answer id x y = record {
  node_id = id;
  x = x;
  partial_value = y * 5 % 7;
  h = 5;
  challenge_hash = hex (fixed_hashing.sha3_256 (8 ∷ []));
}

abbrev pub answers : List Proof
answers = answer 2 2 6 ∷ answer 4 4 4 ∷ answer 5 5 5 ∷ []

pub answers-IsAnswer : All (IsAnswer fixed_hashing 7 (8 ∷ []) five_shares) answers
unfolding compute_partial_proof int_16 hex int_16_loop unhex_digit hex_digit
answers-IsAnswer = (
  ((2, 6), inr (inl refl), refl),
  (
    ((4, 4), inr (inr (inr (inl refl))), refl),
    (((5, 5), inr (inr (inr (inr (inl refl)))), refl), tt),
  ),
)

pub unit : from_bytes (fixed_hashing.sha3_256 (8 ∷ [])) % 7 ≢ 0
unfolding from_bytes from_bytes_loop
unit = omega arith

recover_secret-compute_partial_proof_example : recover_secret_from_partial_proofs 7 answers ≡ ok 4
recover_secret-compute_partial_proof_example =
    recover_secret-compute_partial_proof fixed_hashing draw 4 3 5 7 five_shares (8 ∷ []) answers
      fixed_hashing-IsHashing seven-IsPrime (omega arith) five_shares_lem unit answers-IsAnswer
      (ground arith) (omega arith) (omega arith)

abbrev pub vote : ℕ → ℕ → ℕ → Proof
vote id h value = record {
  node_id = id;
  x = id;
  partial_value = value;
  h = h;
  challenge_hash = codes "ab";
}

abbrev pub three_votes : List Proof
three_votes = vote 2 5 2 ∷ vote 4 5 6 ∷ vote 5 5 4 ∷ []

-- A proof with another H, one with another hash, and a second proof from node 2 among the three.
abbrev votes : List Proof
votes =
    vote 1 6 3
    ∷ vote 2 5 2
    ∷ vote 2 5 0
    ∷ record (vote 3 5 1) { challenge_hash = codes "cd" }
    ∷ vote 4 5 6
    ∷ vote 5 5 4
    ∷ []

votes_lem : run_pbft_round (codes "r") votes ≡ some three_votes
unfolding run_pbft_round try_commit init try_commit_on commit add_all add_prepare_message
    accepted_proofs most_common counter count_up greatest bytes_eq
votes_lem = refl

run_pbft_round_safe_example :
    (length three_votes ≡ 3)
    × DistinctIds three_votes
    × All (λ q. Elem q votes) three_votes
    × ((hash : List ℕ) × (h : ℕ) × Agreed hash h three_votes)
run_pbft_round_safe_example = run_pbft_round_safe (codes "r") votes three_votes votes_lem

abbrev pub honest_majority : List Proof
honest_majority = vote 1 6 3 ∷ three_votes

run_pbft_round_live_example :
    run_pbft_round (codes "r") honest_majority
    ≡ some (take 3 (agreeing (codes "ab") 5 honest_majority))
unfolding bytes_eq
run_pbft_round_live_example =
    run_pbft_round_live (codes "ab") 5 (codes "r") honest_majority (ground arith) (omega arith)
      (omega arith)

abbrev store : ShareStore
store = record { aes_key = 1 ∷ []; shares = [] }

abbrev row : Row
row = record {
  x_coord = 2;
  y_coord_encrypted = big_endian 32 6;
  aes_nonce = 7 ∷ [];
  share_hash = share_hash_of plain_hashing 2 6;
  feldman_commitment = none;
}

abbrev stored : ShareStore
stored = record { aes_key = 1 ∷ []; shares = (codes "did", row) ∷ [] }

stored_lem : store_share plain_hashing plain_aead (7 ∷ []) (codes "did") 2 6 none store ≡ ok stored
unfolding store_share to_bytes insert
stored_lem = refl

get_share-store_share_example : get_share plain_hashing plain_aead (codes "did") stored ≡ (
    if bytes_eq (codes "did") (codes "did")
    then ok (some (2, 6))
    else get_share plain_hashing plain_aead (codes "did") store)
get_share-store_share_example =
    get_share-store_share plain_hashing plain_aead plain_aead-IsAead (7 ∷ []) (codes "did")
      (codes "did") 2 6 none store stored stored_lem

get_share-delete_share_example :
    (get_share plain_hashing plain_aead (codes "did") (delete_share (codes "did") stored) ≡ (
      if bytes_eq (codes "did") (codes "did")
      then ok none
      else get_share plain_hashing plain_aead (codes "did") stored))
    × (has_share (codes "did") (delete_share (codes "did") stored)
        ≡ (if bytes_eq (codes "did") (codes "did") then false else has_share (codes "did") stored))
get_share-delete_share_example =
    get_share-delete_share plain_hashing plain_aead (codes "did") (codes "did") stored
