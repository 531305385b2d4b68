-- ===== src/Node/Pbft.antt =====
-- node/pbft.py: one consensus round. What the round prints is left out.
pub mod Safety
pub mod Liveness
use decentralized_idp.Prelude.{
  ℕ, ◌+◌, ◌*◌, List, [], ◌∷◌, ◌++◌, map, Bool, true, false, ◌||◌, Option, none, some, length, take,
  filter, leb, ◌==◌, if◌then◌else◌,
}
use decentralized_idp.Stdlib.Bytes.{Str, bytes_eq}
use decentralized_idp.Stdlib.Counter.{most_common}
use decentralized_idp.Crypto.{n_nodes, threshold, f_nodes}
use decentralized_idp.Node.PartialProof.{Proof}

-- `PBFTRound`
pub record Round : Type 0 where
  pub round_id : Str
  pub n : ℕ
  pub f : ℕ
  pub quorum : ℕ
  pub prepare_messages : List Proof
  pub committed : Bool
  pub result : Option (List Proof)

unfoldable pub init : Str → ℕ → ℕ → Round
init round_id n f = record {
  round_id = round_id;
  n = n;
  f = f;
  quorum = 2 * f + 1;
  prepare_messages = [];
  committed = false;
  result = none;
}

-- `proof["node_id"] in seen_ids`
abbrev pub is_seen : ℕ → List Proof → Bool
is_seen id [] = false
is_seen id (q ∷ rest) = (id == q.node_id) || is_seen id rest

unfoldable pub add_prepare_message : Round → Proof → Round
add_prepare_message r proof =
    if is_seen proof.node_id r.prepare_messages
    then r
    else record r { prepare_messages = r.prepare_messages ++ proof ∷ [] }

-- The messages with the majority challenge hash.
abbrev pub with_hash : List Proof → Option Str → List Proof
with_hash messages none = []
with_hash messages (some hash) = filter (λ q. bytes_eq q.challenge_hash hash) messages

abbrev pub with_h : List Proof → Option ℕ → List Proof
with_h candidates none = []
with_h candidates (some h) = filter (λ q. q.h == h) candidates

-- Step 1. A Counter of no items has no most common one; the source asks only where there is one.
abbrev pub majority_hash : List Proof → Option Str
majority_hash messages = most_common bytes_eq (map (λ q. q.challenge_hash) messages)

-- Step 2.
abbrev pub majority_h : List Proof → Option ℕ
majority_h candidates = most_common (λ a b. a == b) (map (λ q. q.h) candidates)

abbrev pub majority_candidates : List Proof → List Proof
majority_candidates messages = with_hash messages (majority_hash messages)

-- Step 3.
unfoldable pub accepted_proofs : List Proof → List Proof
accepted_proofs messages =
    with_h (majority_candidates messages) (majority_h (majority_candidates messages))

-- Step 4: the round commits if the accepted proofs reach the quorum.
unfoldable pub commit : Round → List Proof → Round × Option (List Proof)
commit r accepted =
    if leb r.quorum (length accepted)
    then (record r { committed = true; result = some accepted }, some (take threshold accepted))
    else (r, none)

-- `if not self.prepare_messages: return None`, and the steps.
unfoldable pub try_commit_on : List Proof → Round → Round × Option (List Proof)
try_commit_on [] r = (r, none)
try_commit_on (q ∷ rest) r = commit r (accepted_proofs (q ∷ rest))

unfoldable pub try_commit : Round → Round × Option (List Proof)
unfolding try_commit_on commit
try_commit r = try_commit_on r.prepare_messages r

-- `for proof in partial_proofs: pbft.add_prepare_message(proof)`
unfoldable pub add_all : Round → List Proof → Round
add_all r [] = r
add_all r (proof ∷ rest) = add_all (add_prepare_message r proof) rest

unfoldable pub run_pbft_round : Str → List Proof → Option (List Proof)
run_pbft_round round_id partial_proofs =
    (try_commit (add_all (init round_id n_nodes f_nodes) partial_proofs)).1
