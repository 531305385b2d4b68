-- ===== src/Node/Pbft/Liveness.antt =====
-- When a round of node/pbft.py commits, and to what.
use decentralized_idp.Prelude.{
  ℕ, ◌*◌, ◌≤◌, ◌<◌, ◌≡◌, ◌≢◌, refl, sym, ap, subst, ◌∙◌, List, [], ◌∷◌, ◌++◌, map, false, ◌&&◌,
  some, arith, length, take, filter, All, length-filter, length-map, inl, inr, ◌==◌, Bool-cases,
  ==_iff, Option, none, leb, if◌then◌else◌, true,
}
use mathlib.Core.List.{append_assoc, append-nil}
use decentralized_idp.Stdlib.Bytes.{Str, bytes_eq, bytes_eq_iff}
use decentralized_idp.Stdlib.Counter.{counter, most_common, occurrences, most_common_majority}
use decentralized_idp.Crypto.{n_nodes, f_nodes}
use decentralized_idp.Node.PartialProof.{Proof}
use decentralized_idp.Node.Pbft.{
  Round, init, is_seen, add_prepare_message, with_hash, with_h, majority_hash, majority_h,
  majority_candidates, accepted_proofs, commit, try_commit_on, try_commit, add_all, run_pbft_round,
}
use decentralized_idp.Node.Pbft.Safety.{DistinctIds, quorum-add_all}

-- The proofs with the given challenge hash and H.
abbrev pub agreeing : Str → ℕ → List Proof → List Proof
agreeing hash h = filter (λ q. bytes_eq q.challenge_hash hash && (q.h == h))

distinct_at :
    {id : ℕ} (pre : List Proof) (q : Proof) (rest : List Proof)
    → All (λ r. r.node_id ≢ id) (pre ++ q ∷ rest)
    → q.node_id ≢ id
distinct_at [] q rest a = a.0
distinct_at (r ∷ pre) q rest a = distinct_at pre q rest a.1

is_seen_distinct :
    (pre : List Proof) (q : Proof) (rest : List Proof)
    → DistinctIds (pre ++ q ∷ rest)
    → is_seen q.node_id pre ≡ false
is_seen_distinct [] q rest d = refl
is_seen_distinct (r ∷ pre) q rest d =
    let ne : q.node_id ≢ r.node_id = distinct_at pre q rest d.0 in
    ground (arith, is_seen_distinct pre q rest d.1)

add_prepare_message_fresh :
    (r : Round) (q : Proof)
    → is_seen q.node_id r.prepare_messages ≡ false
    → add_prepare_message r q ≡ record r { prepare_messages = r.prepare_messages ++ q ∷ [] }
unfolding add_prepare_message
add_prepare_message_fresh r q fresh = rw fresh refl

-- Proofs from different nodes are all kept.
messages-add_all :
    (r : Round) (proofs : List Proof)
    → DistinctIds (r.prepare_messages ++ proofs)
    → (add_all r proofs).prepare_messages ≡ r.prepare_messages ++ proofs
unfolding add_all
messages-add_all r [] d = sym (append-nil r.prepare_messages)
messages-add_all r (q ∷ rest) d =
    let fresh = is_seen_distinct r.prepare_messages q rest d in
    let next = add_prepare_message_fresh r q fresh in
    let joined = append_assoc r.prepare_messages (q ∷ []) rest in
    ap (λ s. (add_all s rest).prepare_messages) next
    ∙ messages-add_all (record r { prepare_messages = r.prepare_messages ++ q ∷ [] }) rest
        (subst DistinctIds (sym joined) d)
    ∙ joined

-- What a round returns, once its accepted proofs are known.
abbrev pub first_three : List Proof → Option (List Proof)
first_three accepted = if leb 3 (length accepted) then some (take 3 accepted) else none

commit_lem :
    (r : Round) (accepted : List Proof)
    → r.quorum ≡ 3
    → (commit r accepted).1 ≡ first_three accepted
unfolding commit
commit_lem r accepted h = ground arith

-- Of proofs from different nodes, a round returns the first three that it accepts, if there are three.
pub run_pbft_round-first_three :
    (round_id : Str) (proofs : List Proof)
    → DistinctIds proofs
    → run_pbft_round round_id proofs ≡ first_three (accepted_proofs proofs)
unfolding run_pbft_round try_commit init
run_pbft_round-first_three round_id [] d =
    unfold try_commit_on add_all accepted_proofs most_common counter in refl
run_pbft_round-first_three round_id (q ∷ rest) d =
    let start = init round_id n_nodes f_nodes in
    ap (λ m. (try_commit_on m (add_all start (q ∷ rest))).1) (messages-add_all start (q ∷ rest) d)
    ∙ commit_lem (add_all start (q ∷ rest)) (accepted_proofs (q ∷ rest))
        (quorum-add_all start (q ∷ rest))

module _ (hash : Str) (h : ℕ) where
  occurrences-hash :
      (messages : List Proof)
      → length (agreeing hash h messages)
        ≤ occurrences bytes_eq hash (map (λ q. q.challenge_hash) messages)
  occurrences-hash [] = omega arith
  occurrences-hash (q ∷ rest) = ground (
    arith,
    occurrences-hash rest,
    bytes_eq_iff q.challenge_hash hash,
    bytes_eq_iff hash q.challenge_hash,
  )

  occurrences-h :
      (messages : List Proof)
      → occurrences
          (λ a b. a == b)
          h
          (map (λ q. q.h) (filter (λ q. bytes_eq q.challenge_hash hash) messages))
        ≡ length (agreeing hash h messages)
  occurrences-h [] = refl
  occurrences-h (q ∷ rest) = elim (Bool-cases (bytes_eq q.challenge_hash hash)) [
    | inl e ↦ rw e (ground (arith, occurrences-h rest))
    | inr e ↦ rw e (occurrences-h rest)
  ]

  pub filter-filter :
      (messages : List Proof)
      → filter (λ q. q.h == h) (filter (λ q. bytes_eq q.challenge_hash hash) messages)
        ≡ agreeing hash h messages
  filter-filter [] = refl
  filter-filter (q ∷ rest) = elim (Bool-cases (bytes_eq q.challenge_hash hash)) [
    | inl e ↦ rw e (ground (arith, filter-filter rest))
    | inr e ↦ rw e (filter-filter rest)
  ]

  -- Where more than half of the messages agree, those are the accepted ones.
  pub accepted_proofs_majority :
      (messages : List Proof)
      → length messages < 2 * length (agreeing hash h messages)
      → accepted_proofs messages ≡ agreeing hash h messages
  unfolding accepted_proofs
  accepted_proofs_majority messages more =
      let hash_e : majority_hash messages ≡ some hash =
        most_common_majority bytes_eq bytes_eq_iff hash (map (λ q. q.challenge_hash) messages)
          (omega (arith, occurrences-hash messages, length-map messages (λ q. q.challenge_hash))) in
      let candidates = filter (λ q. bytes_eq q.challenge_hash hash) messages in
      let candidates_e : majority_candidates messages ≡ candidates =
        ap (with_hash messages) hash_e in
      let h_e : majority_h candidates ≡ some h =
        most_common_majority (λ a b. a == b) ==_iff h (map (λ q. q.h) candidates)
          (omega (
            arith,
            occurrences-h messages,
            length-map candidates (λ q. q.h),
            length-filter (λ q. bytes_eq q.challenge_hash hash) messages,
          )) in
      ap (λ c. with_h c (majority_h c)) candidates_e
      ∙ ap (with_h candidates) h_e
      ∙ filter-filter messages

  -- Three or more agreeing proofs that are more than half of the proofs, which come from different
  -- nodes, make the round return the first three of them.
  pub run_pbft_round_live :
      (round_id : Str) (proofs : List Proof)
      → DistinctIds proofs
      → 3 ≤ length (agreeing hash h proofs)
      → length proofs < 2 * length (agreeing hash h proofs)
      → run_pbft_round round_id proofs ≡ some (take 3 (agreeing hash h proofs))
  run_pbft_round_live round_id proofs d enough more =
      let test : leb 3 (length (agreeing hash h proofs)) ≡ true = ground (arith, enough) in
      run_pbft_round-first_three round_id proofs d
      ∙ ap first_three (accepted_proofs_majority proofs more)
      ∙ rw test refl
