-- ===== src/Node/Pbft/Safety.antt =====
-- What a round of node/pbft.py that commits has agreed on.
use decentralized_idp.Prelude.{
  ℕ, zero, suc, ◌≤◌, ◌≡◌, ◌≢◌, refl, ◌∙◌, List, [], ◌∷◌, ◌++◌, Bool, false, Option, none, some,
  arith, length, length-take, take, filter, All, All-filter, All-append_one, All-take, All-mono,
  Elem, inl, inr, ◌==◌, Bool-cases, ==_iff,
}
use decentralized_idp.Stdlib.Bytes.{Str, bytes_eq, eq_of_bytes_eq}
use decentralized_idp.Crypto.{n_nodes, threshold, f_nodes}
use decentralized_idp.Node.PartialProof.{Proof}
use decentralized_idp.Node.Pbft.{
  Round, init, is_seen, add_prepare_message, with_hash, with_h, majority_hash, majority_h,
  majority_candidates, accepted_proofs, commit, try_commit_on, try_commit, add_all, run_pbft_round,
}

-- No two of the proofs come from one node.
abbrev pub DistinctIds : List Proof → Type 0
DistinctIds [] = Unit
DistinctIds (q ∷ rest) = All (λ r. r.node_id ≢ q.node_id) rest × DistinctIds rest

-- All proofs answer one challenge with one field element.
abbrev pub Agreed : Str → ℕ → List Proof → Type 0
Agreed hash h proofs = All (λ q. (q.challenge_hash ≡ hash) × (q.h ≡ h)) proofs

DistinctIds-filter :
    (test : Proof → Bool) (proofs : List Proof)
    → DistinctIds proofs
    → DistinctIds (filter test proofs)
DistinctIds-filter test [] d = tt
DistinctIds-filter test (q ∷ rest) d = ground (
  arith,
  All-filter (λ r. r.node_id ≢ q.node_id) (λ r. r.node_id ≢ q.node_id) test rest (λ r _ h. h) d.0,
  DistinctIds-filter test rest d.1,
)

DistinctIds-take : (n : ℕ) (proofs : List Proof) → DistinctIds proofs → DistinctIds (take n proofs)
DistinctIds-take zero proofs d = tt
DistinctIds-take (suc n) [] d = tt
DistinctIds-take (suc n) (q ∷ rest) d =
    (All-take (λ r. r.node_id ≢ q.node_id) n rest d.0, DistinctIds-take n rest d.1)

DistinctIds-append :
    (proofs : List Proof) (q : Proof)
    → DistinctIds proofs
    → is_seen q.node_id proofs ≡ false
    → DistinctIds (proofs ++ q ∷ [])
DistinctIds-append [] q d h = (tt, tt)
DistinctIds-append (r ∷ rest) q d h = elim (Bool-cases (q.node_id == r.node_id)) [
  | inl same ↦ absurd (ground arith)
  | inr other ↦ (
    All-append_one (λ s. s.node_id ≢ r.node_id) rest q d.0 (ground arith),
    DistinctIds-append rest q d.1 (ground arith),
  )
]

DistinctIds-add_prepare_message :
    (r : Round) (q : Proof)
    → DistinctIds r.prepare_messages
    → DistinctIds (add_prepare_message r q).prepare_messages
unfolding add_prepare_message
DistinctIds-add_prepare_message r q d = elim (Bool-cases (is_seen q.node_id r.prepare_messages)) [
  | inl seen ↦ rw seen d
  | inr fresh ↦ rw fresh (DistinctIds-append r.prepare_messages q d fresh)
]

-- Every message that a round holds comes from another node.
pub DistinctIds-add_all :
    (r : Round) (proofs : List Proof)
    → DistinctIds r.prepare_messages
    → DistinctIds (add_all r proofs).prepare_messages
unfolding add_all
DistinctIds-add_all r [] d = d
DistinctIds-add_all r (q ∷ rest) d =
    DistinctIds-add_all (add_prepare_message r q) rest (DistinctIds-add_prepare_message r q d)

-- Every message that a round holds was handed to it, and satisfies what all of those satisfy.
All-add_all :
    (P : Proof → Type 0) (r : Round) (proofs : List Proof)
    → All P r.prepare_messages
    → All P proofs
    → All P (add_all r proofs).prepare_messages
unfolding add_all
All-add_all P r [] a b = a
All-add_all P r (q ∷ rest) a b = All-add_all P (add_prepare_message r q) rest (now a b.0) b.1
  where
    now : All P r.prepare_messages → P q → All P (add_prepare_message r q).prepare_messages
    now c h =
        unfold add_prepare_message in
        elim (Bool-cases (is_seen q.node_id r.prepare_messages)) [
          | inl seen ↦ rw seen c
          | inr fresh ↦ rw fresh (All-append_one P r.prepare_messages q c h)
        ]

pub quorum-add_all : (r : Round) (proofs : List Proof) → (add_all r proofs).quorum ≡ r.quorum
unfolding add_all add_prepare_message
quorum-add_all r [] = refl
quorum-add_all r (q ∷ rest) = quorum-add_all (add_prepare_message r q) rest ∙ ground arith

module _ (messages : List Proof) where
  DistinctIds-with_hash :
      (o : Option Str) → DistinctIds messages → DistinctIds (with_hash messages o)
  DistinctIds-with_hash none d = tt
  DistinctIds-with_hash (some hash) d =
      DistinctIds-filter (λ q. bytes_eq q.challenge_hash hash) messages d

  DistinctIds-with_h : (o : Option ℕ) → DistinctIds messages → DistinctIds (with_h messages o)
  DistinctIds-with_h none d = tt
  DistinctIds-with_h (some h) d = DistinctIds-filter (λ q. q.h == h) messages d

  All-with_hash :
      (P : Proof → Type 0) (o : Option Str) → All P messages → All P (with_hash messages o)
  All-with_hash P none a = tt
  All-with_hash P (some hash) a =
      All-filter P P (λ q. bytes_eq q.challenge_hash hash) messages (λ q _ b. b) a

  All-with_h : (P : Proof → Type 0) (o : Option ℕ) → All P messages → All P (with_h messages o)
  All-with_h P none a = tt
  All-with_h P (some h) a = All-filter P P (λ q. q.h == h) messages (λ q _ b. b) a

All-true : (proofs : List Proof) → All (λ q. Unit {0}) proofs
All-true [] = tt
All-true (q ∷ rest) = (tt, All-true rest)

Agreed-with_h :
    (messages : List Proof) (o : Option Str) (o' : Option ℕ)
    → (hash : Str) × (h : ℕ) × Agreed hash h (with_h (with_hash messages o) o')
Agreed-with_h messages none none = ([], 0, tt)
Agreed-with_h messages none (some h) = ([], h, tt)
Agreed-with_h messages (some hash) none = (hash, 0, tt)
Agreed-with_h messages (some hash) (some h) = (
  hash,
  h,
  All-filter (λ q. q.challenge_hash ≡ hash) (λ q. (q.challenge_hash ≡ hash) × (q.h ≡ h))
      (λ q. q.h == h) (filter (λ q. bytes_eq q.challenge_hash hash) messages)
      (λ q e same. (same, (==_iff q.h h).0 e))
      (All-filter (λ q. Unit {0}) (λ q. q.challenge_hash ≡ hash)
        (λ q. bytes_eq q.challenge_hash hash) messages
        (λ q e _. eq_of_bytes_eq q.challenge_hash hash e) (All-true messages)),
)

module _ (messages : List Proof) where
  DistinctIds-accepted_proofs : DistinctIds messages → DistinctIds (accepted_proofs messages)
  unfolding accepted_proofs
  DistinctIds-accepted_proofs d =
      DistinctIds-with_h (majority_candidates messages) (majority_h (majority_candidates messages))
        (DistinctIds-with_hash messages (majority_hash messages) d)

  pub All-accepted_proofs : (P : Proof → Type 0) → All P messages → All P (accepted_proofs messages)
  unfolding accepted_proofs
  All-accepted_proofs P a =
      All-with_h (majority_candidates messages) P (majority_h (majority_candidates messages))
        (All-with_hash messages P (majority_hash messages) a)

  Agreed-accepted_proofs : (hash : Str) × (h : ℕ) × Agreed hash h (accepted_proofs messages)
  unfolding accepted_proofs
  Agreed-accepted_proofs =
      Agreed-with_h messages (majority_hash messages) (majority_h (majority_candidates messages))

-- What `commit` returned.
commit_inv :
    (r : Round) (accepted : List Proof) {chosen : List Proof}
    → (commit r accepted).1 ≡ some chosen
    → (r.quorum ≤ length accepted) × (chosen ≡ take threshold accepted)
unfolding commit
commit_inv r accepted e = ground arith

pub Elem-All : (proofs : List Proof) → All (λ q. Elem q proofs) proofs
Elem-All [] = tt
Elem-All (q ∷ rest) = (
  inl refl,
  All-mono (λ r. Elem r rest) (λ r. Elem r (q ∷ rest)) rest (λ r m. inr m) (Elem-All rest),
)

try_commit_on_inv :
    (messages : List Proof) (r : Round) {chosen : List Proof}
    → (try_commit_on messages r).1 ≡ some chosen
    → (r.quorum ≤ length (accepted_proofs messages))
      × (chosen ≡ take threshold (accepted_proofs messages))
unfolding try_commit_on
try_commit_on_inv [] r e = cc
try_commit_on_inv (q ∷ rest) r e = commit_inv r (accepted_proofs (q ∷ rest)) e

-- A round that returns proofs returns exactly three of those it was handed, from three different
-- nodes, and all three have the same challenge hash and the same H.
pub run_pbft_round_safe :
    (round_id : Str) (proofs chosen : List Proof)
    → run_pbft_round round_id proofs ≡ some chosen
    → (length chosen ≡ 3)
      × DistinctIds chosen
      × All (λ q. Elem q proofs) chosen
      × ((hash : Str) × (h : ℕ) × Agreed hash h chosen)
unfolding run_pbft_round try_commit init
run_pbft_round_safe round_id proofs chosen e = (
  rw eq (length-take 3 accepted ∙ omega (arith, quorum-add_all start proofs, inv.0)),
  rw eq (
      DistinctIds-take 3 accepted
        (DistinctIds-accepted_proofs messages (DistinctIds-add_all start proofs tt))),
  rw eq (
      All-take (λ q. Elem q proofs) 3 accepted
        (All-accepted_proofs messages (λ q. Elem q proofs)
          (All-add_all (λ q. Elem q proofs) start proofs tt (Elem-All proofs)))),
  (
    agreed.0,
    agreed.1,
    rw eq (All-take (λ q. (q.challenge_hash ≡ agreed.0) × (q.h ≡ agreed.1)) 3 accepted agreed.2),
  ),
)
  where
    start : Round
    start = init round_id n_nodes f_nodes

    messages : List Proof
    messages = (add_all start proofs).prepare_messages

    accepted : List Proof
    accepted = accepted_proofs messages

    inv : ((add_all start proofs).quorum ≤ length accepted) × (chosen ≡ take threshold accepted)
    inv = try_commit_on_inv messages (add_all start proofs) e

    eq : chosen ≡ take 3 accepted
    eq = inv.1

    agreed : (hash : Str) × (h : ℕ) × Agreed hash h accepted
    agreed = Agreed-accepted_proofs messages
