-- ===== src/Authentication/Flow/CleanUp.antt =====
-- authentication/authenticate.py: the clean-up of the proofs against the consensus round.
use decentralized_idp.Prelude.{
  ℕ, ◌≡◌, refl, sym, ap, ◌∙◌, List, [], ◌∷◌, Option, none, some, map, filter, false, ◌==◌,
}
use decentralized_idp.Stdlib.Bytes.{Str}
use decentralized_idp.Stdlib.Counter.{most_common}
use decentralized_idp.Node.PartialProof.{Proof}
use decentralized_idp.Node.Pbft.{
  accepted_proofs, run_pbft_round, with_hash, with_h, majority_hash, majority_h,
  majority_candidates,
}
use decentralized_idp.Node.Pbft.Safety.{DistinctIds}
use decentralized_idp.Node.Pbft.Liveness.{first_three, filter-filter, run_pbft_round-first_three}
use decentralized_idp.Authentication.Flow.{clean_proofs, equals_stored, agrees_with}

filter_none : {A : Type 0} (xs : List A) → filter (λ x. false) xs ≡ []
filter_none [] = refl
filter_none (x ∷ xs) = filter_none xs

candidates_lem :
    (proofs : List Proof) (hash : Option Str)
    → filter (λ r. equals_stored r.challenge_hash hash) proofs ≡ with_hash proofs hash
candidates_lem proofs none = filter_none proofs
candidates_lem proofs (some hash) = refl

one_pass :
    (proofs : List Proof) (hash : Option Str) (h : Option ℕ)
    → filter (agrees_with hash h) proofs ≡ with_h (with_hash proofs hash) h
one_pass proofs none none = filter_none proofs
one_pass proofs none (some h) = filter_none proofs
one_pass proofs (some hash) none = filter_none proofs
one_pass proofs (some hash) (some h) = sym (filter-filter hash h proofs)

-- The clean-up keeps what the consensus round would accept of all the proofs.
pub clean_proofs-accepted_proofs :
    (q : Proof) (rest honest : List Proof)
    → clean_proofs (q ∷ rest) honest ≡ accepted_proofs (q ∷ rest)
unfolding clean_proofs accepted_proofs
clean_proofs-accepted_proofs q rest honest =
    let proofs = q ∷ rest in
    let hash = majority_hash proofs in
    ap
      (λ candidates.
        filter (agrees_with hash (most_common (λ a b. a == b) (map (λ r. r.h) candidates))) proofs)
      (candidates_lem proofs hash)
    ∙ one_pass proofs hash (majority_h (majority_candidates proofs))

-- On proofs from different nodes the consensus round and the clean-up agree: the round returns the
-- first three of the proofs that the clean-up keeps, and nothing where it keeps fewer.
pub run_pbft_round-clean_proofs :
    (round_id : Str) (q : Proof) (rest honest : List Proof)
    → DistinctIds (q ∷ rest)
    → run_pbft_round round_id (q ∷ rest) ≡ first_three (clean_proofs (q ∷ rest) honest)
run_pbft_round-clean_proofs round_id q rest honest d =
    run_pbft_round-first_three round_id (q ∷ rest) d
    ∙ ap first_three (sym (clean_proofs-accepted_proofs q rest honest))
