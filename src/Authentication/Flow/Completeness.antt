-- ===== src/Authentication/Flow/Completeness.antt =====
-- authentication/authenticate.py: an honest user with enough honest nodes authenticates.
use decentralized_idp.Prelude.{
  ℕ, zero, suc, ◌%◌, ◌≤◌, ◌<◌, ◌≡◌, ◌≢◌, refl, sym, ap, ◌∙◌, List, [], ◌∷◌, ◌++◌, map, Bool, true,
  Option, some, Result, ok, >>=-eq-ok, ok_injective, arith, All, All-mono, All-take, length,
  length-take, take,
}
use decentralized_idp.Stdlib.Bytes.{Bytes, Str, bytes_eq, bytes_eq_refl, from_bytes}
use decentralized_idp.Stdlib.Hex.{hex, int_16}
use decentralized_idp.Stdlib.Json.{Codec}
use decentralized_idp.External.{Hashing, IsHashing, Signatures, Base64}
use decentralized_idp.Arith.Prime.{IsPrime}
use decentralized_idp.Crypto.Lagrange.{Share}
use decentralized_idp.Crypto.Interpolation.{Distinct}
use decentralized_idp.Crypto.Sss.{generate_shares}
use decentralized_idp.Crypto.Hkdf.{commitment_hash}
use decentralized_idp.Node.PartialProof.{
  Proof, compute_partial_proof, recover_secret_from_partial_proofs,
}
use decentralized_idp.Node.PartialProof.Recovery.{
  IsAnswer, proof_xs, digest_number, compute_partial_proof_inv,
  recover_secret-compute_partial_proof,
}
use decentralized_idp.Node.Pbft.{accepted_proofs, run_pbft_round}
use decentralized_idp.Node.Pbft.Safety.{DistinctIds}
use decentralized_idp.Node.Pbft.Liveness.{agreeing, accepted_proofs_majority, run_pbft_round_live}
use decentralized_idp.Ledger.{Ledger, get_public_key, get_commitment_hash}
use decentralized_idp.Authentication.Challenge.{consume}
use decentralized_idp.Authentication.Tokens.{issue_token}
use decentralized_idp.Authentication.Flow.CleanUp.{clean_proofs-accepted_proofs}
use decentralized_idp.Authentication.Flow.{
  Service, success, accepted, Moment, node_ids, grant, conclude, continue_with, decide, check_did,
  signature_holds, choose, search, clean_proofs, combinations, round_id_of, authenticate,
}

-- The first subset that is tried is the first k elements.
combinations-take :
    {A : Type 0} (k : ℕ) (xs : List A)
    → k ≤ length xs
    → (more : List (List A)) × (combinations k xs ≡ take k xs ∷ more)
unfolding combinations
combinations-take zero xs h = ([], refl)
combinations-take (suc k) [] h = absurd (omega arith)
combinations-take (suc k) (x ∷ xs) h =
    let rec' = combinations-take k xs (omega arith) in
    (
      map (λ rest. x ∷ rest) rec'.0 ++ combinations (suc k) xs,
      ap (λ l. map (λ rest. x ∷ rest) l ++ combinations (suc k) xs) rec'.1,
    )

Distinct-take :
    (n : ℕ) (proofs : List Proof) → Distinct (proof_xs proofs) → Distinct (proof_xs (take n proofs))
Distinct-take zero proofs d = tt
Distinct-take (suc n) [] d = tt
Distinct-take (suc n) (q ∷ rest) d = (apart n rest d.0, Distinct-take n rest d.1)
  where
    apart :
        (m : ℕ) (ps : List Proof)
        → All (λ y. y ≢ q.x) (proof_xs ps)
        → All (λ y. y ≢ q.x) (proof_xs (take m ps))
    apart zero ps a = tt
    apart (suc m) [] a = tt
    apart (suc m) (r ∷ ps) a = (a.0, apart m ps a.1)

agreeing-all :
    (hash : Str) (h : ℕ) (proofs : List Proof)
    → All (λ q. (q.challenge_hash ≡ hash) × (q.h ≡ h)) proofs
    → agreeing hash h proofs ≡ proofs
agreeing-all hash h [] a = refl
agreeing-all hash h (q ∷ rest) a =
    let same : bytes_eq q.challenge_hash hash ≡ true = rw a.0.0 (bytes_eq_refl hash) in
    let rec' = agreeing-all hash h rest a.1 in ground (arith, same, rec')

module _ (hashing : Hashing) (p : ℕ) where
  compute_partial_proof_hash :
      (s : Share) (nonce : Bytes) (id : ℕ) (q : Proof)
      → compute_partial_proof hashing p s nonce id ≡ ok q
      → q.challenge_hash ≡ hex (hashing.sha3_256 nonce)
  unfolding compute_partial_proof
  compute_partial_proof_hash s nonce id q e =
      let a = >>=-eq-ok (int_16 (hex (hashing.sha3_256 nonce))) _ e in
      ap (λ r. r.challenge_hash) (sym (ok_injective a.2))

  pub answers_agree :
      (nonce : Bytes) (shares : List Share) (proofs : List Proof)
      → IsHashing hashing
      → All (IsAnswer hashing p nonce shares) proofs
      → All
          (λ q.
            (q.challenge_hash ≡ hex (hashing.sha3_256 nonce))
            × (q.h ≡ from_bytes (hashing.sha3_256 nonce) % p))
          proofs
  answers_agree nonce shares proofs ish answers =
      All-mono (IsAnswer hashing p nonce shares) _ proofs
        (λ q answer.
          let scaled =
            compute_partial_proof_inv hashing p answer.0 nonce q.node_id q
              (from_bytes (hashing.sha3_256 nonce)) (digest_number hashing nonce ish) answer.2 in
          (compute_partial_proof_hash answer.0 nonce q.node_id q answer.2, scaled.h_eq))
        answers

-- The nodes' side of an authentication that succeeds: at least three honest answers to the nonce, from
-- different nodes with different shares of the secret, over a prime above 5, and an H that is not zero.
pub record IsAnswered (hashing : Hashing) (p : ℕ) (draw : ℕ → ℕ) (secret : ℕ) (shares : List Share)
    (nonce : Bytes) (proofs : List Proof) : Type 0 where
  pub hash : IsHashing hashing
  pub prime : IsPrime p
  pub large : 5 < p
  pub shared : generate_shares draw secret 3 5 p ≡ ok shares
  pub unit : from_bytes (hashing.sha3_256 nonce) % p ≢ 0
  pub answers : All (IsAnswer hashing p nonce shares) proofs
  pub indices : Distinct (proof_xs proofs)
  pub ids : DistinctIds proofs
  pub enough : 3 ≤ length proofs

module _ (hashing : Hashing) (codec : Codec) (p : ℕ) (draw : ℕ → ℕ) (secret : ℕ)
    (shares : List Share) (nonce : Bytes) (proofs : List Proof)
    (answered : IsAnswered hashing p draw secret shares nonce proofs) where
  all_agree :
      agreeing (hex (hashing.sha3_256 nonce)) (from_bytes (hashing.sha3_256 nonce) % p) proofs
      ≡ proofs
  all_agree =
      agreeing-all (hex (hashing.sha3_256 nonce)) (from_bytes (hashing.sha3_256 nonce) % p) proofs
        (answers_agree hashing p nonce shares proofs answered.hash answered.answers)

  round_returns : (round_id : Str) → run_pbft_round round_id proofs ≡ some (take 3 proofs)
  round_returns round_id =
      run_pbft_round_live (hex (hashing.sha3_256 nonce)) (from_bytes (hashing.sha3_256 nonce) % p)
        round_id proofs answered.ids (omega (arith, ap length all_agree, answered.enough))
        (omega (arith, ap length all_agree, answered.enough))
      ∙ ap (λ l. some (take 3 l)) all_agree

  accepted_all : accepted_proofs proofs ≡ proofs
  accepted_all =
      accepted_proofs_majority (hex (hashing.sha3_256 nonce))
        (from_bytes (hashing.sha3_256 nonce) % p) proofs
        (omega (arith, ap length all_agree, answered.enough))
      ∙ all_agree

  clean_all :
      (ps honest : List Proof)
      → 3 ≤ length ps
      → accepted_proofs ps ≡ ps
      → clean_proofs ps honest ≡ ps
  clean_all [] honest h e = absurd (omega arith)
  clean_all (q ∷ rest) honest h e = clean_proofs-accepted_proofs q rest honest ∙ e

  first_recovers : recover_secret_from_partial_proofs p (take 3 proofs) ≡ ok secret
  first_recovers =
      let three : length (take 3 proofs) ≡ 3 =
        length-take 3 proofs ∙ omega (arith, answered.enough) in
      recover_secret-compute_partial_proof hashing draw secret 3 5 p shares nonce (take 3 proofs)
        answered.hash answered.prime answered.large answered.shared answered.unit
        (All-take (IsAnswer hashing p nonce shares) 3 proofs answered.answers)
        (Distinct-take 3 proofs answered.indices) (omega (arith, three)) (omega (arith, three))

  search_first :
      (commitment : Str) (more : List (List Proof))
      → commitment_hash hashing secret ≡ ok commitment
      → search hashing codec p (some commitment) (take 3 proofs ∷ more) ≡ ok (some (take 3 proofs))
  unfolding search
  search_first commitment more hashed = rw (first_recovers, hashed, bytes_eq_refl commitment) refl

  choose_first :
      (did commitment : Str) (ledger : Ledger)
      → commitment_hash hashing secret ≡ ok commitment
      → get_commitment_hash codec did ledger ≡ ok (some commitment)
      → choose hashing codec p did proofs ledger (some (take 3 proofs))
        ≡ ok (accepted (take 3 proofs))
  unfolding choose
  choose_first did commitment ledger hashed registered =
      let subsets = combinations-take 3 proofs answered.enough in
      rw
        (
          registered,
          clean_all proofs (take 3 proofs) answered.enough accepted_all,
          subsets.1,
          search_first commitment subsets.0 hashed,
        )
        refl

  decide_first :
      (signatures : Signatures) (gather : Bytes → Result (List Proof)) (did signature_hex : Str)
      (ledger : Ledger) (public_key : Bytes) (commitment : Str)
      → get_public_key codec did ledger ≡ ok (some public_key)
      → signature_holds hashing codec p signatures public_key nonce did signature_hex ≡ true
      → gather nonce ≡ ok proofs
      → commitment_hash hashing secret ≡ ok commitment
      → get_commitment_hash codec did ledger ≡ ok (some commitment)
      → decide hashing codec p signatures (gather nonce) nonce did signature_hex ledger
        ≡ ok (accepted (take 3 proofs))
  unfolding decide check_did
  decide_first signatures gather did signature_hex ledger public_key commitment known signed
        gathered hashed registered =
      rw
        (
          known,
          signed,
          gathered,
          round_returns (round_id_of hashing codec p nonce did),
          choose_first did commitment ledger hashed registered,
        )
        refl

  -- With a live challenge, the user's key and commitment in the ledger, a signature that holds, honest
  -- answers from three or more different nodes with different shares of the secret, and a system key
  -- that signs, an authentication succeeds with the issued token and an `expires_in` of 60; over a
  -- prime above 5, where the H of the challenge is not zero in the field.
  pub authenticate_complete :
      (signatures : Signatures) (base64 : Base64) (pqc_available : Bool) (system_key : Option Bytes)
      (moment : Moment) (gather : Bytes → Result (List Proof))
      (did challenge_id signature_hex : Str) (service : Service) (public_key : Bytes)
      (commitment token : Str)
      → (consume moment.now challenge_id service.challenges).0 ≡ some nonce
      → get_public_key codec did service.ledger ≡ ok (some public_key)
      → signature_holds hashing codec p signatures public_key nonce did signature_hex ≡ true
      → gather nonce ≡ ok proofs
      → commitment_hash hashing secret ≡ ok commitment
      → get_commitment_hash codec did service.ledger ≡ ok (some commitment)
      → issue_token signatures codec pqc_available system_key moment.token_seconds moment.jti did
          (node_ids hashing codec p (take 3 proofs))
        ≡ ok token
      → (authenticate hashing codec p signatures base64 pqc_available system_key moment gather did
          challenge_id signature_hex service).0
        ≡ ok (success token 60)
  unfolding authenticate continue_with conclude grant
  authenticate_complete signatures base64 pqc_available system_key moment gather did challenge_id
        signature_hex service public_key commitment token live known signed gathered hashed
        registered issued =
      rw
        (
          live,
          decide_first signatures gather did signature_hex service.ledger public_key commitment
              known signed gathered hashed registered,
          issued,
        )
        refl
