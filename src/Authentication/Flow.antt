-- ===== src/Authentication/Flow.antt =====
-- authentication/authenticate.py: the authentication flow. The answers come pre-collected or from the
-- transport, in the order in which the requests complete. What is printed is left out.
pub mod Soundness
pub mod Subsets
pub mod CleanUp
pub mod Success
pub mod Completeness
pub mod Sublists
pub mod Search
pub mod Tolerance
pub mod Assertion
use decentralized_idp.Prelude.{
  ℕ, zero, suc, ◌*◌, List, [], ◌∷◌, ◌++◌, map, take, Bool, true, false, Option, none, some, Result,
  ok, err, value_error, ◌>>=◌, if◌then◌else◌, ◌&&◌, ◌==◌, filter,
}
use decentralized_idp.Stdlib.Bytes.{Bytes, Str, codes, bytes_eq}
use decentralized_idp.Stdlib.Hex.{hex, from_hex}
use decentralized_idp.Stdlib.Json.{Json, text, array, Fields, end, field, Codec}
use decentralized_idp.External.{Hashing, Aead, Signatures, Base64}
use decentralized_idp.Crypto.{threshold, iat_ttl_seconds}
use decentralized_idp.Crypto.Hkdf.{commitment_hash}
use decentralized_idp.Node.PartialProof.{Proof, recover_secret_from_partial_proofs}
use decentralized_idp.Node.Pbft.{run_pbft_round}
use decentralized_idp.Stdlib.Counter.{most_common}
use decentralized_idp.Node.Transport.{Transport, request_partial_proof}
use decentralized_idp.Ledger.{Ledger, append, get_public_key, get_commitment_hash}
use decentralized_idp.Authentication.Challenge.{Manager, consume}
use decentralized_idp.Authentication.Tokens.{issue_token, extract_jti, pqc_verify, num_items}

-- What the flow changes.
pub record Service : Type 0 where
  pub challenges : Manager
  pub ledger : Ledger

-- The dictionaries that `authenticate` returns.
pub data Outcome : Type 0 where
  failed : Str → Outcome
  success : Str → ℕ → Outcome

-- `itertools.combinations`
unfoldable pub combinations : {A : Type 0} → ℕ → List A → List (List A)
combinations zero xs = [] ∷ []
combinations (suc k) [] = []
combinations (suc k) (x ∷ xs) =
    map (λ rest. x ∷ rest) (combinations k xs) ++ combinations (suc k) xs

-- `computed == stored`, where the ledger may have nothing stored.
abbrev pub equals_stored : Str → Option Str → Bool
equals_stored computed none = false
equals_stored computed (some stored) = bytes_eq computed stored

-- `p["challenge_hash"] == maj_hash and p["H"] == maj_H`
abbrev pub agrees_with : Option Str → Option ℕ → Proof → Bool
agrees_with none maj_h q = false
agrees_with (some maj_hash) none q = false
agrees_with (some maj_hash) (some maj_h) q = bytes_eq q.challenge_hash maj_hash && (q.h == maj_h)

-- The proofs with the majority hash and, among those with that hash, the majority H. A Counter of no
-- items has no most common one; the source asks only where there is one.
unfoldable pub clean_proofs : List Proof → List Proof → List Proof
clean_proofs [] honest_proofs = honest_proofs
clean_proofs (q ∷ rest) honest_proofs =
    let proofs = q ∷ rest in
    let maj_hash = most_common bytes_eq (map (λ r. r.challenge_hash) proofs) in
    let maj_h_candidates = filter (λ r. equals_stored r.challenge_hash maj_hash) proofs in
    let maj_h = most_common (λ a b. a == b) (map (λ r. r.h) maj_h_candidates) in
    filter (agrees_with maj_hash maj_h) proofs

-- What steps 2 to 7 come to.
pub data Verdict : Type 0 where
  unknown_did : Verdict
  rejected : Str → Verdict
  accepted : List Proof → Verdict

abbrev pub verdict_of : Option (List Proof) → Verdict
verdict_of none = rejected (codes "commitment_mismatch")
verdict_of (some chosen) = accepted chosen

-- The readings of the clock during one call, and the id of its token.
pub record Moment : Type 0 where
  pub now : ℕ
  pub timestamp : ℕ
  pub token_seconds : ℕ
  pub jti : Str

module _ (hashing : Hashing) (codec : Codec) (p : ℕ) where
  -- `for subset in itertools.combinations(clean_proofs, THRESHOLD)`
  unfoldable pub search : Option Str → List (List Proof) → Result (Option (List Proof))
  search stored [] = ok none
  search stored (subset ∷ rest) = do
    s_try ← recover_secret_from_partial_proofs p subset
    computed ← commitment_hash hashing s_try
    let later = search stored rest
    if equals_stored computed stored then ok (some subset) else later

  -- Steps 6 and 7, given what the consensus round returned.
  unfoldable pub choose : Str → List Proof → Ledger → Option (List Proof) → Result Verdict
  choose did proofs ledger none = ok (rejected (codes "quorum_not_reached"))
  choose did proofs ledger (some honest_proofs) = do
    stored ← get_commitment_hash codec did ledger
    chosen ← search stored (combinations threshold (clean_proofs proofs honest_proofs))
    ok (verdict_of chosen)

  -- `hashlib.sha3_256(nonce + did.encode()).hexdigest()[:16]`
  abbrev pub round_id_of : Bytes → Str → Str
  round_id_of nonce did = take 16 (hex (hashing.sha3_256 (nonce ++ did)))

  -- Step 3; a text that is not hexadecimal is an invalid signature too.
  unfoldable pub signature_holds : Signatures → Bytes → Bytes → Str → Str → Bool
  signature_holds signatures public_key nonce did signature_hex = elim (from_hex signature_hex) [
    | ok signature ↦ pqc_verify signatures public_key (nonce ++ did) signature
    | err e ↦ false
  ]

  -- Steps 3 to 7; step 4 is `gather`.
  unfoldable pub check_did :
      Signatures → Result (List Proof) → Bytes → Str → Str → Ledger → Option Bytes → Result Verdict
  check_did signatures gather nonce did signature_hex ledger none = ok unknown_did
  check_did signatures gather nonce did signature_hex ledger (some public_key) =
      if signature_holds signatures public_key nonce did signature_hex
      then (do
        proofs ← gather
        choose did proofs ledger (run_pbft_round (round_id_of nonce did) proofs))
      else ok (rejected (codes "invalid_signature"))

  -- Steps 2 to 7.
  unfoldable pub decide :
      Signatures → Result (List Proof) → Bytes → Str → Str → Ledger → Result Verdict
  decide signatures gather nonce did signature_hex ledger = do
    public_key ← get_public_key codec did ledger
    check_did signatures gather nonce did signature_hex ledger public_key

  -- `{"reason": reason}`
  abbrev pub reason_fields : Str → Fields
  reason_fields reason = field (codes "reason") (text reason) end

  abbrev pub node_ids : List Proof → List ℕ
  node_ids chosen = map (λ q. q.node_id) chosen

  abbrev pub success_fields : Base64 → List Proof → Str → Fields
  success_fields base64 chosen token =
      field (codes "quorum_nodes") (array (num_items (node_ids chosen)))
        (field (codes "token_jti") (extract_jti codec base64 token) end)

  -- Step 9, once the token is issued or `issue` has raised.
  unfoldable pub grant :
      Base64 → Moment → Str → List Proof → Service → Result Str → Result Outcome × Service
  grant base64 moment did chosen service (err e) = (err e, service)
  grant base64 moment did chosen service (ok token) = (
    ok (success token iat_ttl_seconds),
    record service {
      ledger =
          (append hashing codec (codes "AUTH_SUCCESS") did (success_fields base64 chosen token)
            moment.timestamp service.ledger).0;
    },
  )

  -- What is returned, and what is written to the ledger.
  unfoldable pub conclude :
      Signatures
      → Base64
      → Bool
      → Option Bytes
      → Moment
      → Str
      → Service
      → Result Verdict
      → Result Outcome × Service
  conclude signatures base64 pqc_available system_key moment did service (err e) = (err e, service)
  conclude signatures base64 pqc_available system_key moment did service (ok unknown_did) =
      (ok (failed (codes "did_not_found")), service)
  conclude signatures base64 pqc_available system_key moment did service (ok (rejected reason)) = (
    ok (failed reason),
    record service {
      ledger =
          (append hashing codec (codes "AUTH_FAIL") did (reason_fields reason) moment.timestamp
            service.ledger).0;
    },
  )
  conclude signatures base64 pqc_available system_key moment did service (ok (accepted chosen)) =
      grant base64 moment did chosen service (
        issue_token signatures codec pqc_available system_key moment.token_seconds moment.jti did
          (node_ids chosen))

  -- The flow once the challenge has been consumed.
  unfoldable pub continue_with :
      Signatures
      → Base64
      → Bool
      → Option Bytes
      → Moment
      → (Bytes → Result (List Proof))
      → Str
      → Str
      → Service
      → Option Bytes
      → Result Outcome × Service
  continue_with signatures base64 pqc_available system_key moment gather did signature_hex service
        none =
      (ok (failed (codes "challenge_expired_or_invalid")), service)
  continue_with signatures base64 pqc_available system_key moment gather did signature_hex service
        (some nonce) =
      conclude signatures base64 pqc_available system_key moment did service
        (decide signatures (gather nonce) nonce did signature_hex service.ledger)

  -- `AuthenticationService.authenticate`, where `gather` is step 4 for the challenge's nonce.
  unfoldable pub authenticate :
      Signatures
      → Base64
      → Bool
      → Option Bytes
      → Moment
      → (Bytes → Result (List Proof))
      → Str
      → Str
      → Str
      → Service
      → Result Outcome × Service
  authenticate signatures base64 pqc_available system_key moment gather did challenge_id
        signature_hex service =
      let (nonce, challenges') = consume moment.now challenge_id service.challenges in
      continue_with signatures base64 pqc_available system_key moment gather did signature_hex
        (record service { challenges = challenges' }) nonce

-- `if proof is not None: proofs.append(proof)`
abbrev pub cons_some : Option Proof → List Proof → List Proof
cons_some none proofs = proofs
cons_some (some proof) proofs = proof ∷ proofs

module _ (hashing : Hashing) (aead : Aead) (p : ℕ) where
  -- The requests to the nodes with the given ids, in the order in which they complete; the random
  -- number of a Byzantine node is given by its id.
  unfoldable pub request_all : (ℕ → ℕ) → Str → Str → Transport → List ℕ → List Proof
  request_all draw did nonce_hex t [] = []
  request_all draw did nonce_hex t (id ∷ rest) =
      cons_some (request_partial_proof hashing aead p (draw id) id did nonce_hex t)
        (request_all draw did nonce_hex t rest)

  -- Step 4: the given proofs, or those of the nodes; a pool of no workers raises.
  unfoldable pub collect :
      Option (List Proof) → (ℕ → ℕ) → Str → Transport → List ℕ → Bytes → Result (List Proof)
  collect (some proofs) draw did t completed nonce = ok proofs
  collect none draw did t [] nonce = err value_error
  collect none draw did t (id ∷ rest) nonce = ok (request_all draw did (hex nonce) t (id ∷ rest))
