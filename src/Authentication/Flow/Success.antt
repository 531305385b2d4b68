-- ===== src/Authentication/Flow/Success.antt =====
-- authentication/authenticate.py: what a successful authentication has checked.
use decentralized_idp.Prelude.{
  ℕ, ◌≡◌, refl, sym, ap, ◌∙◌, subst, List, [], ◌∷◌, Bool, true, Option, none, some, Result, ok, err,
  Bool-cases, inl, inr, arith, All, Elem, length, >>=-eq-ok, ok_injective,
}
use decentralized_idp.Stdlib.Bytes.{Bytes, Str, codes, eq_of_bytes_eq}
use decentralized_idp.Stdlib.Json.{Codec}
use decentralized_idp.External.{Hashing, Signatures, Base64}
use decentralized_idp.Crypto.Hkdf.{commitment_hash}
use decentralized_idp.Node.PartialProof.{Proof, recover_secret_from_partial_proofs}
use decentralized_idp.Node.Pbft.{run_pbft_round}
use decentralized_idp.Node.Pbft.Safety.{run_pbft_round_safe, All-accepted_proofs, Elem-All}
use decentralized_idp.Ledger.{Ledger, append, get_public_key, get_commitment_hash}
use decentralized_idp.Authentication.Challenge.{consume}
use decentralized_idp.Authentication.Tokens.{issue_token}
use decentralized_idp.Authentication.Flow.{
  Service, success, Verdict, unknown_did, rejected, accepted, verdict_of, Moment, node_ids,
  success_fields, grant, conclude, continue_with, decide, check_did, signature_holds, choose,
  search, equals_stored, clean_proofs, combinations, round_id_of, authenticate,
}
use decentralized_idp.Authentication.Flow.CleanUp.{clean_proofs-accepted_proofs}
use decentralized_idp.Authentication.Flow.Subsets.{combinations-IsChoice, All-through}

clean_proofs-All :
    (proofs honest : List Proof)
    → All (λ q. Elem q proofs) honest
    → All (λ q. Elem q proofs) (clean_proofs proofs honest)
clean_proofs-All [] honest h = unfold clean_proofs in h
clean_proofs-All (q ∷ rest) honest h =
    rw (clean_proofs-accepted_proofs q rest honest)
      (All-accepted_proofs (q ∷ rest) (λ r. Elem r (q ∷ rest)) (Elem-All (q ∷ rest)))

equals_stored_inv :
    (computed : Str) (stored : Option Str)
    → equals_stored computed stored ≡ true
    → stored ≡ some computed
equals_stored_inv computed none e = cc
equals_stored_inv computed (some stored) e = ap some (sym (eq_of_bytes_eq computed stored e))

module _ (hashing : Hashing) (codec : Codec) (p : ℕ) where
  -- The subset recovers a secret whose hash is the stored one.
  pub record IsMatch (stored : Option Str) (chosen : List Proof) : Type 0 where
    pub secret : ℕ
    pub computed : Str
    pub recovers : recover_secret_from_partial_proofs p chosen ≡ ok secret
    pub hashed : commitment_hash hashing secret ≡ ok computed
    pub same : stored ≡ some computed

  search_inv :
      (stored : Option Str) (subsets : List (List Proof)) (chosen : List Proof)
      → search hashing codec p stored subsets ≡ ok (some chosen)
      → Elem chosen subsets × IsMatch stored chosen
  unfolding search
  search_inv stored [] chosen e = cc
  search_inv stored (subset ∷ rest) chosen e =
      let a = >>=-eq-ok (recover_secret_from_partial_proofs p subset) _ e in
      let b = >>=-eq-ok (commitment_hash hashing a.0) _ a.2 in
      elim (Bool-cases (equals_stored b.0 stored)) [
        | inl matched ↦
            let eq : subset ≡ chosen = ground (arith, rw matched at b.2) in
            (
              inl (sym eq),
              subst (IsMatch stored) eq (record {
                secret = a.0;
                computed = b.0;
                recovers = a.1;
                hashed = b.1;
                same = equals_stored_inv b.0 stored matched;
              }),
            )
        | inr differs ↦
            let later = search_inv stored rest chosen (rw differs at b.2) in (inr later.0, later.1)
      ]

  verdict_inv :
      (o : Option (List Proof)) (chosen : List Proof)
      → verdict_of o ≡ accepted chosen
      → o ≡ some chosen
  verdict_inv none chosen e = cc
  verdict_inv (some other) chosen e = cc

  choose_inv :
      (did : Str) (proofs : List Proof) (ledger : Ledger) (o : Option (List Proof))
      (chosen : List Proof)
      → choose hashing codec p did proofs ledger o ≡ ok (accepted chosen)
      → (honest : List Proof) × (o ≡ some honest)
        × (stored : Option Str) × (get_commitment_hash codec did ledger ≡ ok stored)
        × (search hashing codec p stored (combinations 3 (clean_proofs proofs honest))
            ≡ ok (some chosen))
  unfolding choose
  choose_inv did proofs ledger none chosen e = cc
  choose_inv did proofs ledger (some honest) chosen e =
      let a = >>=-eq-ok (get_commitment_hash codec did ledger) _ e in
      let b =
        >>=-eq-ok (search hashing codec p a.0 (combinations 3 (clean_proofs proofs honest))) _
          a.2 in
      (honest, refl, a.0, a.1, b.1 ∙ ap ok (verdict_inv b.0 chosen (ok_injective b.2)))

  check_did_inv :
      (signatures : Signatures) (gather : Result (List Proof)) (nonce : Bytes)
      (did signature_hex : Str) (ledger : Ledger) (o : Option Bytes) (chosen : List Proof)
      → check_did hashing codec p signatures gather nonce did signature_hex ledger o
        ≡ ok (accepted chosen)
      → (public_key : Bytes) × (o ≡ some public_key)
        × (signature_holds hashing codec p signatures public_key nonce did signature_hex ≡ true)
        × (proofs : List Proof) × (gather ≡ ok proofs)
        × (choose hashing codec p did proofs ledger
              (run_pbft_round (round_id_of hashing codec p nonce did) proofs)
            ≡ ok (accepted chosen))
  unfolding check_did
  check_did_inv signatures gather nonce did signature_hex ledger none chosen e = cc
  check_did_inv signatures gather nonce did signature_hex ledger (some public_key) chosen e =
      elim (Bool-cases
        (signature_holds hashing codec p signatures public_key nonce did signature_hex)) [
          | inl valid ↦
              let a = >>=-eq-ok gather _ (rw valid at e) in (public_key, refl, valid, a.0, a.1, a.2)
          | inr invalid ↦ absurd (cc (rw invalid at e))
        ]

  -- What an accepted authentication has checked, of three of the proofs that it gathered.
  pub record IsAuthentic (signatures : Signatures) (gather : Bytes → Result (List Proof))
      (nonce : Bytes) (did signature_hex : Str) (ledger : Ledger) (chosen : List Proof)
      : Type 0 where
    pub public_key : Bytes
    pub proofs : List Proof
    pub secret : ℕ
    pub commitment : Str
    pub known : get_public_key codec did ledger ≡ ok (some public_key)
    pub signed :
        signature_holds hashing codec p signatures public_key nonce did signature_hex ≡ true
    pub gathered : gather nonce ≡ ok proofs
    pub three : length chosen ≡ 3
    pub given : All (λ q. Elem q proofs) chosen
    pub recovers : recover_secret_from_partial_proofs p chosen ≡ ok secret
    pub hashed : commitment_hash hashing secret ≡ ok commitment
    pub registered : get_commitment_hash codec did ledger ≡ ok (some commitment)

  pub decide_inv :
      (signatures : Signatures) (gather : Bytes → Result (List Proof)) (nonce : Bytes)
      (did signature_hex : Str) (ledger : Ledger) (chosen : List Proof)
      → decide hashing codec p signatures (gather nonce) nonce did signature_hex ledger
        ≡ ok (accepted chosen)
      → IsAuthentic signatures gather nonce did signature_hex ledger chosen
  unfolding decide
  decide_inv signatures gather nonce did signature_hex ledger chosen e =
      let a = >>=-eq-ok (get_public_key codec did ledger) _ e in
      let b =
        check_did_inv signatures (gather nonce) nonce did signature_hex ledger a.0 chosen a.2 in
      let proofs = b.3 in
      let c =
        choose_inv did proofs ledger (run_pbft_round (round_id_of hashing codec p nonce did) proofs)
          chosen b.5 in
      let d = search_inv c.2 (combinations 3 (clean_proofs proofs c.0)) chosen c.4 in
      let safe = run_pbft_round_safe (round_id_of hashing codec p nonce did) proofs c.0 c.1 in
      let choice = combinations-IsChoice 3 (clean_proofs proofs c.0) chosen d.0 in
      record {
        public_key = b.0;
        proofs = proofs;
        secret = d.1.secret;
        commitment = d.1.computed;
        known = a.1 ∙ ap ok b.1;
        signed = b.2;
        gathered = b.4;
        three = choice.0;
        given =
            All-through (λ q. Elem q proofs) (clean_proofs proofs c.0) chosen
              (clean_proofs-All proofs c.0 safe.2) choice.1;
        recovers = d.1.recovers;
        hashed = d.1.hashed;
        registered = c.3 ∙ ap ok d.1.same;
      }

  module _ (signatures : Signatures) (base64 : Base64) (pqc_available : Bool)
      (system_key : Option Bytes) (moment : Moment) where
    grant_inv :
        (did : Str) (chosen : List Proof) (service : Service) (r : Result Str) (token : Str)
        (ttl : ℕ)
        → (grant hashing codec p base64 moment did chosen service r).0 ≡ ok (success token ttl)
        → (grant hashing codec p base64 moment did chosen service r).1.ledger
          ≡ (append hashing codec
              (codes "AUTH_SUCCESS")
              did
              (success_fields hashing codec p base64 chosen token)
              moment.timestamp
              service.ledger).0
    unfolding grant
    grant_inv did chosen service (err e) token ttl same = cc
    grant_inv did chosen service (ok issued) token ttl same =
        ap
          (λ t.
            (append hashing codec (codes "AUTH_SUCCESS") did
              (success_fields hashing codec p base64 chosen t) moment.timestamp service.ledger).0)
          (success_token issued token same)
      where
        success_token : (a b : Str) {n m : ℕ} → ok (success a n) ≡ ok (success b m) → a ≡ b
        success_token a b e = cc

    conclude_inv :
        (did : Str) (service : Service) (r : Result Verdict) (token : Str) (ttl : ℕ)
        → (conclude hashing codec p signatures base64 pqc_available system_key moment did service
            r).0
          ≡ ok (success token ttl)
        → (chosen : List Proof) × (r ≡ ok (accepted chosen))
          × ((conclude hashing codec p signatures base64 pqc_available system_key moment did service
                r).1.ledger
              ≡ (append hashing codec
                  (codes "AUTH_SUCCESS")
                  did
                  (success_fields hashing codec p base64 chosen token)
                  moment.timestamp
                  service.ledger).0)
    unfolding conclude
    conclude_inv did service (err e) token ttl same = cc
    conclude_inv did service (ok unknown_did) token ttl same = cc
    conclude_inv did service (ok (rejected reason)) token ttl same = cc
    conclude_inv did service (ok (accepted chosen)) token ttl same = (
      chosen,
      refl,
      grant_inv did chosen service
          (issue_token signatures codec pqc_available system_key moment.token_seconds moment.jti did
            (node_ids hashing codec p chosen))
          token ttl same,
    )

    continue_with_inv :
        (gather : Bytes → Result (List Proof)) (did signature_hex : Str) (service : Service)
        (o : Option Bytes) (token : Str) (ttl : ℕ)
        → (continue_with hashing codec p signatures base64 pqc_available system_key moment gather
            did signature_hex service o).0
          ≡ ok (success token ttl)
        → (nonce : Bytes) × (chosen : List Proof) × (o ≡ some nonce)
          × IsAuthentic signatures gather nonce did signature_hex service.ledger chosen
          × ((continue_with hashing codec p signatures base64 pqc_available system_key moment gather
                did signature_hex service o).1.ledger
              ≡ (append hashing codec
                  (codes "AUTH_SUCCESS")
                  did
                  (success_fields hashing codec p base64 chosen token)
                  moment.timestamp
                  service.ledger).0)
    unfolding continue_with
    continue_with_inv gather did signature_hex service none token ttl same = cc
    continue_with_inv gather did signature_hex service (some nonce) token ttl same =
        let a =
          conclude_inv did service
            (decide hashing codec p signatures (gather nonce) nonce did signature_hex
              service.ledger)
            token ttl same in
        (
          nonce,
          a.0,
          refl,
          decide_inv signatures gather nonce did signature_hex service.ledger a.0 a.1,
          a.2,
        )

    -- A successful authentication had a live challenge, a registered public key under which the
    -- signature of the nonce and the DID holds, and three of the gathered proofs that recover a secret
    -- whose hash is the one that the ledger has for the DID; it adds one AUTH_SUCCESS row.
    pub authenticate-IsAuthentic :
        (gather : Bytes → Result (List Proof)) (did challenge_id signature_hex : Str)
        (service : Service) (token : Str) (ttl : ℕ)
        → (authenticate hashing codec p signatures base64 pqc_available system_key moment gather did
            challenge_id signature_hex service).0
          ≡ ok (success token ttl)
        → (nonce : Bytes) × (chosen : List Proof) × ((consume moment.now challenge_id
              service.challenges).0
            ≡ some nonce)
          × IsAuthentic signatures gather nonce did signature_hex service.ledger chosen
          × ((authenticate hashing codec p signatures base64 pqc_available system_key moment gather
                did challenge_id signature_hex service).1.ledger
              ≡ (append hashing codec
                  (codes "AUTH_SUCCESS")
                  did
                  (success_fields hashing codec p base64 chosen token)
                  moment.timestamp
                  service.ledger).0)
    unfolding authenticate
    authenticate-IsAuthentic gather did challenge_id signature_hex service token ttl same =
        continue_with_inv gather did signature_hex
          (record service { challenges = (consume moment.now challenge_id service.challenges).1 })
          (consume moment.now challenge_id service.challenges).0 token ttl same
