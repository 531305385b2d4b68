-- ===== src/Authentication/Flow/Soundness.antt =====
-- authentication/authenticate.py: what every authentication leaves behind, and that a challenge works
-- once.
use decentralized_idp.Prelude.{
  ℕ, ◌≡◌, refl, ap, ◌∙◌, List, Bool, Option, none, some, Result, ok, err,
}
use decentralized_idp.Stdlib.Bytes.{Bytes, Str, codes}
use decentralized_idp.Stdlib.Json.{Codec}
use decentralized_idp.External.{Hashing, Signatures, Base64}
use decentralized_idp.Node.PartialProof.{Proof}
use decentralized_idp.Ledger.{Ledger, verify_chain}
use decentralized_idp.Ledger.Chain.{verify_chain-append}
use decentralized_idp.Authentication.Challenge.{consume}
use decentralized_idp.Authentication.Challenge.SingleUse.{Action, perform_all, Avoids, consume_once}
use decentralized_idp.Authentication.Tokens.{issue_token}
use decentralized_idp.Authentication.Flow.{
  Service, failed, Verdict, unknown_did, rejected, accepted, Moment, reason_fields, node_ids,
  success_fields, grant, conclude, continue_with, decide, authenticate,
}

module _ (hashing : Hashing) (codec : Codec) (p : ℕ) (signatures : Signatures) (base64 : Base64)
    (pqc_available : Bool) (system_key : Option Bytes) where
  grant-verify_chain :
      (moment : Moment) (did : Str) (chosen : List Proof) (service : Service) (r : Result Str)
      → verify_chain hashing codec
          (grant hashing codec p base64 moment did chosen service r).1.ledger
        ≡ verify_chain hashing codec service.ledger
  unfolding grant
  grant-verify_chain moment did chosen service (err e) = refl
  grant-verify_chain moment did chosen service (ok token) =
      verify_chain-append hashing codec (codes "AUTH_SUCCESS") did
        (success_fields hashing codec p base64 chosen token) moment.timestamp service.ledger

  conclude-verify_chain :
      (moment : Moment) (did : Str) (service : Service) (r : Result Verdict)
      → verify_chain hashing codec
          (conclude hashing codec p signatures base64 pqc_available system_key moment did service
            r).1.ledger
        ≡ verify_chain hashing codec service.ledger
  unfolding conclude
  conclude-verify_chain moment did service (err e) = refl
  conclude-verify_chain moment did service (ok unknown_did) = refl
  conclude-verify_chain moment did service (ok (rejected reason)) =
      verify_chain-append hashing codec (codes "AUTH_FAIL") did
        (reason_fields hashing codec p reason) moment.timestamp service.ledger
  conclude-verify_chain moment did service (ok (accepted chosen)) =
      grant-verify_chain moment did chosen service (
        issue_token signatures codec pqc_available system_key moment.token_seconds moment.jti did
          (node_ids hashing codec p chosen))

  continue_with-verify_chain :
      (moment : Moment) (gather : Bytes → Result (List Proof)) (did signature_hex : Str)
      (service : Service) (nonce : Option Bytes)
      → verify_chain hashing codec
          (continue_with hashing codec p signatures base64 pqc_available system_key moment gather
            did signature_hex service nonce).1.ledger
        ≡ verify_chain hashing codec service.ledger
  unfolding continue_with
  continue_with-verify_chain moment gather did signature_hex service none = refl
  continue_with-verify_chain moment gather did signature_hex service (some nonce) =
      conclude-verify_chain moment did service
        (decide hashing codec p signatures (gather nonce) nonce did signature_hex service.ledger)

  -- Whatever an authentication comes to, the ledger verifies after it exactly when it did before.
  pub authenticate-verify_chain :
      (moment : Moment) (gather : Bytes → Result (List Proof))
      (did challenge_id signature_hex : Str) (service : Service)
      → verify_chain hashing codec
          (authenticate hashing codec p signatures base64 pqc_available system_key moment gather did
            challenge_id signature_hex service).1.ledger
        ≡ verify_chain hashing codec service.ledger
  unfolding authenticate
  authenticate-verify_chain moment gather did challenge_id signature_hex service =
      continue_with-verify_chain moment gather did signature_hex
        (record service { challenges = (consume moment.now challenge_id service.challenges).1 })
        (consume moment.now challenge_id service.challenges).0

  grant-challenges :
      (moment : Moment) (did : Str) (chosen : List Proof) (service : Service) (r : Result Str)
      → (grant hashing codec p base64 moment did chosen service r).1.challenges ≡ service.challenges
  unfolding grant
  grant-challenges moment did chosen service (err e) = refl
  grant-challenges moment did chosen service (ok token) = refl

  conclude-challenges :
      (moment : Moment) (did : Str) (service : Service) (r : Result Verdict)
      → (conclude hashing codec p signatures base64 pqc_available system_key moment did service
          r).1.challenges
        ≡ service.challenges
  unfolding conclude
  conclude-challenges moment did service (err e) = refl
  conclude-challenges moment did service (ok unknown_did) = refl
  conclude-challenges moment did service (ok (rejected reason)) = refl
  conclude-challenges moment did service (ok (accepted chosen)) =
      grant-challenges moment did chosen service (
        issue_token signatures codec pqc_available system_key moment.token_seconds moment.jti did
          (node_ids hashing codec p chosen))

  continue_with-challenges :
      (moment : Moment) (gather : Bytes → Result (List Proof)) (did signature_hex : Str)
      (service : Service) (nonce : Option Bytes)
      → (continue_with hashing codec p signatures base64 pqc_available system_key moment gather did
          signature_hex service nonce).1.challenges
        ≡ service.challenges
  unfolding continue_with
  continue_with-challenges moment gather did signature_hex service none = refl
  continue_with-challenges moment gather did signature_hex service (some nonce) =
      conclude-challenges moment did service
        (decide hashing codec p signatures (gather nonce) nonce did signature_hex service.ledger)

  -- An authentication takes its challenge from the manager and changes no other.
  pub authenticate-challenges :
      (moment : Moment) (gather : Bytes → Result (List Proof))
      (did challenge_id signature_hex : Str) (service : Service)
      → (authenticate hashing codec p signatures base64 pqc_available system_key moment gather did
          challenge_id signature_hex service).1.challenges
        ≡ (consume moment.now challenge_id service.challenges).1
  unfolding authenticate
  authenticate-challenges moment gather did challenge_id signature_hex service =
      continue_with-challenges moment gather did signature_hex
        (record service { challenges = (consume moment.now challenge_id service.challenges).1 })
        (consume moment.now challenge_id service.challenges).0

  -- Without a live challenge an authentication fails and writes nothing to the ledger.
  authenticate_no_challenge :
      (moment : Moment) (gather : Bytes → Result (List Proof))
      (did challenge_id signature_hex : Str) (service : Service)
      → (consume moment.now challenge_id service.challenges).0 ≡ none
      → let result =
          authenticate hashing codec p signatures base64 pqc_available system_key moment gather did
            challenge_id signature_hex service in
        (result.0 ≡ ok (failed (codes "challenge_expired_or_invalid")))
        × (result.1.ledger ≡ service.ledger)
  unfolding authenticate continue_with
  authenticate_no_challenge moment gather did challenge_id signature_hex service gone =
      rw gone (refl, refl)

  -- A challenge that was used for an authentication, whatever that came to, makes every later
  -- authentication with it fail without a row in the ledger: with any DID, signature, answers and
  -- time, and whatever happens to the challenges in between, unless its id is issued again.
  pub authenticate_once :
      (first second : Moment) (gather gather' : Bytes → Result (List Proof))
      (did did' challenge_id signature_hex signature_hex' : Str) (service : Service)
      (actions : List Action) (ledger' : Ledger)
      → Avoids challenge_id actions
      → let after =
          (authenticate hashing codec p signatures base64 pqc_available system_key first gather did
            challenge_id signature_hex service).1 in
        let result =
          authenticate hashing codec p signatures base64 pqc_available system_key second gather'
            did' challenge_id signature_hex'
            (record { challenges = perform_all actions after.challenges; ledger = ledger' }) in
        (result.0 ≡ ok (failed (codes "challenge_expired_or_invalid")))
        × (result.1.ledger ≡ ledger')
  authenticate_once first second gather gather' did did' challenge_id signature_hex signature_hex'
        service actions ledger' avoid =
      let after =
        (authenticate hashing codec p signatures base64 pqc_available system_key first gather did
          challenge_id signature_hex service).1 in
      authenticate_no_challenge second gather' did' challenge_id signature_hex'
        (record { challenges = perform_all actions after.challenges; ledger = ledger' })
        (ap (λ m. (consume second.now challenge_id (perform_all actions m)).0)
            (authenticate-challenges first gather did challenge_id signature_hex service)
          ∙ consume_once challenge_id first.now second.now actions service.challenges avoid)
