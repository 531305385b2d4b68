-- ===== src/Authentication/Flow/Assertion.antt =====
-- authentication/authenticate.py and iat.py: the token that a successful authentication returns.
use decentralized_idp.Prelude.{
  ℕ, ◌+◌, ◌*◌, ◌<◌, ◌≡◌, refl, List, Bool, Option, none, some, true, Result, ok, err, All, ltb,
  if◌then◌else◌,
}
use decentralized_idp.Stdlib.Bytes.{Bytes, Str}
use decentralized_idp.Stdlib.Json.{object, Fields, get_field, Codec, IsCodec}
use decentralized_idp.External.{Hashing, Signatures, Base64, IsBase64}
use decentralized_idp.Crypto.{iat_ttl_seconds}
use decentralized_idp.Node.PartialProof.{Proof}
use decentralized_idp.Authentication.Challenge.{second, consume}
use decentralized_idp.Authentication.Tokens.{token_fields, issue_token, verify_iat}
use decentralized_idp.Authentication.Tokens.RoundTrip.{verify_iat-issue_token}
use decentralized_idp.Authentication.Flow.Success.{IsAuthentic, decide_inv}
use decentralized_idp.Authentication.Flow.{
  Service, success, Verdict, unknown_did, rejected, accepted, Moment, node_ids, grant, conclude,
  continue_with, decide, authenticate,
}

module _ (hashing : Hashing) (codec : Codec) (p : ℕ) (signatures : Signatures) (base64 : Base64)
    (pqc_available : Bool) (system_key : Option Bytes) (moment : Moment) where
  abbrev issued_for : Str → List Proof → Result Str
  issued_for did chosen =
      issue_token signatures codec pqc_available system_key moment.token_seconds moment.jti did
        (node_ids hashing codec p chosen)

  grant_issued :
      (did : Str) (chosen : List Proof) (service : Service) (r : Result Str) (token : Str) (ttl : ℕ)
      → (grant hashing codec p base64 moment did chosen service r).0 ≡ ok (success token ttl)
      → (r ≡ ok token) × (ttl ≡ iat_ttl_seconds)
  unfolding grant
  grant_issued did chosen service (err e) token ttl same = cc
  grant_issued did chosen service (ok issued) token ttl same = parts issued iat_ttl_seconds same
    where
      parts :
          (a : Str) (n : ℕ)
          → ok (success a n) ≡ ok (success token ttl)
          → (ok a ≡ ok token) × (ttl ≡ n)
      parts a n e = (cc, cc)

  conclude_issued :
      (did : Str) (service : Service) (r : Result Verdict) (token : Str) (ttl : ℕ)
      → (conclude hashing codec p signatures base64 pqc_available system_key moment did service r).0
        ≡ ok (success token ttl)
      → (chosen : List Proof) × (r ≡ ok (accepted chosen))
        × (issued_for did chosen ≡ ok token)
        × (ttl ≡ iat_ttl_seconds)
  unfolding conclude
  conclude_issued did service (err e) token ttl same = cc
  conclude_issued did service (ok unknown_did) token ttl same = cc
  conclude_issued did service (ok (rejected reason)) token ttl same = cc
  conclude_issued did service (ok (accepted chosen)) token ttl same =
      let granted = grant_issued did chosen service (issued_for did chosen) token ttl same in
      (chosen, refl, granted.0, granted.1)

  continue_issued :
      (gather : Bytes → Result (List Proof)) (did signature_hex : Str) (service : Service)
      (o : Option Bytes) (token : Str) (ttl : ℕ)
      → (continue_with hashing codec p signatures base64 pqc_available system_key moment gather did
          signature_hex service o).0
        ≡ ok (success token ttl)
      → (nonce : Bytes) × (o ≡ some nonce)
        × (chosen : List Proof) × (decide hashing codec p signatures
              (gather nonce)
              nonce
              did
              signature_hex
              service.ledger
            ≡ ok (accepted chosen))
        × (issued_for did chosen ≡ ok token)
        × (ttl ≡ iat_ttl_seconds)
  unfolding continue_with
  continue_issued gather did signature_hex service none token ttl same = cc
  continue_issued gather did signature_hex service (some nonce) token ttl same =
      let issued =
        conclude_issued did service
          (decide hashing codec p signatures (gather nonce) nonce did signature_hex service.ledger)
          token ttl same in
      (nonce, refl, issued.0, issued.1, issued.2, issued.3)

-- The token of a successful authentication is accepted by `verify_iat` up to the moment 60 seconds
-- after the second of its issue, that moment included, and refused after it; its payload has the fields
-- of a token for the DID with, as quorum, the nodes of three gathered proofs that recover a secret
-- whose hash is the one that the ledger has for the DID; `expires_in` is 60. The system's keys are a
-- pair, its signatures are bytes, and so is the payload's text.
pub authenticate-verify_iat :
    (hashing : Hashing) (codec : Codec) (p : ℕ) (signatures : Signatures) (base64 : Base64)
    (pqc_available : Bool) (private_key public_key : Bytes) (moment : Moment)
    (gather : Bytes → Result (List Proof)) (did challenge_id signature_hex : Str)
    (service : Service) (token : Str) (ttl now : ℕ)
    → IsCodec codec
    → IsBase64 base64
    → ((message signature : Bytes)
        → signatures.sign private_key message ≡ ok signature
        → (signatures.verify public_key message signature ≡ ok true) × All (λ c. c < 256) signature)
    → ((nonce : Bytes) (chosen : List Proof)
        → (consume moment.now challenge_id service.challenges).0 ≡ some nonce
        → decide hashing codec p signatures (gather nonce) nonce did signature_hex service.ledger
          ≡ ok (accepted chosen)
        → All
            (λ c. c < 256)
            (codec.dumps (
              object (
                token_fields did moment.token_seconds moment.jti
                  (node_ids hashing codec p chosen)))))
    → (authenticate hashing codec p signatures base64 pqc_available
        (some private_key)
        moment
        gather
        did
        challenge_id
        signature_hex
        service).0
      ≡ ok (success token ttl)
    → (nonce : Bytes) × (chosen : List Proof) × IsAuthentic hashing codec p signatures gather nonce
        did signature_hex service.ledger chosen
      × (ttl ≡ iat_ttl_seconds)
      × (payload : Fields) × (verify_iat signatures codec base64 (some public_key) now token ≡ (
          if ltb ((moment.token_seconds + iat_ttl_seconds) * second) now
          then none
          else some (object payload)))
      × ((k : Str)
          → get_field k payload
            ≡ get_field k (
                token_fields did moment.token_seconds moment.jti (node_ids hashing codec p chosen)))
unfolding authenticate
authenticate-verify_iat hashing codec p signatures base64 pqc_available private_key public_key
      moment gather did challenge_id signature_hex service token ttl now written law64 pair bytes
      done =
    let issued =
      continue_issued hashing codec p signatures base64 pqc_available (some private_key) moment
        gather did signature_hex
        (record service { challenges = (consume moment.now challenge_id service.challenges).1 })
        (consume moment.now challenge_id service.challenges).0 token ttl done in
    let nonce = issued.0 in
    let chosen = issued.2 in
    let quorum = node_ids hashing codec p chosen in
    let read =
      verify_iat-issue_token signatures codec base64 pqc_available private_key public_key
        moment.token_seconds now moment.jti did quorum token written law64 pair
        (bytes nonce chosen issued.1 issued.3) issued.4 in
    (
      nonce,
      chosen,
      decide_inv hashing codec p signatures gather nonce did signature_hex service.ledger chosen
          issued.3,
      issued.5,
      read.0,
      read.1,
      read.2,
    )
