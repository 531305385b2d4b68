-- ===== src/Simulate/Replay.antt =====
-- simulate/attacks.py: an intercepted authentication message that is sent again.
use decentralized_idp.Prelude.{ℕ, ◌≡◌, List, Bool, Option, none, Result, ok}
use decentralized_idp.Stdlib.Bytes.{Bytes, Str, codes}
use decentralized_idp.Stdlib.Json.{Codec}
use decentralized_idp.External.{Hashing, Aead, Signatures, Base64}
use decentralized_idp.Node.PartialProof.{Proof}
use decentralized_idp.Node.Transport.{Transport}
use decentralized_idp.Ledger.{Ledger}
use decentralized_idp.Authentication.Challenge.SingleUse.{Action, Avoids, perform_all}
use decentralized_idp.Authentication.Flow.{Service, Moment, failed, authenticate, collect}
use decentralized_idp.Authentication.Flow.Soundness.{authenticate_once}
use decentralized_idp.Simulate.{intercept, replay}

module _ (hashing : Hashing) (aead : Aead) (codec : Codec) (p : ℕ) (signatures : Signatures)
    (base64 : Base64) (pqc_available : Bool) (system_key : Option Bytes) where
  -- A message that was intercepted and then authenticated with, whatever that came to, is refused when
  -- it is replayed, without a row in the ledger: at any later time, with any nodes, and whatever
  -- happens to the challenges and the ledger in between, unless the challenge's id is issued again.
  pub replay_fails :
      (first second : Moment) (gather : Bytes → Result (List Proof)) (draw : ℕ → ℕ)
      (nodes : Transport) (completed : List ℕ) (did challenge_id signature_hex : Str)
      (service : Service) (actions : List Action) (ledger' : Ledger)
      → Avoids challenge_id actions
      → let after =
          (authenticate hashing codec p signatures base64 pqc_available system_key first gather did
            challenge_id signature_hex service).1 in
        let result =
          replay hashing aead codec p signatures base64 pqc_available system_key second draw nodes
            completed
            (intercept did challenge_id signature_hex)
            (record { challenges = perform_all actions after.challenges; ledger = ledger' }) in
        (result.0 ≡ ok (failed (codes "challenge_expired_or_invalid")))
        × (result.1.ledger ≡ ledger')
  unfolding replay
  replay_fails first second gather draw nodes completed did challenge_id signature_hex service
        actions ledger' avoid =
      authenticate_once hashing codec p signatures base64 pqc_available system_key first second
        gather (collect hashing aead p none draw did nodes completed) did did challenge_id
        signature_hex signature_hex service actions ledger' avoid
