-- ===== src/Api/Collection.antt =====
-- api/main.py: the proofs that are collected before the challenge is consumed, in HTTP mode.
use decentralized_idp.Prelude.{
  ℕ, ◌≤◌, ◌≡◌, refl, ap, false, List, Bool, Option, none, some, Option-cases, inl, inr, Result, ok,
  arith, ltb, Bool-cases,
}
use decentralized_idp.Stdlib.Bytes.{Bytes, Str}
use decentralized_idp.Stdlib.Hex.{hex}
use decentralized_idp.Stdlib.Dict.{lookup}
use decentralized_idp.Stdlib.Json.{Codec}
use decentralized_idp.External.{Hashing, Aead, Signatures, Base64}
use decentralized_idp.Node.PartialProof.{Proof}
use decentralized_idp.Node.Answers.{ids_of}
use decentralized_idp.Node.Http.{Network, Peers, http_transport}
use decentralized_idp.Authentication.Challenge.{
  Manager, Pending, live_nonce, consume_entry, peek, consume,
}
use decentralized_idp.Authentication.Flow.{Service, Moment, continue_with, authenticate}
use decentralized_idp.Api.{System, gather_proofs, pre_proofs, collect_from, authenticate_user}

-- A use of a challenge gets the nonce that an earlier look at it saw, or nothing.
consume_entry-live_nonce :
    (earlier now : ℕ) (id : Str) (entry : Option Pending) (m : Manager) (nonce : Bytes)
    → earlier ≤ now
    → (consume_entry now id entry m).0 ≡ some nonce
    → live_nonce earlier entry ≡ some nonce
consume_entry-live_nonce earlier now id none m nonce h e = absurd (cc e)
consume_entry-live_nonce earlier now id (some entry) m nonce h e =
    elim (Bool-cases (ltb entry.expires_at now)) [
      | inl late ↦ absurd (cc (rw late at e))
      | inr live ↦
          let early : ltb entry.expires_at earlier ≡ false = ground arith in rw early (rw live at e)
    ]

-- A look at a challenge before its use sees the nonce that the use gets.
peek-consume :
    (earlier now : ℕ) (id : Str) (m : Manager) (nonce : Bytes)
    → earlier ≤ now
    → (consume now id m).0 ≡ some nonce
    → peek earlier id m ≡ some nonce
unfolding peek consume
peek-consume earlier now id m nonce h e =
    consume_entry-live_nonce earlier now id (lookup id m) m nonce h e

module _ (hashing : Hashing) (codec : Codec) (p : ℕ) (signatures : Signatures) (base64 : Base64)
    (pqc_available : Bool) (system_key : Option Bytes) where
  -- The flow depends on the proofs for the nonce of its challenge alone.
  pub authenticate-gather :
      (moment : Moment) (gather gather' : Bytes → Result (List Proof))
      (did challenge_id signature_hex : Str) (service : Service)
      → ((nonce : Bytes)
          → (consume moment.now challenge_id service.challenges).0 ≡ some nonce
          → gather nonce ≡ gather' nonce)
      → authenticate hashing codec p signatures base64 pqc_available system_key moment gather did
          challenge_id signature_hex service
        ≡ authenticate hashing codec p signatures base64 pqc_available system_key moment gather' did
            challenge_id signature_hex service
  unfolding authenticate continue_with
  authenticate-gather moment gather gather' did challenge_id signature_hex service same =
      elim (Option-cases (consume moment.now challenge_id service.challenges).0) [
        | inl gone ↦ rw gone refl
        | inr (nonce, there) ↦ rw (there, same nonce there) refl
      ]

  module _ (aead : Aead) (network : Network) where
    -- In HTTP mode, collecting the proofs before the challenge is consumed changes nothing: the
    -- endpoint does what the service does that requests them, in the order of the nodes, for the nonce
    -- that it consumed, when the look at the challenge comes no later than its use.
    pub authenticate_user-gather_proofs :
        (peeked : ℕ) (moment : Moment) (draw : ℕ → ℕ) (completed : List ℕ)
        (did challenge_id signature : Str) (system : System) (peers : Peers)
        → system.peers ≡ some peers
        → peeked ≤ moment.now
        → let direct =
            authenticate hashing codec p signatures base64 pqc_available system_key moment
              (λ nonce. ok (
                gather_proofs hashing aead p network draw did
                  (hex nonce)
                  (http_transport peers)
                  (ids_of system.nodes)))
              did
              challenge_id
              signature
              (record { challenges = system.challenges; ledger = system.ledger }) in
          authenticate_user hashing aead p network codec signatures base64 pqc_available system_key
            peeked moment draw completed did challenge_id signature system
          ≡ (direct.0, record system { challenges = direct.1.challenges; ledger = direct.1.ledger })
    unfolding authenticate_user
    authenticate_user-gather_proofs peeked moment draw completed did challenge_id signature system
          peers http before =
        ap (λ out. (out.0, record system { challenges = out.1.challenges; ledger = out.1.ledger }))
          (authenticate-gather moment _ _ did challenge_id signature
            (record { challenges = system.challenges; ledger = system.ledger })
            (λ nonce used.
              rw
                (
                  http,
                  peek-consume peeked moment.now challenge_id system.challenges nonce before used,
                )
                (unfold pre_proofs collect_from in refl)))
