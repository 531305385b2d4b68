-- ===== src/Api/EndToEnd.antt =====
-- api/main.py: from a registration over a challenge to an authentication, with the in-process transport.
use decentralized_idp.Api.Gathering.{gather_proofs-IsReady, DistinctIds-map, map-take}
use decentralized_idp.Prelude.{
  ℕ, ◌+◌, ◌*◌, ◌%◌, ◌≤◌, ◌<◌, ◌≡◌, ◌≢◌, refl, sym, ap, subst, ◌∙◌, List, [], ◌∷◌, take, Bool, true,
  false, Option, none, Result, ok, err, ok_injective, arith, All, Elem, length, length-map, ltb,
  inl, inr,
}
use decentralized_idp.Stdlib.Bytes.{Bytes, Str, from_bytes}
use decentralized_idp.Stdlib.Hex.{hex}
use decentralized_idp.Stdlib.Json.{Codec, IsCodec}
use decentralized_idp.External.{
  Hashing, IsHashing, Aead, IsAead, Kem, Derivation, Signatures, Base64,
}
use decentralized_idp.Arith.Prime.{IsPrime}
use decentralized_idp.Crypto.{challenge_ttl_seconds}
use decentralized_idp.Crypto.Lagrange.{Share}
use decentralized_idp.Crypto.Interpolation.{Distinct}
use decentralized_idp.Node.Answers.{Node, ids_of}
use decentralized_idp.Node.Transport.{Transport, register_all}
use decentralized_idp.Node.Http.{Network, local_transport}
use decentralized_idp.Registration.{Supply, Registered, State}
use decentralized_idp.Registration.Readiness.{IsGiven-IsReady}
use decentralized_idp.Crypto.Sss.{generate_shares}
use decentralized_idp.Crypto.Sharing.{count_from, generate_shares_total}
use decentralized_idp.Crypto.Recovery.{xs_of}
use decentralized_idp.Crypto.Hkdf.{derive_identity_secret}
use decentralized_idp.Registration.Recoverable.{outcome, register-IsDistributed}
use decentralized_idp.Authentication.Challenge.{second, issue, peek}
use decentralized_idp.Authentication.Challenge.SingleUse.{consume-issue}
use decentralized_idp.Authentication.Tokens.{issue_token}
use decentralized_idp.Authentication.Flow.{Moment, success, signature_holds}
use decentralized_idp.Authentication.Flow.Completeness.{IsAnswered, authenticate_complete}
use decentralized_idp.Api.{
  System, registered, respond, register_user, get_challenge, gather_proofs, pre_proofs,
  collect_from, authenticate_user,
}

-- In local mode the service collects the proofs itself.
pub collect_from-local :
    (hashing : Hashing) (aead : Aead) (p : ℕ) (network : Network) (draw : ℕ → ℕ) (did : Str)
    (nodes : List Node) (t : Transport) (seen : Option Bytes) (completed : List ℕ) (nonce : Bytes)
    → 0 < length completed
    → collect_from hashing aead p network draw did
        (local_transport t)
        completed
        (pre_proofs hashing aead p network draw did nodes (local_transport t) seen)
        nonce
      ≡ ok (gather_proofs hashing aead p network draw did (hex nonce) (local_transport t) completed)
unfolding collect_from pre_proofs
collect_from-local hashing aead p network draw did nodes t seen [] nonce some_id =
    absurd (omega arith)
collect_from-local hashing aead p network draw did nodes t seen (id ∷ rest) nonce some_id = refl

respond-inv :
    (result : Result Registered) (r : Registered) → respond result ≡ registered r → result ≡ ok r
respond-inv (ok found) r e = ap ok (inv e)
  where
    inv : {a b : Registered} → registered a ≡ registered b → a ≡ b
    inv same = cc
respond-inv (err x) r e = absurd (cc e)

shares_numbered :
    (draw : ℕ → ℕ) (secret p : ℕ) (shares : List Share)
    → generate_shares draw secret 3 5 p ≡ ok shares
    → xs_of shares ≡ count_from 1 5
shares_numbered draw secret p shares e = elim (generate_shares_total draw secret 3 5 p) [
  | inl (made, returned, len, xs, sharable) ↦ ap xs_of (ok_injective (sym e ∙ returned)) ∙ xs
  | inr (raised, bad) ↦ absurd (cc (sym raised ∙ e))
]

module _ (hashing : Hashing) (aead : Aead) (kem : Kem) (derivation : Derivation) (codec : Codec)
    (signatures : Signatures) (base64 : Base64) (network : Network) (pqc_available : Bool) (p : ℕ)
    (law : IsHashing hashing) (sealed : IsAead aead) (written : IsCodec codec) (prime : IsPrime p)
    (large : 5 < p) where
  -- A user who registers, asks for a challenge and answers it within 30 seconds with a signature
  -- that holds is authenticated, with the issued token and an `expires_in` of 60: over a prime above 5,
  -- where the nodes are up, honest and numbered from 1, three or more of them answer, in whatever
  -- order, the H of the challenge is not zero in the field, the system key signs, the public key
  -- and the nonce are bytes, and the transport is the in-process one.
  pub register_user-authenticate_user :
      (system_key : Option Bytes) (password : Str) (s : Supply) (system : System) (r : Registered)
      (nonce : Bytes) (challenge_id : Str) (issued peeked : ℕ) (moment : Moment) (draw : ℕ → ℕ)
      (completed : List ℕ) (signature token : Str)
      → let after =
          register_user hashing aead kem derivation codec pqc_available p password s system in
        system.peers ≡ none
        → All (λ b. b < 256) s.public_key
        → All (λ b. b < 256) nonce
        → ids_of system.nodes ≡ count_from 1 (length system.nodes)
        → All (λ node. (node.online ≡ true) × (node.byzantine ≡ false)) system.nodes
        → after.0 ≡ registered r
        → from_bytes (hashing.sha3_256 nonce) % p ≢ 0
        → 3 ≤ length completed
        → Distinct completed
        → All (λ id. Elem id (ids_of system.nodes)) completed
        → moment.now ≤ issued + challenge_ttl_seconds * second
        → signature_holds hashing codec p signatures s.public_key nonce r.did signature ≡ true
        → issue_token signatures codec pqc_available system_key moment.token_seconds moment.jti
            r.did
            (take 3 completed)
          ≡ ok token
        → (authenticate_user hashing aead p network codec signatures base64 pqc_available system_key
            peeked moment draw completed r.did challenge_id signature
            (get_challenge nonce challenge_id issued r.did after.1).1).0
          ≡ ok (success token 60)
  unfolding register_user get_challenge authenticate_user
  register_user-authenticate_user system_key password s system r nonce challenge_id issued peeked
        moment draw completed signature token local bytes nonce_bytes numbered up done unit enough
        apart asked soon signed token_issued =
      let start : State = record {
        nodes = system.nodes;
        ledger = system.ledger;
        files = system.files;
      } in
      let ended = outcome hashing aead kem derivation codec pqc_available p password s start in
      let left =
        register-IsDistributed hashing aead kem derivation codec pqc_available p prime large sealed
          written password s start r bytes (respond-inv ended.0 r done) in
      let secret = derive_identity_secret hashing p s.public_key s.registration_nonce password in
      let ready =
        IsGiven-IsReady hashing aead r.did left.shares 0 5 system.nodes ended.1.nodes
          (shares_numbered s.draw secret p left.shares left.shared) numbered up left.given in
      let proofs =
        gather_proofs-IsReady hashing aead p law network draw r.did nonce left.shares ended.1.nodes
          completed nonce_bytes ready.0
          (subst (λ ids. All (λ id. Elem id ids) completed) (sym ready.1) asked) in
      let answered : IsAnswered hashing p s.draw secret left.shares nonce proofs.0 = record {
        hash = law;
        prime = prime;
        large = large;
        shared = left.shared;
        unit = unit;
        answers = proofs.2;
        indices = subst Distinct (sym proofs.4) apart;
        ids = DistinctIds-map proofs.0 (subst Distinct (sym proofs.3) apart);
        enough = omega (arith, enough, ap length proofs.3, length-map proofs.0 (λ q. q.node_id));
      } in
      let live = ltb (issued + challenge_ttl_seconds * second) moment.now in
      let in_time : live ≡ false = ground (arith, soon) in
      authenticate_complete hashing codec p s.draw secret left.shares nonce proofs.0 answered
        signatures base64 pqc_available system_key moment _ r.did challenge_id signature
        (record {
          challenges = (issue nonce challenge_id issued r.did system.challenges).0;
          ledger = ended.1.ledger;
        })
        s.public_key left.commitment token
        (consume-issue nonce challenge_id issued moment.now r.did system.challenges
          ∙ rw in_time refl)
        left.known signed
        (rw local (
            collect_from-local hashing aead p network draw r.did ended.1.nodes
              (register_all ended.1.nodes [])
              (peek peeked challenge_id (issue nonce challenge_id issued r.did system.challenges).0)
              completed nonce (omega (arith, enough)))
          ∙ ap ok proofs.1)
        left.hashed left.registered
        (ap
            (issue_token signatures codec pqc_available system_key moment.token_seconds moment.jti
              r.did)
            (map-take (λ q. q.node_id) 3 proofs.0 ∙ ap (take 3) proofs.3)
          ∙ token_issued)
