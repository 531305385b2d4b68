-- ===== src/Api/Transports.antt =====
-- api/main.py: the endpoint for authentications over either transport.
use decentralized_idp.Prelude.{
  ℕ, ◌≤◌, ◌<◌, ◌≡◌, refl, sym, ap, ap₂, ◌∙◌, List, [], ◌∷◌, Bool, Option, none, some, ok, All,
  length,
}
use decentralized_idp.Stdlib.Bytes.{Bytes, Str}
use decentralized_idp.Stdlib.Hex.{hex}
use decentralized_idp.Stdlib.Json.{Codec}
use decentralized_idp.External.{Hashing, Aead, Signatures, Base64}
use decentralized_idp.Node.Answers.{Node, ids_of}
use decentralized_idp.Node.Transport.{find_node, register_all}
use decentralized_idp.Node.Http.{
  Network, Peers, find_peer, local_transport, http_transport, request_from,
}
use decentralized_idp.Authentication.Challenge.{peek}
use decentralized_idp.Authentication.Flow.{Service, Moment, cons_some}
use decentralized_idp.Api.{System, gather_proofs, authenticate_user}
use decentralized_idp.Api.Equivalence.{IsServed, request_over_http-request_partial_proof}
use decentralized_idp.Api.Collection.{authenticate-gather, authenticate_user-gather_proofs}
use decentralized_idp.Api.EndToEnd.{collect_from-local}

-- The peer with the id has an address that leads to the service of the node with the id.
pub record IsReached (hashing : Hashing) (aead : Aead) (p : ℕ) (network : Network) (draw : ℕ → ℕ)
    (did nonce_hex : Str) (peers : Peers) (nodes : List Node) (id : ℕ) : Type 0 where
  pub addr : Str
  pub node : Node
  pub peer : find_peer id peers ≡ some addr
  pub found : find_node id (register_all nodes []) ≡ some node
  pub served : IsServed hashing aead p network (draw id) did nonce_hex addr node

module _ (hashing : Hashing) (aead : Aead) (p : ℕ) (network : Network) where
  -- The proofs are the same over both transports.
  gather_proofs-IsReached :
      (draw : ℕ → ℕ) (did nonce_hex : Str) (peers : Peers) (nodes : List Node) (ids : List ℕ)
      → All (IsReached hashing aead p network draw did nonce_hex peers nodes) ids
      → gather_proofs hashing aead p network draw did nonce_hex (http_transport peers) ids
        ≡ gather_proofs hashing aead p network draw did nonce_hex
            (local_transport (register_all nodes []))
            ids
  unfolding gather_proofs request_from
  gather_proofs-IsReached draw did nonce_hex peers nodes [] reached = refl
  gather_proofs-IsReached draw did nonce_hex peers nodes (id ∷ rest) (here, reached) =
      ap₂ cons_some
        (request_over_http-request_partial_proof hashing aead p network (draw id) id did nonce_hex
          here.addr here.node peers (register_all nodes []) here.peer here.found here.served)
        (gather_proofs-IsReached draw did nonce_hex peers nodes rest reached)

  module _ (codec : Codec) (signatures : Signatures) (base64 : Base64) (pqc_available : Bool)
      (system_key : Option Bytes) where
    -- Over HTTP, with every node's service at the address of its peer, the endpoint for authentications
    -- returns, and leaves in the ledger and among the challenges, what it does over the in-process
    -- transport when the nodes answer in their order; the look at the challenge comes no later than its
    -- use, and there is a node.
    pub authenticate_user-transports :
        (peeked : ℕ) (moment : Moment) (draw : ℕ → ℕ) (completed : List ℕ)
        (did challenge_id signature : Str) (system : System) (peers : Peers)
        → system.peers ≡ some peers
        → peeked ≤ moment.now
        → 0 < length (ids_of system.nodes)
        → ((nonce : Bytes)
            → All
                (IsReached hashing aead p network draw did (hex nonce) peers system.nodes)
                (ids_of system.nodes))
        → let over_http =
            authenticate_user hashing aead p network codec signatures base64 pqc_available
              system_key peeked moment draw completed did challenge_id signature system in
          let in_process =
            authenticate_user hashing aead p network codec signatures base64 pqc_available
              system_key peeked moment draw
              (ids_of system.nodes)
              did
              challenge_id
              signature
              (record system { peers = none }) in
          (over_http.0 ≡ in_process.0)
          × (over_http.1.ledger ≡ in_process.1.ledger)
          × (over_http.1.challenges ≡ in_process.1.challenges)
    unfolding authenticate_user
    authenticate_user-transports peeked moment draw completed did challenge_id signature system
          peers http before some_node reached =
        let whole =
          authenticate_user-gather_proofs hashing codec p signatures base64 pqc_available system_key
            aead network peeked moment draw completed did challenge_id signature system peers http
            before in
        let service : Service = record { challenges = system.challenges; ledger = system.ledger } in
        let same =
          authenticate-gather hashing codec p signatures base64 pqc_available system_key moment _ _
            did challenge_id signature service
            (λ nonce used.
              ap ok (
                gather_proofs-IsReached draw did (hex nonce) peers system.nodes
                  (ids_of system.nodes) (reached nonce))
              ∙ sym (
                  collect_from-local hashing aead p network draw did system.nodes
                    (register_all system.nodes []) (peek peeked challenge_id system.challenges)
                    (ids_of system.nodes) nonce some_node)) in
        (
          ap (λ u. u.0) whole ∙ ap (λ u. u.0) same,
          ap (λ u. u.1.ledger) whole ∙ ap (λ u. u.1.ledger) same,
          ap (λ u. u.1.challenges) whole ∙ ap (λ u. u.1.challenges) same,
        )
