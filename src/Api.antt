-- ===== src/Api.antt =====
-- api/main.py: the endpoints as functions of the system's state. Requests that do not have the fields
-- of their model are refused before these functions run; messages for the user are left out.
pub mod NodeService
pub mod Equivalence
pub mod Collection
pub mod Gathering
pub mod EndToEnd
pub mod Transports
use decentralized_idp.Prelude.{
  ℕ, zero, suc, ◌==◌, not, List, [], ◌∷◌, map, Bool, true, false, Option, none, some, Result, ok,
  err, Error, value_error, ◌>>=◌, if◌then◌else◌,
}
use decentralized_idp.Stdlib.Bytes.{Bytes, Str, codes, bytes_eq}
use decentralized_idp.Stdlib.Hex.{hex, from_hex}
use decentralized_idp.Stdlib.Dict.{Dict}
use decentralized_idp.Stdlib.Json.{Json, null, object, Fields, get_field, subscript, as_text, Codec}
use decentralized_idp.External.{Hashing, Aead, Kem, Derivation, Signatures, Base64}
use decentralized_idp.Node.PartialProof.{Proof}
use decentralized_idp.Node.Answers.{Node, ids_of, node_proof}
use decentralized_idp.Node.Transport.{register_all}
use decentralized_idp.Node.Http.{
  Network, Peers, NodeTransport, local_transport, http_transport, request_from, get_transport,
}
use decentralized_idp.Ledger.{Ledger, verify_chain}
use decentralized_idp.Registration.{State, Supply, Registered, register}
use decentralized_idp.Authentication.Challenge.{Manager, Issued, issue, peek}
use decentralized_idp.Authentication.Tokens.{verify_iat}
use decentralized_idp.Authentication.Flow.{Service, Outcome, Moment, authenticate, cons_some}
use decentralized_idp.Crypto.{n_nodes}
use decentralized_idp.Node.ShareStore.{ShareStore}
use decentralized_idp.Api.NodeService.{new_node, Reply, http_exception, reply_of}

-- The module's objects. The peers are those of the HTTP transport; without them the transport is the
-- local one, in which the nodes of the list are registered.
pub record System : Type 0 where
  pub nodes : List Node
  pub peers : Option Peers
  pub ledger : Ledger
  pub challenges : Manager
  pub files : Dict Str

abbrev pub transport_of : Option Peers → List Node → NodeTransport
transport_of none nodes = local_transport (register_all nodes [])
transport_of (some peers) nodes = http_transport peers

-- The nodes with the given ids, `range(1, N_NODES + 1)` where there are `left` from id on.
unfoldable pub make_nodes : (ℕ → ShareStore) → (ℕ → Bytes) → ℕ → ℕ → List Node
make_nodes stores kem_keys id zero = []
make_nodes stores kem_keys id (suc left) =
    new_node id (stores id) (kem_keys id) ∷ make_nodes stores kem_keys (suc id) left

abbrev pub peers_of : NodeTransport → Option Peers
peers_of (local_transport t) = none
peers_of (http_transport peers) = some peers

-- `lifespan`, given the environment's NODE_TRANSPORT and NODE_PEERS and what the nodes, the ledger and
-- the users' files hold on disk; the system's keys, which it loads too, are passed to the endpoints.
unfoldable pub start_system :
    Str → Str → (ℕ → ShareStore) → (ℕ → Bytes) → Ledger → Dict Str → System
start_system node_transport node_peers stores kem_keys ledger files = record {
  nodes = make_nodes stores kem_keys 1 n_nodes;
  peers = peers_of (get_transport node_transport node_peers);
  ledger = ledger;
  challenges = [];
  files = files;
}

-- `RegisterResponse`; an exception is turned into its text.
pub data RegisterResponse : Type 0 where
  registered : Registered → RegisterResponse
  register_error : Error → RegisterResponse

abbrev pub respond : Result Registered → RegisterResponse
respond (ok result) = registered result
respond (err e) = register_error e

-- `POST /register`
unfoldable pub register_user :
    Hashing
    → Aead
    → Kem
    → Derivation
    → Codec
    → Bool
    → ℕ
    → Str
    → Supply
    → System
    → RegisterResponse × System
register_user hashing aead kem derivation codec pqc_available p password supply system =
    let state : State = record {
      nodes = system.nodes;
      ledger = system.ledger;
      files = system.files;
    } in
    let (result, after) =
      register hashing aead kem derivation codec pqc_available p password supply state in
    (
      respond result,
      record system { nodes = after.nodes; ledger = after.ledger; files = after.files },
    )

-- `POST /challenge`, with what `issue` draws.
unfoldable pub get_challenge : Bytes → Str → ℕ → Str → System → Issued × System
get_challenge nonce challenge_id now did system =
    let (challenges, issued) = issue nonce challenge_id now did system.challenges in
    (issued, record system { challenges = challenges })

module _ (hashing : Hashing) (aead : Aead) (p : ℕ) (network : Network) where
  -- The requests to the nodes of the listed ids, in that order; answers that are None are dropped.
  unfoldable pub gather_proofs : (ℕ → ℕ) → Str → Str → NodeTransport → List ℕ → List Proof
  gather_proofs draw did nonce_hex transport [] = []
  gather_proofs draw did nonce_hex transport (id ∷ rest) =
      cons_some (request_from hashing aead p network (draw id) id did nonce_hex transport)
        (gather_proofs draw did nonce_hex transport rest)

  -- `pre_proofs`, where `now` is the time of `peek`.
  unfoldable pub pre_proofs :
      (ℕ → ℕ) → Str → List Node → NodeTransport → Option Bytes → Option (List Proof)
  pre_proofs draw did nodes (local_transport t) peeked = none
  pre_proofs draw did nodes (http_transport peers) none = none
  pre_proofs draw did nodes (http_transport peers) (some nonce) =
      some (gather_proofs draw did (hex nonce) (http_transport peers) (ids_of nodes))

  -- Step 4 of `authenticate` for either transport.
  unfoldable pub collect_from :
      (ℕ → ℕ) → Str → NodeTransport → List ℕ → Option (List Proof) → Bytes → Result (List Proof)
  collect_from draw did transport completed (some proofs) nonce = ok proofs
  collect_from draw did transport [] none nonce = err value_error
  collect_from draw did transport (id ∷ rest) none nonce =
      ok (gather_proofs draw did (hex nonce) transport (id ∷ rest))

  -- `POST /authenticate`; `peeked` is the time of `peek`, and `completed` lists the nodes' ids in the
  -- order in which their requests complete where the service itself collects the proofs.
  unfoldable pub authenticate_user :
      Codec
      → Signatures
      → Base64
      → Bool
      → Option Bytes
      → ℕ
      → Moment
      → (ℕ → ℕ)
      → List ℕ
      → Str
      → Str
      → Str
      → System
      → Result Outcome × System
  authenticate_user codec signatures base64 pqc_available system_key peeked moment draw completed
        did challenge_id signature system =
      let transport = transport_of system.peers system.nodes in
      let proofs =
        pre_proofs draw did system.nodes transport (peek peeked challenge_id system.challenges) in
      let service : Service = record { challenges = system.challenges; ledger = system.ledger } in
      let (result, after) =
        authenticate hashing codec p signatures base64 pqc_available system_key moment
          (collect_from draw did transport completed proofs) did challenge_id signature service in
      (result, record system { challenges = after.challenges; ledger = after.ledger })

-- The answer of `GET /verify`.
pub record Verified : Type 0 where
  pub valid : Bool
  pub did : Json
  pub expires_at : Json

abbrev pub or_none_value : Option Json → Json
or_none_value none = null
or_none_value (some value) = value

-- `payload.get(key)`; a payload that is accepted is a dictionary.
unfoldable pub get_value : Str → Json → Json
get_value key (object fs) = or_none_value (get_field key fs)
get_value key null = null
get_value key (Json.num n) = null
get_value key (Json.text s) = null
get_value key (Json.array js) = null

abbrev pub verified : Option Json → Verified
verified none = record { valid = false; did = null; expires_at = null }
verified (some payload) = record {
  valid = true;
  did = get_value (codes "sub") payload;
  expires_at = get_value (codes "exp") payload;
}

-- `GET /verify`
unfoldable pub verify_token : Signatures → Codec → Base64 → Option Bytes → ℕ → Str → Verified
verify_token signatures codec base64 key now token =
    verified (verify_iat signatures codec base64 key now token)

-- The answer of `GET /health`.
pub record Health : Type 0 where
  pub nodes : List (ℕ × Bool)
  pub pqc_available : Bool
  pub ledger_chain_valid : Bool

unfoldable pub health : Hashing → Codec → Bool → System → Health
health hashing codec pqc_available system = record {
  nodes = map (λ n. (n.node_id, n.online)) system.nodes;
  pqc_available = pqc_available;
  ledger_chain_valid = verify_chain hashing codec system.ledger;
}

-- `next((n for n in _nodes if n.node_id == node_id), None)`
unfoldable pub first_node : ℕ → List Node → Option Node
first_node id [] = none
first_node id (node ∷ rest) = if node.node_id == id then some node else first_node id rest

module _ (hashing : Hashing) (aead : Aead) (p : ℕ) where
  unfoldable pub answer_as : ℕ → Fields → Option Node → Reply
  answer_as draw body none = http_exception 404
  answer_as draw body (some node) = reply_of (do
    did_value ← subscript (codes "did") (object body)
    nonce_value ← subscript (codes "challenge_nonce") (object body)
    nonce_text ← as_text nonce_value
    nonce ← from_hex nonce_text
    did ← as_text did_value
    node_proof hashing aead p draw did nonce node)

  -- `POST /internal/partial_proof`, given NODE_TRANSPORT in small letters and NODE_ID.
  unfoldable pub internal_partial_proof : ℕ → Str → ℕ → Fields → List Node → Reply
  internal_partial_proof draw transport_mode node_id body nodes =
      if not (bytes_eq transport_mode (codes "http"))
      then http_exception 403
      else answer_as draw body (first_node node_id nodes)
