-- ===== src/Node/Http.antt =====
-- node/transport.py: the transport over HTTP, and the choice between the two. The network is a
-- parameter. What a request prints is left out.
use decentralized_idp.Prelude.{
  ℕ, suc, ◌==◌, List, [], ◌∷◌, ◌++◌, Option, none, some, Result, ok, err, ◌>>=◌, if◌then◌else◌,
}
use decentralized_idp.Stdlib.Bytes.{Str, codes, bytes_eq}
use decentralized_idp.Stdlib.Text.{split_commas, strip, lower}
use decentralized_idp.Stdlib.Json.{Json, text, object, Fields, field, end}
use decentralized_idp.External.{Hashing, Aead}
use decentralized_idp.Node.PartialProof.{Proof}
use decentralized_idp.Node.Transport.{Transport, request_partial_proof}

-- The answer to a request. Its body is read as a proof, or `none` where it is null, and reading it can
-- raise.
pub record Response : Type 0 where
  pub status_code : ℕ
  pub body : Result (Option Proof)

-- `asyncio.wait_for(client.post(url, json=...), timeout=...)`: what arrives in time, or the exception.
pub record Network : Type 0 where
  pub post : Str → Json → Result Response

-- `HTTPTransport`, by its dictionary `_peers`.
abbrev pub Peers : Type 0
Peers = List (ℕ × Str)

-- `self._peers.get(target_node_id)`
unfoldable pub find_peer : ℕ → Peers → Option Str
find_peer id [] = none
find_peer id ((j, addr) ∷ rest) = if id == j then some addr else find_peer id rest

-- `for i, addr in enumerate(..., start=1): self._peers[i] = addr.strip()`, from i on.
unfoldable pub number_peers : ℕ → List Str → Peers
number_peers i [] = []
number_peers i (addr ∷ rest) = (i, strip addr) ∷ number_peers (suc i) rest

-- The constructor, given the environment's NODE_PEERS, or the empty text where it is not set.
unfoldable pub read_peers : Str → Peers
read_peers [] = []
read_peers (c ∷ peers_env) = number_peers 1 (split_commas (c ∷ peers_env))

-- `resp.json() if resp.status_code == 200 else None`
abbrev pub read_response : Response → Result (Option Proof)
read_response resp = if resp.status_code == 200 then resp.body else ok none

-- `except Exception: return None`
abbrev pub or_nothing : Result (Option Proof) → Option Proof
or_nothing (ok answer) = answer
or_nothing (err e) = none

-- `f"http://{addr}/internal/partial_proof"`
unfoldable pub url_of : Str → Str
url_of addr = codes "http://" ++ (addr ++ codes "/internal/partial_proof")

abbrev pub request_fields : Str → Str → Fields
request_fields did challenge_nonce_hex =
    field (codes "did") (text did) (field (codes "challenge_nonce") (text challenge_nonce_hex) end)

-- `_fetch` and the `try` around it; an empty address is none.
unfoldable pub fetch : Network → Str → Str → Option Str → Option Proof
fetch network did challenge_nonce_hex none = none
fetch network did challenge_nonce_hex (some []) = none
fetch network did challenge_nonce_hex (some (c ∷ addr)) = or_nothing (do
  resp ← network.post (url_of (c ∷ addr)) (object (request_fields did challenge_nonce_hex))
  read_response resp)

-- `HTTPTransport.request_partial_proof`, and its variant for the event loop, which does the same.
unfoldable pub request_over_http : Network → ℕ → Str → Str → Peers → Option Proof
request_over_http network target_node_id did challenge_nonce_hex peers =
    fetch network did challenge_nonce_hex (find_peer target_node_id peers)

-- The two transports.
pub data NodeTransport : Type 0 where
  local_transport : Transport → NodeTransport
  http_transport : Peers → NodeTransport

-- `get_transport`, given NODE_TRANSPORT, which is "local" where it is not set, and NODE_PEERS.
unfoldable pub get_transport : Str → Str → NodeTransport
get_transport node_transport node_peers =
    if bytes_eq (lower node_transport) (codes "http")
    then http_transport (read_peers node_peers)
    else local_transport []

module _ (hashing : Hashing) (aead : Aead) (p : ℕ) (network : Network) where
  -- A request to whichever transport there is.
  unfoldable pub request_from : ℕ → ℕ → Str → Str → NodeTransport → Option Proof
  request_from draw id did challenge_nonce_hex (local_transport t) =
      request_partial_proof hashing aead p draw id did challenge_nonce_hex t
  request_from draw id did challenge_nonce_hex (http_transport peers) =
      request_over_http network id did challenge_nonce_hex peers
