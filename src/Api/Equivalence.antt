-- ===== src/Api/Equivalence.antt =====
-- node/transport.py and api/node_service.py: the HTTP transport, with node services at the other end,
-- against the in-process transport.
use decentralized_idp.Prelude.{
  ℕ, ◌≡◌, refl, sym, ap, ◌∙◌, [], ◌∷◌, some, Result, ok, err, ◌>>=◌, Bool-cases, Result-cases, inl,
  inr,
}
use decentralized_idp.Stdlib.Bytes.{Str}
use decentralized_idp.Stdlib.Hex.{from_hex}
use decentralized_idp.Stdlib.Json.{object}
use decentralized_idp.External.{Hashing, Aead}
use decentralized_idp.Node.PartialProof.{Proof}
use decentralized_idp.Node.Answers.{Node, node_proof}
use decentralized_idp.Node.Transport.{Transport, find_node, caught, ask, request_partial_proof}
use decentralized_idp.Node.Http.{
  Response, Network, Peers, find_peer, read_response, or_nothing, url_of, request_fields, fetch,
  request_over_http,
}
use decentralized_idp.Api.NodeService.{Reply, returned, http_exception, reply_of, partial_proof}

-- The response has the endpoint's proof as body and the status 200, or the status of its exception.
abbrev pub Carries : Response → Reply → Type 0
Carries resp (returned proof) = (resp.status_code ≡ 200) × (resp.body ≡ ok (some proof))
Carries resp (http_exception status) = resp.status_code ≡ status

-- The address of the peer leads to the service of the node, for one request; `draw` is what the
-- service draws.
pub record IsServed (hashing : Hashing) (aead : Aead) (p : ℕ) (network : Network) (draw : ℕ)
    (did nonce_hex : Str) (addr : Str) (node : Node) : Type 0 where
  pub reached : ¬ (addr ≡ [])
  pub response : Response
  pub answered : network.post (url_of addr) (object (request_fields did nonce_hex)) ≡ ok response
  pub carried : Carries response (partial_proof hashing aead p draw did nonce_hex node)

module _ (hashing : Hashing) (aead : Aead) (p : ℕ) (network : Network) where
  -- What the client reads from a response that carries a reply.
  read_response-Carries :
      (resp : Response) (r : Result Proof)
      → Carries resp (reply_of r)
      → or_nothing (read_response resp) ≡ caught r
  read_response-Carries resp (ok proof) c = rw (c.0, c.1) refl
  read_response-Carries resp (err e) c = rw c refl

  -- A node that is offline raises, so the local transport's own test changes nothing.
  ask-partial_proof :
      (draw : ℕ) (did nonce_hex : Str) (node : Node)
      → ask hashing aead p draw (some node) did nonce_hex
        ≡ caught (do nonce ← from_hex nonce_hex; node_proof hashing aead p draw did nonce node)
  unfolding ask node_proof
  ask-partial_proof draw did nonce_hex node = elim (Bool-cases node.online) [
    | inl on ↦ rw on refl
    | inr off ↦ elim (Result-cases (from_hex nonce_hex)) [
      | inl (nonce, read) ↦ rw (off, read) refl
      | inr (e, raised) ↦ rw (off, raised) refl
    ]
  ]

  fetch-some :
      (did nonce_hex addr : Str)
      → ¬ (addr ≡ [])
      → fetch network did nonce_hex (some addr)
        ≡ or_nothing (do
          resp ← network.post (url_of addr) (object (request_fields did nonce_hex))
          read_response resp)
  unfolding fetch
  fetch-some did nonce_hex [] reached = absurd (reached refl)
  fetch-some did nonce_hex (c ∷ addr) reached = refl

  -- A request over HTTP to a peer whose address leads to the service of a node has the answer of the
  -- in-process transport in which that node is registered, errors and nodes that are offline included.
  pub request_over_http-request_partial_proof :
      (draw id : ℕ) (did nonce_hex addr : Str) (node : Node) (peers : Peers) (t : Transport)
      → find_peer id peers ≡ some addr
      → find_node id t ≡ some node
      → IsServed hashing aead p network draw did nonce_hex addr node
      → request_over_http network id did nonce_hex peers
        ≡ request_partial_proof hashing aead p draw id did nonce_hex t
  unfolding request_over_http request_partial_proof partial_proof
  request_over_http-request_partial_proof draw id did nonce_hex addr node peers t peer found
        served =
      ap (fetch network did nonce_hex) peer
      ∙ fetch-some did nonce_hex addr served.reached
      ∙ ap (λ u. or_nothing (u >>= λ resp. read_response resp)) served.answered
      ∙ read_response-Carries served.response _ served.carried
      ∙ sym (ask-partial_proof draw did nonce_hex node)
      ∙ ap (λ u. ask hashing aead p draw u did nonce_hex) (sym found)
