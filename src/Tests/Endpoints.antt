-- ===== src/Tests/Endpoints.antt =====
-- api/ on concrete inputs.
use decentralized_idp.Prelude.{
  ◌≡◌, refl, List, [], ◌∷◌, true, none, some, Result, ◌>>=◌, ok, err, value_error, key_error, arith,
  if◌then◌else◌,
}
use decentralized_idp.Stdlib.Bytes.{Str, codes, bytes_eq}
use decentralized_idp.Stdlib.Text.{split_commas, strip, lstrip, rstrip, is_blank}
use decentralized_idp.Stdlib.Hex.{hex}
use decentralized_idp.Stdlib.Json.{end}
use decentralized_idp.Node.Transport.{register_all, register_node, find_node, request_partial_proof}
use decentralized_idp.Node.Http.{
  Network, Peers, Response, read_peers, number_peers, find_peer, url_of, request_over_http,
}
use decentralized_idp.Api.{System, authenticate_user, internal_partial_proof}
use decentralized_idp.Api.NodeService.{Reply, returned, http_exception, partial_proof}
use decentralized_idp.Api.Equivalence.{Carries, IsServed, request_over_http-request_partial_proof}
use decentralized_idp.Api.Transports.{IsReached, authenticate_user-transports}
use decentralized_idp.Node.Answers.{Node}
use decentralized_idp.Stdlib.Json.{get_field, subscript, as_text}
use decentralized_idp.Tests.Serial.{serial}
use decentralized_idp.Tests.Fixtures.{plain_aead, plain_signatures, plain_base64}
use decentralized_idp.Tests.Crypto.{draw}
use decentralized_idp.Tests.Flow.{service, moment, did_a}
use decentralized_idp.Tests.Attacks.{tail_hashing, nodes, holder}

abbrev peers_env : Str
peers_env = codes "n1:8001, n2:8002"

abbrev peers : Peers
peers = (1, codes "n1:8001") ∷ (2, codes "n2:8002") ∷ []

peers_read : read_peers peers_env ≡ peers
unfolding read_peers number_peers split_commas strip lstrip rstrip is_blank
peers_read = refl

abbrev response_of : Reply → Response
response_of (returned proof) = record { status_code = 200; body = ok (some proof) }
response_of (http_exception status) = record { status_code = status; body = err value_error }

-- A network in which the second peer is served by the second node, and no other address answers.
abbrev network : Network
network = record {
  post = λ url body.
      if bytes_eq url (codes "http://n2:8002/internal/partial_proof")
      then ok
          (response_of (partial_proof tail_hashing plain_aead 7 0 did_a (codes "08") (holder 2 6)))
      else err key_error;
}

carries : (reply : Reply) → Carries (response_of reply) reply
carries (returned proof) = (refl, refl)
carries (http_exception status) = refl

served :
    IsServed tail_hashing plain_aead 7 network 0 did_a (codes "08") (codes "n2:8002") (holder 2 6)
served = record {
  reached = λ e. ground arith;
  response =
      response_of (partial_proof tail_hashing plain_aead 7 0 did_a (codes "08") (holder 2 6));
  answered = unfold url_of bytes_eq in refl;
  carried = carries (partial_proof tail_hashing plain_aead 7 0 did_a (codes "08") (holder 2 6));
}

request_over_http-request_partial_proof_example :
    request_over_http network 2 did_a (codes "08") peers
    ≡ request_partial_proof tail_hashing plain_aead 7 0 2 did_a (codes "08") (register_all nodes [])
request_over_http-request_partial_proof_example =
    request_over_http-request_partial_proof tail_hashing plain_aead 7 network 0 2 did_a (codes "08")
      (codes "n2:8002") (holder 2 6) peers (register_all nodes []) (unfold find_peer in refl)
      (unfold find_node register_all register_node in refl) served

-- The internal endpoint refuses in local mode, and knows no node with the id 9.
refused :
    internal_partial_proof tail_hashing plain_aead 7 0 (codes "local") 1 end nodes
    ≡ http_exception 403
unfolding internal_partial_proof bytes_eq
refused = refl

abbrev two_nodes : List Node
two_nodes = holder 1 2 ∷ holder 2 6 ∷ []

abbrev system : System
system = record {
  nodes = two_nodes;
  peers = some peers;
  ledger = service.ledger;
  challenges = service.challenges;
  files = [];
}

-- A network in which both peers are served, for requests about one DID.
abbrev serve : Str → Str → Result Response
serve url nonce_hex =
    if bytes_eq url (codes "http://n1:8001/internal/partial_proof")
    then ok (
        response_of (partial_proof tail_hashing plain_aead 7 (draw 1) did_a nonce_hex (holder 1 2)))
    else if bytes_eq url (codes "http://n2:8002/internal/partial_proof")
    then ok (
        response_of (partial_proof tail_hashing plain_aead 7 (draw 2) did_a nonce_hex (holder 2 6)))
    else err key_error

abbrev both_served : Network
both_served = record {
  post = λ url body. do
    value ← subscript (codes "challenge_nonce") body
    nonce_hex ← as_text value
    serve url nonce_hex;
}

first-IsReached :
    (nonce_hex : Str)
    → IsReached tail_hashing plain_aead 7 both_served draw did_a nonce_hex peers two_nodes 1
unfolding find_peer find_node register_all register_node url_of bytes_eq subscript as_text get_field
first-IsReached nonce_hex = record {
  addr = codes "n1:8001";
  node = holder 1 2;
  peer = refl;
  found = refl;
  served = record {
    reached = λ e. cc e;
    response =
        response_of (partial_proof tail_hashing plain_aead 7 (draw 1) did_a nonce_hex (holder 1 2));
    answered = refl;
    carried =
        carries (partial_proof tail_hashing plain_aead 7 (draw 1) did_a nonce_hex (holder 1 2));
  };
}

second-IsReached :
    (nonce_hex : Str)
    → IsReached tail_hashing plain_aead 7 both_served draw did_a nonce_hex peers two_nodes 2
unfolding find_peer find_node register_all register_node url_of bytes_eq subscript as_text get_field
second-IsReached nonce_hex = record {
  addr = codes "n2:8002";
  node = holder 2 6;
  peer = refl;
  found = refl;
  served = record {
    reached = λ e. cc e;
    response =
        response_of (partial_proof tail_hashing plain_aead 7 (draw 2) did_a nonce_hex (holder 2 6));
    answered = refl;
    carried =
        carries (partial_proof tail_hashing plain_aead 7 (draw 2) did_a nonce_hex (holder 2 6));
  };
}

authenticate_user-transports_example :
    let over_http =
      authenticate_user tail_hashing plain_aead 7 both_served serial plain_signatures plain_base64
        true
        (some (3 ∷ []))
        149
        moment
        draw
        []
        did_a
        (codes "c1")
        (codes "00")
        system in
    let in_process =
      authenticate_user tail_hashing plain_aead 7 both_served serial plain_signatures plain_base64
        true
        (some (3 ∷ []))
        149
        moment
        draw
        (1 ∷ 2 ∷ [])
        did_a
        (codes "c1")
        (codes "00")
        (record system { peers = none }) in
    (over_http.0 ≡ in_process.0)
    × (over_http.1.ledger ≡ in_process.1.ledger)
    × (over_http.1.challenges ≡ in_process.1.challenges)
authenticate_user-transports_example =
    authenticate_user-transports tail_hashing plain_aead 7 both_served serial plain_signatures
      plain_base64 true (some (3 ∷ [])) 149 moment draw [] did_a (codes "c1") (codes "00") system
      peers refl (omega arith) (omega arith)
      (λ nonce. (first-IsReached (hex nonce), (second-IsReached (hex nonce), tt)))
