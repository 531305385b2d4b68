-- ===== src/Node/Transport.antt =====
-- node/transport.py: the in-process transport. `_nodes` maps a node's id to the node; the model holds
-- the nodes themselves, as they are when the request is made. What a request prints is left out.
pub mod Lookup
use decentralized_idp.Prelude.{
  ℕ, List, [], ◌∷◌, not, Option, none, some, Result, ok, err, ◌>>=◌, ◌==◌, if◌then◌else◌,
}
use decentralized_idp.Stdlib.Bytes.{Str}
use decentralized_idp.Stdlib.Hex.{from_hex}
use decentralized_idp.External.{Hashing, Aead}
use decentralized_idp.Node.PartialProof.{Proof}
use decentralized_idp.Node.Answers.{Node, node_proof}

-- `LocalTransport`
abbrev pub Transport : Type 0
Transport = List (ℕ × Node)

unfoldable pub register_node : ℕ → Node → Transport → Transport
register_node id node [] = (id, node) ∷ []
register_node id node ((j, other) ∷ rest) =
    if id == j then (j, node) ∷ rest else (j, other) ∷ register_node id node rest

-- `self._nodes.get(target_node_id)`
unfoldable pub find_node : ℕ → Transport → Option Node
find_node id [] = none
find_node id ((j, node) ∷ rest) = if id == j then some node else find_node id rest

-- `for n in nodes: transport.register_node(n.node_id, n)`
unfoldable pub register_all : List Node → Transport → Transport
register_all [] t = t
register_all (node ∷ rest) t = register_all rest (register_node node.node_id node t)

-- `except Exception: return None`
abbrev pub caught : Result Proof → Option Proof
caught (ok proof) = some proof
caught (err e) = none

module _ (hashing : Hashing) (aead : Aead) (p : ℕ) where
  unfoldable pub ask : ℕ → Option Node → Str → Str → Option Proof
  ask draw none did challenge_nonce_hex = none
  ask draw (some node) did challenge_nonce_hex =
      if not node.online
      then none
      else caught
          (do nonce ← from_hex challenge_nonce_hex; node_proof hashing aead p draw did nonce node)

  unfoldable pub request_partial_proof : ℕ → ℕ → Str → Str → Transport → Option Proof
  request_partial_proof draw target_node_id did challenge_nonce_hex t =
      ask draw (find_node target_node_id t) did challenge_nonce_hex
