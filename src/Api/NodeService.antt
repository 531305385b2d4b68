-- ===== src/Api/NodeService.antt =====
-- api/node_service.py: the service of one node. The detail of an exception is left out.
use decentralized_idp.Prelude.{ℕ, Bool, true, false, Result, ok, err, ◌>>=◌}
use decentralized_idp.Stdlib.Bytes.{Bytes, Str}
use decentralized_idp.Stdlib.Hex.{from_hex}
use decentralized_idp.External.{Hashing, Aead}
use decentralized_idp.Node.PartialProof.{Proof}
use decentralized_idp.Node.Answers.{Node, node_proof}
use decentralized_idp.Node.ShareStore.{ShareStore}

-- What an endpoint for proofs returns, or the status of the HTTPException that it raises.
pub data Reply : Type 0 where
  returned : Proof → Reply
  http_exception : ℕ → Reply

-- `except Exception as exc: raise HTTPException(status_code=500, ...)`
abbrev pub reply_of : Result Proof → Reply
reply_of (ok proof) = returned proof
reply_of (err e) = http_exception 500

-- `Node.__init__`, given the share store and the KEM key that it opens.
unfoldable pub new_node : ℕ → ShareStore → Bytes → Node
new_node node_id share_store kem_public_key = record {
  node_id = node_id;
  online = true;
  byzantine = false;
  share_store = share_store;
  kem_public_key = kem_public_key;
}

-- `GET /health`
abbrev pub health : Node → ℕ × Bool
health node = (node.node_id, true)

module _ (hashing : Hashing) (aead : Aead) (p : ℕ) where
  -- `POST /internal/partial_proof`
  unfoldable pub partial_proof : ℕ → Str → Str → Node → Reply
  partial_proof draw did challenge_nonce node =
      reply_of (do nonce ← from_hex challenge_nonce; node_proof hashing aead p draw did nonce node)
