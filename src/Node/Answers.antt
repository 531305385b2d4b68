-- ===== src/Node/Answers.antt =====
-- `Node` of node/node.py and its one method. The KEM keys are loaded or made by `_init_kem_keys`;
-- the model holds the public one, which registration uses.
use decentralized_idp.Prelude.{
  ℕ, ◌+◌, ◌%◌, List, [], ◌∷◌, Bool, not, Option, none, some, Result, ok, err, node_offline_error,
  share_not_found_error, ◌>>=◌, if◌then◌else◌,
}
use decentralized_idp.Stdlib.Bytes.{Bytes, Str}
use decentralized_idp.Stdlib.Hex.{hex, int_16}
use decentralized_idp.External.{Hashing, Aead}
use decentralized_idp.Crypto.Lagrange.{Share}
use decentralized_idp.Node.PartialProof.{Proof, compute_partial_proof}
use decentralized_idp.Node.ShareStore.{ShareStore, get_share}

pub record Node : Type 0 where
  pub node_id : ℕ
  pub online : Bool
  pub byzantine : Bool
  pub share_store : ShareStore
  pub kem_public_key : Bytes

abbrev pub ids_of : List Node → List ℕ
ids_of [] = []
ids_of (node ∷ rest) = node.node_id ∷ ids_of rest

module _ (hashing : Hashing) (aead : Aead) (p : ℕ) where
  -- The made-up proof of a Byzantine node; `draw` is what `secrets.randbelow(P - 1)` returned.
  unfoldable pub fake_proof : ℕ → ℕ → Share → Bytes → Result Proof
  fake_proof draw node_id share challenge_nonce = do
    let challenge_hash = hex (hashing.sha3_256 challenge_nonce)
    number ← int_16 challenge_hash
    ok (record {
      node_id = node_id;
      x = share.0;
      partial_value = draw + 1;
      h = number % p;
      challenge_hash = challenge_hash;
    })

  unfoldable pub prove_with : ℕ → Option Share → Bytes → Node → Result Proof
  prove_with draw none challenge_nonce node = err share_not_found_error
  prove_with draw (some share) challenge_nonce node =
      if node.byzantine
      then fake_proof draw node.node_id share challenge_nonce
      else compute_partial_proof hashing p share challenge_nonce node.node_id

  -- `Node.compute_partial_proof`
  unfoldable pub node_proof : ℕ → Str → Bytes → Node → Result Proof
  node_proof draw did challenge_nonce node = if not node.online then err node_offline_error else do
    share ← get_share hashing aead did node.share_store
    prove_with draw share challenge_nonce node
