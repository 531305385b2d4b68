-- ===== src/Simulate.antt =====
-- simulate/attacks.py: the four attacks of the demonstration. What they print is left out.
pub mod Crash
pub mod Theft
pub mod Replay
use decentralized_idp.Prelude.{
  ℕ, ◌==◌, List, [], ◌∷◌, length, Bool, true, false, Option, none, some, Result, ok, err, ◌>>=◌,
  key_error, type_error, runtime_error, assertion_error, stop_iteration, if◌then◌else◌,
}
use decentralized_idp.Stdlib.Bytes.{Bytes, Str, bytes_eq, to_bytes}
use decentralized_idp.Stdlib.Hex.{hex}
use decentralized_idp.Stdlib.Json.{Codec}
use decentralized_idp.External.{Hashing, Aead, Signatures, Base64}
use decentralized_idp.Crypto.Lagrange.{Share, lagrange_interpolate}
use decentralized_idp.Node.ShareStore.{get_share}
use decentralized_idp.Node.Answers.{Node}
use decentralized_idp.Node.Transport.{Transport, find_node, register_all}
use decentralized_idp.Ledger.{Ledger, get_commitment_hash}
use decentralized_idp.Authentication.Flow.{Service, Outcome, Moment, authenticate, collect}

-- `next(n for n in nodes if n.node_id == target_node_id)`
unfoldable pub target_of : ℕ → List Node → Result Node
target_of id [] = err stop_iteration
target_of id (node ∷ rest) = if node.node_id == id then ok node else target_of id rest

-- A change of the node that `target_of` finds, seen in the list that it was found in.
unfoldable pub change_target : (Node → Node) → ℕ → List Node → List Node
change_target change id [] = []
change_target change id (node ∷ rest) =
    if node.node_id == id then change node ∷ rest else node ∷ change_target change id rest

-- `NodeCrashAttack.trigger` and `.reset`
unfoldable pub take_offline : ℕ → List Node → List Node
take_offline id nodes = change_target (λ node. record node { online = false }) id nodes

unfoldable pub bring_online : ℕ → List Node → List Node
bring_online id nodes = change_target (λ node. record node { online = true }) id nodes

-- `ByzantineWrongProofAttack.trigger` and `.reset`
unfoldable pub turn_byzantine : ℕ → List Node → List Node
turn_byzantine id nodes = change_target (λ node. record node { byzantine = true }) id nodes

unfoldable pub turn_honest : ℕ → List Node → List Node
turn_honest id nodes = change_target (λ node. record node { byzantine = false }) id nodes

-- `self.nodes[node_id]`, where a later node with the same id has replaced an earlier one.
unfoldable pub node_at : Option Node → Result Node
node_at none = err key_error
node_at (some node) = ok node

-- `stolen_shares.append((x, y))` before what the rest of the loop adds; None ends the attack.
abbrev pub prepend : Share → Option (List Share) → Option (List Share)
prepend share none = none
prepend share (some shares) = some (share ∷ shares)

-- `computed == stored`; otherwise `stored[:32]` is printed, which raises where nothing is stored.
abbrev pub judge : Str → Option Str → Result Bool
judge computed none = err type_error
judge computed (some stored) = ok (bytes_eq computed stored)

module _ (hashing : Hashing) (aead : Aead) (p : ℕ) where
  -- `for node_id in self.attacker_ids`; `none` is a node without a share.
  unfoldable pub steal_shares : Transport → Str → List ℕ → Result (Option (List Share))
  steal_shares nodes did [] = ok (some [])
  steal_shares nodes did (id ∷ rest) = do
    node ← node_at (find_node id nodes)
    share ← get_share hashing aead did node.share_store
    elim share [
      | none ↦ ok none
      | some s ↦ (do more ← steal_shares nodes did rest; ok (prepend s more))
    ]

  -- What follows once the loop has ended.
  unfoldable pub try_shares : Codec → Ledger → Str → Option (List Share) → Result Bool
  try_shares codec ledger did none = ok false
  try_shares codec ledger did (some stolen) = do
    fake ← lagrange_interpolate stolen p
    bytes ← to_bytes fake 32
    stored ← get_commitment_hash codec did ledger
    judge (hex (hashing.sha3_256 bytes)) stored

  -- `ShareTheftAttack`, made and triggered.
  unfoldable pub theft : Codec → List ℕ → List Node → Ledger → Str → Result Bool
  theft codec attackers nodes ledger did =
      if length attackers == 2
      then (do
        stolen ← steal_shares (register_all nodes []) did attackers
        try_shares codec ledger did stolen)
      else err assertion_error

-- What `intercept` keeps.
pub record Message : Type 0 where
  pub did : Str
  pub challenge_id : Str
  pub signature : Str

abbrev pub intercept : Str → Str → Str → Option Message
intercept did challenge_id signature =
    some (record { did = did; challenge_id = challenge_id; signature = signature })

module _ (hashing : Hashing) (aead : Aead) (codec : Codec) (p : ℕ) where
  -- `ReplayAttack.replay`, with the service's transport and the order of its nodes' answers.
  unfoldable pub replay :
      Signatures
      → Base64
      → Bool
      → Option Bytes
      → Moment
      → (ℕ → ℕ)
      → Transport
      → List ℕ
      → Option Message
      → Service
      → Result Outcome × Service
  replay signatures base64 pqc_available system_key moment draw nodes completed none service =
      (err runtime_error, service)
  replay signatures base64 pqc_available system_key moment draw nodes completed (some message)
        service =
      authenticate hashing codec p signatures base64 pqc_available system_key moment
        (collect hashing aead p none draw message.did nodes completed) message.did
        message.challenge_id message.signature service
