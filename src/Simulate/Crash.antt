-- ===== src/Simulate/Crash.antt =====
-- simulate/attacks.py and node/transport.py: what the transport gets from a node that is offline.
use decentralized_idp.Prelude.{
  ℕ, ◌==◌, ==_iff, Bool-cases, true, false, ◌≡◌, ◌≢◌, refl, sym, ap, subst, ◌∙◌, List, [], ◌∷◌, All,
  Option, none, some, inl, inr, arith, if◌then◌else◌,
}
use decentralized_idp.Stdlib.Bytes.{Str}
use decentralized_idp.External.{Hashing, Aead}
use decentralized_idp.Crypto.Interpolation.{Distinct}
use decentralized_idp.Node.Answers.{Node, ids_of}
use decentralized_idp.Node.Transport.{
  Transport, register_node, find_node, register_all, ask, request_partial_proof,
}
use decentralized_idp.Node.Transport.Lookup.{find_node-register_node}
use decentralized_idp.Simulate.{change_target, take_offline, bring_online}

-- What later registrations do to an id depends on what stands there alone.
find_node-register_all :
    (j : ℕ) (nodes : List Node) (t t' : Transport)
    → find_node j t ≡ find_node j t'
    → find_node j (register_all nodes t) ≡ find_node j (register_all nodes t')
unfolding register_all
find_node-register_all j [] t t' same = same
find_node-register_all j (node ∷ rest) t t' same =
    find_node-register_all j rest (register_node node.node_id node t)
      (register_node node.node_id node t')
      (find_node-register_node j node.node_id node t
        ∙ ap (λ u. if j == node.node_id then some node else u) same
        ∙ sym (find_node-register_node j node.node_id node t'))

find_node-register_others :
    (j : ℕ) (nodes : List Node) (t : Transport)
    → All (λ i. i ≢ j) (ids_of nodes)
    → find_node j (register_all nodes t) ≡ find_node j t
unfolding register_all
find_node-register_others j [] t h = refl
find_node-register_others j (node ∷ rest) t h =
    find_node-register_others j rest (register_node node.node_id node t) h.1
    ∙ find_node-register_node j node.node_id node t
    ∙ ground (arith, h.0)

-- The node of a registration that no later one replaces.
registered :
    (id : ℕ) (node : Node) (rest : List Node) (t : Transport)
    → node.node_id ≡ id
    → All (λ i. i ≢ id) (ids_of rest)
    → find_node id (register_all rest (register_node node.node_id node t)) ≡ some node
registered id node rest t at others =
    find_node-register_others id rest (register_node node.node_id node t) others
    ∙ find_node-register_node id node.node_id node t
    ∙ ground (arith, at)

abbrev changed : (Node → Node) → Option Node → Option Node
changed change none = none
changed change (some node) = some (change node)

-- A changed node is found changed, and every other as it was.
find_node-change_target :
    (change : Node → Node) (id j : ℕ) (nodes : List Node) (t : Transport)
    → ((node : Node) → (change node).node_id ≡ node.node_id)
    → find_node id t ≡ none
    → Distinct (ids_of nodes)
    → find_node j (register_all (change_target change id nodes) t) ≡ (
        if j == id
        then changed change (find_node id (register_all nodes t))
        else find_node j (register_all nodes t))
unfolding register_all change_target
find_node-change_target change id j [] t keeps fresh d = elim (Bool-cases (j == id)) [
  | inl same ↦ rw (same, (==_iff j id).0 same, fresh) refl
  | inr other ↦ rw other refl
]
find_node-change_target change id j (node ∷ rest) t keeps fresh d =
    elim (Bool-cases (node.node_id == id)) [
      | inl hit ↦
          let at : node.node_id ≡ id = (==_iff node.node_id id).0 hit in
          let others : All (λ i. i ≢ id) (ids_of rest) =
            subst (λ u. All (λ i. i ≢ u) (ids_of rest)) at d.0 in
          rw hit (elim (Bool-cases (j == id)) [
            | inl same ↦
                let now : j ≡ id = (==_iff j id).0 same in
                rw (same, now)
                  (registered id (change node) rest t (keeps node ∙ at) others
                    ∙ sym (ap (changed change) (registered id node rest t at others)))
            | inr other ↦ rw other (
                find_node-register_all j rest (register_node (change node).node_id (change node) t)
                  (register_node node.node_id node t)
                  (find_node-register_node j (change node).node_id (change node) t
                    ∙ rw (keeps node, at, other) refl
                    ∙ sym (find_node-register_node j node.node_id node t)))
          ])
      | inr miss ↦ rw miss (
          find_node-change_target change id j rest (register_node node.node_id node t) keeps
            (find_node-register_node id node.node_id node t ∙ ground (arith, fresh)) d.1)
    ]

module _ (hashing : Hashing) (aead : Aead) (p : ℕ) where
  ask_offline :
      (draw : ℕ) (did nonce_hex : Str) (found : Option Node)
      → ask hashing aead p draw
          (changed (λ node. record node { online = false }) found)
          did
          nonce_hex
        ≡ none
  unfolding ask
  ask_offline draw did nonce_hex none = refl
  ask_offline draw did nonce_hex (some node) = refl

  -- Where the nodes' ids differ, a node that was taken offline gives no answer to any request, and
  -- every other node answers as before.
  pub request_partial_proof-take_offline :
      (draw id target : ℕ) (did nonce_hex : Str) (nodes : List Node)
      → Distinct (ids_of nodes)
      → request_partial_proof hashing aead p draw target did nonce_hex
          (register_all (take_offline id nodes) [])
        ≡ (if target == id
            then none
            else request_partial_proof hashing aead p draw target did nonce_hex
                (register_all nodes []))
  unfolding request_partial_proof take_offline
  request_partial_proof-take_offline draw id target did nonce_hex nodes d =
      let crash : Node → Node = λ node. record node { online = false } in
      let found =
        find_node-change_target crash id target nodes [] (λ node. refl) (unfold find_node in refl)
          d in
      elim (Bool-cases (target == id)) [
        | inl same ↦ rw same (
            ap (λ u. ask hashing aead p draw u did nonce_hex) (found ∙ rw same refl)
            ∙ ask_offline draw did nonce_hex (find_node id (register_all nodes [])))
        | inr other ↦
            rw other (ap (λ u. ask hashing aead p draw u did nonce_hex) (found ∙ rw other refl))
      ]

-- Bringing back a node that was online and taken offline leaves the nodes as they were.
pub bring_online-take_offline :
    (id : ℕ) (nodes : List Node)
    → All (λ node. node.online ≡ true) nodes
    → bring_online id (take_offline id nodes) ≡ nodes
unfolding bring_online take_offline change_target
bring_online-take_offline id [] h = refl
bring_online-take_offline id (node ∷ rest) h = elim (Bool-cases (node.node_id == id)) [
  | inl hit ↦ rw hit (rw hit (ap (λ b. record node { online = b } ∷ rest) (sym h.0)))
  | inr miss ↦ rw miss (rw miss (ap (λ u. node ∷ u) (bring_online-take_offline id rest h.1)))
]
