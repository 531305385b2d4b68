-- ===== src/Node/Transport/Lookup.antt =====
-- node/transport.py: which node a request reaches.
use decentralized_idp.Prelude.{
  ℕ, ◌≡◌, refl, sym, ◌∙◌, ◌==◌, ==_iff, Bool-cases, List, [], ◌∷◌, Option, some, Elem, All, ◌⊎◌,
  inl, inr, arith, if◌then◌else◌,
}
use decentralized_idp.Node.Answers.{Node, ids_of}
use decentralized_idp.Node.Transport.{Transport, register_node, find_node, register_all}

pub find_node-register_node :
    (j id : ℕ) (node : Node) (t : Transport)
    → find_node j (register_node id node t) ≡ (if j == id then some node else find_node j t)
unfolding find_node register_node
find_node-register_node j id node [] = refl
find_node-register_node j id node ((k, other) ∷ t) =
    ground (arith, find_node-register_node j id node t)

-- What is found under the id is a node with that id that satisfies P.
abbrev pub IsFound : (Node → Type 0) → ℕ → Option Node → Type 0
IsFound P id found = (node : Node) × (found ≡ some node) × (node.node_id ≡ id) × P node

-- Where all nodes that are registered satisfy P, so does the one that is found under an id of theirs.
pub find_node-IsFound :
    (P : Node → Type 0) (id : ℕ) (nodes : List Node) (t : Transport)
    → All P nodes
    → IsFound P id (find_node id t) ⊎ Elem id (ids_of nodes)
    → IsFound P id (find_node id (register_all nodes t))
unfolding register_all
find_node-IsFound P id [] t a (inl found) = found
find_node-IsFound P id [] t a (inr m) = absurd m
find_node-IsFound P id (node ∷ rest) t a h = elim (Bool-cases (id == node.node_id)) [
  | inl same ↦ find_node-IsFound P id rest (register_node node.node_id node t) a.1 (
      inl (
        node,
        find_node-register_node id node.node_id node t ∙ rw same refl,
        sym ((==_iff id node.node_id).0 same),
        a.0,
      ))
  | inr other ↦
      let kept : find_node id (register_node node.node_id node t) ≡ find_node id t =
        find_node-register_node id node.node_id node t ∙ rw other refl in
      find_node-IsFound P id rest (register_node node.node_id node t) a.1 (elim h [
        | inl (found, e, at, good) ↦ inl (found, kept ∙ e, at, good)
        | inr m ↦ elim m [
          | inl same ↦ absurd (cc (sym other ∙ (==_iff id node.node_id).1 same))
          | inr later ↦ inr later
        ]
      ])
]
