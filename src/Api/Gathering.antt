-- ===== src/Api/Gathering.antt =====
-- api/main.py: the proofs that are gathered from nodes that are up and honest.
use decentralized_idp.Prelude.{
  ℕ, suc, ◌*◌, ◌%◌, ◌<◌, ◌≡◌, ◌≢◌, refl, ap, ap₂, ◌∙◌, List, [], ◌∷◌, map, take, some, All, Elem,
  inr,
}
use decentralized_idp.Stdlib.Bytes.{Bytes, Str, from_bytes}
use decentralized_idp.Stdlib.Hex.{hex, from_hex-hex}
use decentralized_idp.External.{Hashing, IsHashing, Aead}
use decentralized_idp.Crypto.Lagrange.{Share}
use decentralized_idp.Crypto.Interpolation.{Distinct}
use decentralized_idp.Node.PartialProof.{Proof, compute_partial_proof}
use decentralized_idp.Node.PartialProof.Recovery.{IsAnswer, proof_xs, digest_number}
use decentralized_idp.Node.Pbft.Safety.{DistinctIds}
use decentralized_idp.Node.Answers.{Node, ids_of, node_proof, prove_with}
use decentralized_idp.Node.Transport.{register_all, ask, request_partial_proof}
use decentralized_idp.Node.Transport.Lookup.{find_node-IsFound}
use decentralized_idp.Node.Http.{Network, local_transport, request_from}
use decentralized_idp.Registration.Readiness.{IsReady}
use decentralized_idp.Api.{gather_proofs}

-- What an honest node answers with: its share's proof, under its own number.
record IsOwn (hashing : Hashing) (p : ℕ) (nonce : Bytes) (shares : List Share) (id : ℕ) (q : Proof)
    : Type 0 where
  answer : IsAnswer hashing p nonce shares q
  same_id : q.node_id ≡ id
  same_x : q.x ≡ id

module _ (hashing : Hashing) (aead : Aead) (p : ℕ) (law : IsHashing hashing) where
  -- A node that is ready answers a request.
  ask-IsReady :
      (draw id : ℕ) (did : Str) (nonce : Bytes) (shares : List Share) (node : Node)
      → All (λ b. b < 256) nonce
      → node.node_id ≡ id
      → IsReady hashing aead did shares node
      → (q : Proof) × (ask hashing aead p draw (some node) did (hex nonce) ≡ some q)
        × IsOwn hashing p nonce shares id q
  unfolding ask node_proof prove_with compute_partial_proof
  ask-IsReady draw id did nonce shares node bytes at ready =
      let number = from_bytes (hashing.sha3_256 nonce) in
      let q : Proof = record {
        node_id = node.node_id;
        x = ready.share.0;
        partial_value = (ready.share.1 * (number % p)) % p;
        h = number % p;
        challenge_hash = hex (hashing.sha3_256 nonce);
      } in
      (
        q,
        rw
            (
              ready.up,
              from_hex-hex nonce bytes,
              ready.held,
              ready.honest,
              digest_number hashing nonce law,
            )
            refl,
        record {
          answer = (ready.share, ready.member, rw (digest_number hashing nonce law) refl);
          same_id = at;
          same_x = ready.index ∙ at;
        },
      )

  -- The answers of nodes that are ready, in the order in which they are asked.
  pub gather_proofs-IsReady :
      (network : Network) (draw : ℕ → ℕ) (did : Str) (nonce : Bytes) (shares : List Share)
      (nodes : List Node) (completed : List ℕ)
      → All (λ b. b < 256) nonce
      → All (IsReady hashing aead did shares) nodes
      → All (λ id. Elem id (ids_of nodes)) completed
      → (proofs : List Proof) × (gather_proofs hashing aead p network draw did
            (hex nonce)
            (local_transport (register_all nodes []))
            completed
          ≡ proofs)
        × All (IsAnswer hashing p nonce shares) proofs
        × (map (λ q. q.node_id) proofs ≡ completed)
        × (proof_xs proofs ≡ completed)
  unfolding gather_proofs request_from request_partial_proof
  gather_proofs-IsReady network draw did nonce shares nodes [] bytes ready m =
      ([], refl, tt, refl, refl)
  gather_proofs-IsReady network draw did nonce shares nodes (id ∷ rest) bytes ready (m, ms) =
      let found = find_node-IsFound (IsReady hashing aead did shares) id nodes [] ready (inr m) in
      let first = ask-IsReady (draw id) id did nonce shares found.0 bytes found.2 found.3 in
      let others = gather_proofs-IsReady network draw did nonce shares nodes rest bytes ready ms in
      (
        first.0 ∷ others.0,
        rw (found.1, first.1, others.1) refl,
        (first.2.answer, others.2),
        ap₂ (λ a as'. a ∷ as') first.2.same_id others.3,
        ap₂ (λ a as'. a ∷ as') first.2.same_x others.4,
      )

pub DistinctIds-map :
    (proofs : List Proof) → Distinct (map (λ q. q.node_id) proofs) → DistinctIds proofs
DistinctIds-map [] d = tt
DistinctIds-map (q ∷ rest) d = (apart rest d.0, DistinctIds-map rest d.1)
  where
    apart :
        (ps : List Proof)
        → All (λ i. i ≢ q.node_id) (map (λ r. r.node_id) ps)
        → All (λ r. r.node_id ≢ q.node_id) ps
    apart [] a = tt
    apart (r ∷ ps) a = (a.0, apart ps a.1)

pub map-take :
    {A B : Type 0} (f : A → B) (n : ℕ) (xs : List A) → map f (take n xs) ≡ take n (map f xs)
map-take f ℕ.zero xs = refl
map-take f (suc n) [] = refl
map-take f (suc n) (x ∷ xs) = ap (λ l. f x ∷ l) (map-take f n xs)
