-- ===== src/Registration/Distribution.antt =====
-- registration/register.py: after a registration every node holds its share, the shares recover the
-- secret, and the ledger has its commitment.
use decentralized_idp.Prelude.{
  ℕ, suc, false, if◌then◌else◌, ◌≡◌, refl, sym, ap, ◌∙◌, List, [], ◌∷◌, some, ok, err, >>=-eq-ok,
  ok_injective, Result-cases, Error, inl, inr,
}
use decentralized_idp.Stdlib.Bytes.{Bytes, Str, bytes_eq, bytes_eq_refl, to_bytes}
use decentralized_idp.External.{Hashing, Aead, IsAead, Kem}
use decentralized_idp.Crypto.Lagrange.{Share}
use decentralized_idp.Node.ShareStore.{store_share, get_share}
use decentralized_idp.Node.ShareStore.RoundTrip.{get_share-store_share}
use decentralized_idp.Node.Answers.{Node}
use decentralized_idp.Registration.{at_index, aesgcm_key, give_share, distribute}

module _ (hashing : Hashing) (aead : Aead) where
  -- Node by node, from the index i on: the new node holds the share of its index for the DID; it is
  -- the old one but for its store, which returns for other DIDs what the old one did.
  abbrev pub IsGiven : Str → List Share → ℕ → List Node → List Node → Type 0
  IsGiven did shares i [] [] = Unit
  IsGiven did shares i [] (n' ∷ nodes') = ⊥
  IsGiven did shares i (n ∷ nodes) [] = ⊥
  IsGiven did shares i (n ∷ nodes) (n' ∷ nodes') =
      ((s : Share) × (at_index shares i ≡ ok s)
        × (get_share hashing aead did n'.share_store ≡ ok (some s))
        × (n' ≡ record n { share_store = n'.share_store })
        × ((other : Str)
            → bytes_eq did other ≡ false
            → get_share hashing aead other n'.share_store
              ≡ get_share hashing aead other n.share_store))
      × IsGiven did shares (suc i) nodes nodes'

  module _ (law : IsAead aead) (kem : Kem) where
    give_share_lem :
        (nonces : ℕ → Bytes) (did : Str) (shares : List Share) (commitments : List Bytes) (i : ℕ)
        (n n' : Node)
        → give_share hashing aead kem nonces did shares commitments i n ≡ ok n'
        → (s : Share) × (at_index shares i ≡ ok s)
          × (get_share hashing aead did n'.share_store ≡ ok (some s))
          × (n' ≡ record n { share_store = n'.share_store })
          × ((other : Str)
              → bytes_eq did other ≡ false
              → get_share hashing aead other n'.share_store
                ≡ get_share hashing aead other n.share_store)
    unfolding give_share
    give_share_lem nonces did shares commitments i n n' e =
        let a = >>=-eq-ok (at_index shares i) _ e in
        let b = >>=-eq-ok (kem.encapsulate n.kem_public_key) _ a.2 in
        let k = >>=-eq-ok (aesgcm_key b.0.1) _ b.2 in
        let c = >>=-eq-ok (to_bytes a.0.1 32) _ k.2 in
        let d = >>=-eq-ok (at_index commitments i) _ c.2 in
        let f =
          >>=-eq-ok (store_share hashing aead (nonces i) did a.0.0 a.0.1 (some d.0) n.share_store) _
            d.2 in
        let eq : record n { share_store = f.0 } ≡ n' = ok_injective f.2 in
        let read : (wanted : Str)
            → get_share hashing aead wanted n'.share_store ≡ (
                if bytes_eq did wanted
                then ok (some (a.0.0, a.0.1))
                else get_share hashing aead wanted n.share_store) =
          λ wanted.
            ap (λ u. get_share hashing aead wanted u.share_store) (sym eq)
            ∙ get_share-store_share hashing aead law (nonces i) did wanted a.0.0 a.0.1 (some d.0)
                n.share_store f.0 f.1 in
        (
          a.0,
          a.1,
          read did ∙ rw (bytes_eq_refl did) refl,
          sym eq ∙ ap (λ u. record n { share_store = u.share_store }) eq,
          λ other differs. read other ∙ rw differs refl,
        )

    distribute_ok :
        (nonces : ℕ → Bytes) (did : Str) (shares : List Share) (commitments : List Bytes) (i : ℕ)
        (n n' : Node) (nodes : List Node)
        → give_share hashing aead kem nonces did shares commitments i n ≡ ok n'
        → distribute hashing aead kem nonces did shares commitments i (n ∷ nodes) ≡ (
          n' ∷ (distribute hashing aead kem nonces did shares commitments (suc i) nodes).0,
          (distribute hashing aead kem nonces did shares commitments (suc i) nodes).1,
        )
    unfolding distribute
    distribute_ok nonces did shares commitments i n n' nodes given = rw (given, distribute) refl

    distribute_err :
        (nonces : ℕ → Bytes) (did : Str) (shares : List Share) (commitments : List Bytes) (i : ℕ)
        (n : Node) (nodes : List Node) (x : Error)
        → give_share hashing aead kem nonces did shares commitments i n ≡ err x
        → distribute hashing aead kem nonces did shares commitments i (n ∷ nodes)
          ≡ (n ∷ nodes, err x)
    unfolding distribute
    distribute_err nonces did shares commitments i n nodes x failed = rw (failed, distribute) refl

    -- When the loop over the nodes ends without an exception, every node holds the share of its
    -- position for the DID; what it returns for other DIDs is what it returned before, and all its
    -- fields but the store are unchanged.
    pub distribute-IsGiven :
        (nonces : ℕ → Bytes) (did : Str) (shares : List Share) (commitments : List Bytes) (i : ℕ)
        (nodes : List Node)
        → (distribute hashing aead kem nonces did shares commitments i nodes).1 ≡ ok tt
        → IsGiven did shares i nodes
            (distribute hashing aead kem nonces did shares commitments i nodes).0
    distribute-IsGiven nonces did shares commitments i [] e = unfold distribute in tt
    distribute-IsGiven nonces did shares commitments i (n ∷ nodes) e =
        elim (Result-cases (give_share hashing aead kem nonces did shares commitments i n)) [
          | inl (n', given) ↦
              let step = distribute_ok nonces did shares commitments i n n' nodes given in
              rw step (
                give_share_lem nonces did shares commitments i n n' given,
                distribute-IsGiven nonces did shares commitments (suc i) nodes
                    (sym (ap (λ u. u.1) step) ∙ e),
              )
          | inr (x, failed) ↦
              let step = distribute_err nonces did shares commitments i n nodes x failed in
              absurd (cc (sym (ap (λ u. u.1) step) ∙ e))
        ]
