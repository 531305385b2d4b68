-- ===== src/Registration/Readiness.antt =====
-- registration/register.py: the nodes that a registration leaves answer for the new DID.
use decentralized_idp.Prelude.{
  ℕ, zero, suc, ◌+◌, ◌≡◌, refl, ap, ap₂, ◌∙◌, List, [], ◌∷◌, true, false, some, ok, ok_injective,
  Elem, All, length, arith,
}
use decentralized_idp.Stdlib.Bytes.{Str}
use decentralized_idp.External.{Hashing, Aead}
use decentralized_idp.Crypto.Lagrange.{Share}
use decentralized_idp.Crypto.Recovery.{xs_of}
use decentralized_idp.Crypto.Sharing.{count_from}
use decentralized_idp.Node.ShareStore.{get_share}
use decentralized_idp.Node.Answers.{Node, ids_of}
use decentralized_idp.Registration.{at_index}
use decentralized_idp.Registration.Distribution.{IsGiven}
use decentralized_idp.Registration.Recoverable.{at_index-Elem}

-- The node is up and honest, and holds the share of its number for the DID.
pub record IsReady (hashing : Hashing) (aead : Aead) (did : Str) (shares : List Share) (node : Node)
    : Type 0 where
  pub share : Share
  pub member : Elem share shares
  pub index : share.0 ≡ node.node_id
  pub held : get_share hashing aead did node.share_store ≡ ok (some share)
  pub up : node.online ≡ true
  pub honest : node.byzantine ≡ false

head : {a b : ℕ} {as' bs : List ℕ} → a ∷ as' ≡ b ∷ bs → a ≡ b
head same = cc

tail : {a b : ℕ} {as' bs : List ℕ} → a ∷ as' ≡ b ∷ bs → as' ≡ bs
tail same = cc

at_index-x :
    (shares : List Share) (i j n : ℕ) (s : Share)
    → xs_of shares ≡ count_from j n
    → at_index shares i ≡ ok s
    → s.0 ≡ j + i
at_index-x [] i j n s numbered e = absurd (cc e)
at_index-x (x ∷ shares) i j zero s numbered e = absurd (cc numbered)
at_index-x (x ∷ shares) zero j (suc n) s numbered e =
    omega (arith, ap (λ u. u.0) (ok_injective e), head numbered)
at_index-x (x ∷ shares) (suc i) j (suc n) s numbered e =
    omega (arith, at_index-x shares i (suc j) n s (tail numbered) e)

module _ (hashing : Hashing) (aead : Aead) (did : Str) (shares : List Share) where
  -- Where the nodes are numbered as the shares are, and are up and honest before the registration, each
  -- of them is ready after it.
  pub IsGiven-IsReady :
      (i n : ℕ) (nodes nodes' : List Node)
      → xs_of shares ≡ count_from 1 n
      → ids_of nodes ≡ count_from (suc i) (length nodes)
      → All (λ node. (node.online ≡ true) × (node.byzantine ≡ false)) nodes
      → IsGiven hashing aead did shares i nodes nodes'
      → All (IsReady hashing aead did shares) nodes' × (ids_of nodes' ≡ ids_of nodes)
  IsGiven-IsReady i n [] [] numbered ids up given = (tt, refl)
  IsGiven-IsReady i n [] (x ∷ nodes') numbered ids up given = absurd given
  IsGiven-IsReady i n (x ∷ nodes) [] numbered ids up given = absurd given
  IsGiven-IsReady i n (x ∷ nodes) (x' ∷ nodes') numbered ids up (own, given) =
      let rest = IsGiven-IsReady (suc i) n nodes nodes' numbered (tail ids) up.1 given in
      (
        (
          record {
            share = own.0;
            member = at_index-Elem shares i own.1;
            index = omega (
              arith,
              at_index-x shares i 1 n own.0 numbered own.1,
              ap (λ u. u.node_id) own.3,
              head ids,
            );
            held = own.2;
            up = ap (λ u. u.online) own.3 ∙ up.0.0;
            honest = ap (λ u. u.byzantine) own.3 ∙ up.0.1;
          },
          rest.0,
        ),
        ap₂ (λ id ids'. id ∷ ids') (ap (λ u. u.node_id) own.3) rest.1,
      )
