-- ===== src/Registration/Recoverable.antt =====
-- registration/register.py: what a successful registration leaves with the nodes and in the ledger.
use decentralized_idp.Prelude.{
  ℕ, zero, suc, ◌≤◌, ◌<◌, ◌≡◌, refl, sym, ap, ap₂, subst, ◌∙◌, List, [], ◌∷◌, Bool, true, false,
  none, some, Result, ok, err, Error, >>=-eq-ok, ok_injective, arith, All, All-mono, Elem, length,
  inl, inr, ◌&&◌, leb, ◌-◌, if◌then◌else◌, map,
}
use decentralized_idp.Stdlib.Bytes.{Bytes, Str, codes, bytes_eq}
use decentralized_idp.Stdlib.Json.{get_field, Codec, IsCodec}
use decentralized_idp.External.{Hashing, Aead, IsAead, Derivation, Kem}
use decentralized_idp.Arith.Prime.{IsPrime}
use decentralized_idp.Crypto.Lagrange.{Share}
use decentralized_idp.Crypto.Interpolation.{Distinct}
use decentralized_idp.Crypto.Sss.{generate_shares, reconstruct_secret}
use decentralized_idp.Crypto.Hkdf.{derive_identity_secret, commitment_hash}
use decentralized_idp.Crypto.Feldman.{generate_commitments}
use decentralized_idp.Crypto.Recovery.{xs_of}
use decentralized_idp.Crypto.Sharing.{reconstruct_secret-generate_shares}
use decentralized_idp.Node.ShareStore.{get_share}
use decentralized_idp.Node.Answers.{Node}
use decentralized_idp.Ledger.{Ledger, append, get_public_key, get_commitment_hash}
use decentralized_idp.Ledger.Registry.{lookups-append_register}
use decentralized_idp.Registration.{
  State, Supply, Registered, at_index, second_of, did_of, distribute, register_fields, prepare,
  write_entry, record_registration, share_out, register,
}
use decentralized_idp.Registration.Distribution.{IsGiven, distribute-IsGiven}

guarded : (b : Bool) (d : ℕ) (x : Error) {a : ℕ} → (if b then ok d else err x) ≡ ok a → a ≡ d
guarded true d x e = sym (ok_injective e)
guarded false d x e = absurd (cc e)

pub at_index-Elem : (xs : List Share) (i : ℕ) {x : Share} → at_index xs i ≡ ok x → Elem x xs
at_index-Elem [] i e = absurd (cc e)
at_index-Elem (y ∷ xs) zero e = inl (sym (ok_injective e))
at_index-Elem (y ∷ xs) (suc i) e = inr (at_index-Elem xs i e)

module _ (hashing : Hashing) (aead : Aead) where
  -- Some of the nodes returns the share for the DID.
  abbrev pub IsHeld : Str → List Node → Share → Type 0
  IsHeld did nodes share =
      (n : Node) × Elem n nodes × (get_share hashing aead did n.share_store ≡ ok (some share))

  IsGiven-Elem :
      (did : Str) (shares : List Share) (i : ℕ) (nodes nodes' : List Node) (n : Node)
      (share : Share)
      → IsGiven hashing aead did shares i nodes nodes'
      → Elem n nodes'
      → get_share hashing aead did n.share_store ≡ ok (some share)
      → Elem share shares
  IsGiven-Elem did shares i [] [] n share given m e = absurd m
  IsGiven-Elem did shares i [] (n' ∷ nodes') n share given m e = absurd given
  IsGiven-Elem did shares i (o ∷ nodes) [] n share given m e = absurd m
  IsGiven-Elem did shares i (o ∷ nodes) (n' ∷ nodes') n share given (inl same) e =
      let own = given.0 in
      let eq : own.0 ≡ share =
        ground
          (arith, sym own.2 ∙ ap (λ u. get_share hashing aead did u.share_store) (sym same) ∙ e) in
      subst (λ u. Elem u shares) eq (at_index-Elem shares i own.1)
  IsGiven-Elem did shares i (o ∷ nodes) (n' ∷ nodes') n share given (inr m) e =
      IsGiven-Elem did shares (suc i) nodes nodes' n share given.1 m e

module _ (hashing : Hashing) (aead : Aead) (kem : Kem) (derivation : Derivation) (codec : Codec)
    (pqc_available : Bool) (p : ℕ) where
  prepare_inv :
      (password : Str) (s : Supply) (secret : ℕ) (shares : List Share) (commitments : List Bytes)
      (salt : Bytes)
      → prepare hashing aead kem derivation codec pqc_available p password s
        ≡ ok (secret, shares, commitments, salt)
      → (secret ≡ derive_identity_secret hashing p s.public_key s.registration_nonce password)
        × (generate_shares s.draw secret 3 5 p ≡ ok shares)
  unfolding prepare
  prepare_inv password s secret shares commitments salt e =
      let derived = derive_identity_secret hashing p s.public_key s.registration_nonce password in
      let a = >>=-eq-ok (if leb 1 derived && leb derived (p - 1) then ok derived else err _) _ e in
      let b = >>=-eq-ok (generate_shares s.draw a.0 3 5 p) _ a.2 in
      let c = >>=-eq-ok (generate_commitments hashing s.urandom (map second_of b.0) none) _ b.2 in
      let t = ok_injective c.2 in
      (
        sym (ap (λ u. u.0) t) ∙ guarded (leb 1 derived && leb derived (p - 1)) derived _ a.1,
        ap (λ u. generate_shares s.draw u 3 5 p) (sym (ap (λ u. u.0) t)) ∙ b.1 ∙ ap (λ u. ok u.1) t,
      )

  -- The rows and nodes that a successful registration leaves, from the state before.
  pub record IsRecorded (s : Supply) (commitments : List Bytes) (salt : Bytes) (nodes : List Node)
      (l : Ledger) (commitment : Str) (r : Registered) (st' : State) : Type 0 where
    pub did_eq : r.did ≡ did_of hashing s.public_key
    pub nodes_eq : st'.nodes ≡ nodes
    pub ledger_eq :
        st'.ledger
        ≡ (append hashing codec
            (codes "DID_REGISTER")
            (did_of hashing s.public_key)
            (register_fields s.public_key commitment s.registration_nonce commitments salt
              s.registered_at)
            s.timestamp
            l).0

  abbrev pub outcome : Str → Supply → State → Result Registered × State
  outcome password s st = register hashing aead kem derivation codec pqc_available p password s st

  record_registration_inv :
      (password : Str) (s : Supply) (secret : ℕ) (commitments : List Bytes) (salt : Bytes)
      (st : State) (done : Result (Unit {0})) (r : Registered)
      → (record_registration hashing aead kem derivation codec pqc_available p password s secret
          commitments salt st done).0
        ≡ ok r
      → (done ≡ ok tt)
        × (commitment : Str) × (commitment_hash hashing secret ≡ ok commitment)
        × IsRecorded s commitments salt st.nodes st.ledger commitment r
            (record_registration hashing aead kem derivation codec pqc_available p password s secret
              commitments salt st done).1
  unfolding record_registration
  record_registration_inv password s secret commitments salt st (err x) r e = absurd (cc e)
  record_registration_inv password s secret commitments salt st (ok tt) r e =
      let w = write_entry_inv (commitment_hash hashing secret) e in (refl, w.0, w.1, w.2)
    where
      write_entry_inv :
          (hash : Result Str)
          → (write_entry hashing aead kem derivation codec pqc_available p password s commitments
              salt st hash).0
            ≡ ok r
          → (commitment : Str) × (hash ≡ ok commitment)
            × IsRecorded s commitments salt st.nodes st.ledger commitment r
                (write_entry hashing aead kem derivation codec pqc_available p password s
                  commitments salt st hash).1
      write_entry_inv (err x) same = unfold write_entry in absurd (cc same)
      write_entry_inv (ok commitment) same =
          unfold write_entry in
          (
            commitment,
            refl,
            record {
              did_eq = ap (λ u. u.did) (sym (ok_injective same));
              nodes_eq = refl;
              ledger_eq = refl;
            },
          )

  -- Three or more shares with different indices that nodes hold for the DID recover the derived secret,
  -- and the ledger has the public key and the secret's hash.
  abbrev pub IsRecoverable : Str → Supply → Registered → State → List Share → Type 0
  IsRecoverable password s r st' subset =
      let secret = derive_identity_secret hashing p s.public_key s.registration_nonce password in
      (reconstruct_secret subset p ≡ ok secret)
      × (get_public_key codec r.did st'.ledger ≡ ok (some s.public_key))
      × ((commitment : Str) × (commitment_hash hashing secret ≡ ok commitment)
          × (get_commitment_hash codec r.did st'.ledger ≡ ok (some commitment)))

  -- The nodes, one after another, hold shares of the derived secret for the DID, and the ledger has the
  -- public key and the secret's hash.
  pub record IsDistributed (password : Str) (s : Supply) (r : Registered) (st st' : State)
      : Type 0 where
    pub shares : List Share
    pub shared :
        generate_shares s.draw
          (derive_identity_secret hashing p s.public_key s.registration_nonce password)
          3
          5
          p
        ≡ ok shares
    pub given : IsGiven hashing aead r.did shares 0 st.nodes st'.nodes
    pub known : get_public_key codec r.did st'.ledger ≡ ok (some s.public_key)
    pub commitment : Str
    pub hashed :
        commitment_hash hashing
          (derive_identity_secret hashing p s.public_key s.registration_nonce password)
        ≡ ok commitment
    pub registered : get_commitment_hash codec r.did st'.ledger ≡ ok (some commitment)

  module _ (prime : IsPrime p) (large : 5 < p) (sealed : IsAead aead) (law : IsCodec codec) where
    lookups_recorded :
        (s : Supply) (commitments : List Bytes) (salt : Bytes) (nodes : List Node) (l : Ledger)
        (commitment : Str) (r : Registered) (st' : State)
        → All (λ b. b < 256) s.public_key
        → IsRecorded s commitments salt nodes l commitment r st'
        → (get_public_key codec r.did st'.ledger ≡ ok (some s.public_key))
          × (get_commitment_hash codec r.did st'.ledger ≡ ok (some commitment))
    lookups_recorded s commitments salt nodes l commitment r st' bytes h =
        let found =
          lookups-append_register hashing codec law (did_of hashing s.public_key)
            (register_fields s.public_key commitment s.registration_nonce commitments salt
              s.registered_at)
            s.timestamp l [] s.public_key commitment tt bytes
            (unfold register_fields get_field bytes_eq in refl)
            (unfold register_fields get_field bytes_eq in refl) in
        (
          ap₂ (get_public_key codec) h.did_eq h.ledger_eq ∙ found.0,
          ap₂ (get_commitment_hash codec) h.did_eq h.ledger_eq ∙ found.1,
        )

    share_out-IsDistributed :
        (password : Str) (s : Supply) (st : State)
        (prepared : Result (ℕ × List Share × List Bytes × Bytes)) (r : Registered)
        → prepare hashing aead kem derivation codec pqc_available p password s ≡ prepared
        → All (λ b. b < 256) s.public_key
        → let result =
            share_out hashing aead kem derivation codec pqc_available p password s st prepared in
          result.0 ≡ ok r → IsDistributed password s r st result.1
    unfolding share_out
    share_out-IsDistributed password s st (err x) r from bytes done = absurd (cc done)
    share_out-IsDistributed password s st (ok (secret, shares, commitments, salt)) r from bytes
          done =
        let did = did_of hashing s.public_key in
        let given = distribute hashing aead kem s.store_nonce did shares commitments 0 st.nodes in
        let inv = prepare_inv password s secret shares commitments salt from in
        let rec' =
          record_registration_inv password s secret commitments salt (record st { nodes = given.0 })
            given.1 r done in
        let known = lookups_recorded s commitments salt given.0 st.ledger rec'.1 r _ bytes rec'.3 in
        let all_given =
          distribute-IsGiven hashing aead sealed kem s.store_nonce did shares commitments 0 st.nodes
            rec'.0 in
        record {
          shares = shares;
          shared = ap (λ u. generate_shares s.draw u 3 5 p) (sym inv.0) ∙ inv.1;
          given = subst (IsGiven hashing aead r.did shares 0 st.nodes) (sym rec'.3.nodes_eq) (
              subst (λ d. IsGiven hashing aead d shares 0 st.nodes given.0) (sym rec'.3.did_eq)
                all_given);
          known = known.0;
          commitment = rec'.1;
          hashed = ap (commitment_hash hashing) (sym inv.0) ∙ rec'.2;
          registered = known.1;
        }

    -- What a registration that succeeds leaves, with bytes as public key.
    pub register-IsDistributed :
        (password : Str) (s : Supply) (st : State) (r : Registered)
        → All (λ b. b < 256) s.public_key
        → (outcome password s st).0 ≡ ok r
        → IsDistributed password s r st (outcome password s st).1
    unfolding register
    register-IsDistributed password s st r bytes done =
        share_out-IsDistributed password s st
          (prepare hashing aead kem derivation codec pqc_available p password s) r refl bytes done

    -- After a registration that succeeds, three or more shares with different indices that nodes hold
    -- for the new DID recover the secret that was derived from the password, and the ledger has the
    -- public key and the hash of that secret for the DID; over a prime above 5, with bytes as public key.
    pub register-IsRecoverable :
        (password : Str) (s : Supply) (st : State) (r : Registered) (subset : List Share)
        → All (λ b. b < 256) s.public_key
        → (outcome password s st).0 ≡ ok r
        → All (IsHeld hashing aead r.did (outcome password s st).1.nodes) subset
        → Distinct (xs_of subset)
        → 3 ≤ length subset
        → IsRecoverable password s r (outcome password s st).1 subset
    register-IsRecoverable password s st r subset bytes done held ne enough =
        let left = register-IsDistributed password s st r bytes done in
        let secret = derive_identity_secret hashing p s.public_key s.registration_nonce password in
        (
          reconstruct_secret-generate_shares s.draw secret 3 5 p left.shares subset prime large
              left.shared
              (All-mono _ (λ share. Elem share left.shares) subset
                (λ share h.
                  IsGiven-Elem hashing aead r.did left.shares 0 st.nodes _ h.0 share left.given h.1
                    h.2)
                held)
              ne enough,
          left.known,
          (left.commitment, left.hashed, left.registered),
        )
