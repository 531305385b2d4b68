-- ===== src/Authentication/Flow/Tolerance.antt =====
-- authentication/authenticate.py: an honest user with enough honest nodes authenticates although other
-- nodes answer with wrong values.
use decentralized_idp.Authentication.Flow.Search.{
  Distinct-residues, Recovers, three-Recovers, search-Elem,
}
use decentralized_idp.Prelude.{
  ℕ, ◌*◌, ◌%◌, ◌^◌, ◌≤◌, ◌<◌, ◌≡◌, ◌≢◌, refl, ap, subst, ◌∙◌, List, [], ◌∷◌, Bool, true, ◌&&◌, ◌==◌,
  ==_iff, Option, some, Result, ok, arith, All, All-mono, All-take, Elem, length, length-take, take,
}
use decentralized_idp.Stdlib.Bytes.{Bytes, Str, bytes_eq, bytes_eq_refl, from_bytes}
use decentralized_idp.Stdlib.Hex.{hex}
use decentralized_idp.Stdlib.Json.{Codec}
use decentralized_idp.External.{Hashing, IsHashing, Signatures, Base64}
use decentralized_idp.Arith.Prime.{IsPrime}
use decentralized_idp.Crypto.Lagrange.{Share}
use decentralized_idp.Crypto.Interpolation.{Distinct}
use decentralized_idp.Crypto.Sss.{generate_shares}
use decentralized_idp.Crypto.Hkdf.{commitment_hash}
use decentralized_idp.Node.PartialProof.{Proof, recover_secret_from_partial_proofs}
use decentralized_idp.Node.PartialProof.Recovery.{IsAnswer, recover_secret-compute_partial_proof}
use decentralized_idp.Node.Pbft.{accepted_proofs}
use decentralized_idp.Node.Pbft.Safety.{DistinctIds}
use decentralized_idp.Node.Pbft.Liveness.{agreeing, accepted_proofs_majority, run_pbft_round_live}
use decentralized_idp.Ledger.{Ledger, get_public_key, get_commitment_hash}
use decentralized_idp.Authentication.Challenge.{consume}
use decentralized_idp.Authentication.Tokens.{issue_token}
use decentralized_idp.Authentication.Flow.CleanUp.{clean_proofs-accepted_proofs}
use decentralized_idp.Authentication.Flow.Completeness.{answers_agree}
use decentralized_idp.Authentication.Flow.Sublists.{
  Sublist, length-Sublist, Sublist-take, Sublist-filter, Elem-combinations, combinations-Sublist,
  residues, Distinct-Sublist,
}
use decentralized_idp.Authentication.Flow.{
  Service, success, accepted, Moment, node_ids, grant, conclude, continue_with, decide, check_did,
  signature_holds, choose, search, clean_proofs, combinations, round_id_of, authenticate,
}

-- The nodes' side of an authentication that succeeds: the honest answers to the nonce are at least
-- three, more than half of the answers, and in their order; the others are whatever they are, except
-- that the nodes' ids differ, and that those answers that carry the challenge's hash and H have
-- different indices in the field.
pub record IsTolerable (hashing : Hashing) (p : ℕ) (draw : ℕ → ℕ) (secret : ℕ) (shares : List Share)
    (nonce : Bytes) (honest proofs : List Proof) : Type 0 where
  pub hash : IsHashing hashing
  pub prime : IsPrime p
  pub large : 5 < p
  pub fits : p ≤ 256 ^ 32
  pub shared : generate_shares draw secret 3 5 p ≡ ok shares
  pub unit : from_bytes (hashing.sha3_256 nonce) % p ≢ 0
  pub answers : All (IsAnswer hashing p nonce shares) honest
  pub among : Sublist honest proofs
  pub enough : 3 ≤ length honest
  pub majority : length proofs < 2 * length honest
  pub ids : DistinctIds proofs
  pub indices : Distinct (
      residues p
        (agreeing (hex (hashing.sha3_256 nonce)) (from_bytes (hashing.sha3_256 nonce) % p) proofs))

module _ (hashing : Hashing) (codec : Codec) (p : ℕ) (draw : ℕ → ℕ) (secret : ℕ)
    (shares : List Share) (nonce : Bytes) (honest proofs : List Proof)
    (tolerable : IsTolerable hashing p draw secret shares nonce honest proofs) where
  abbrev clean : List Proof
  clean = agreeing (hex (hashing.sha3_256 nonce)) (from_bytes (hashing.sha3_256 nonce) % p) proofs

  honest-clean : Sublist honest clean
  honest-clean =
      let hash = hex (hashing.sha3_256 nonce) in
      let h = from_bytes (hashing.sha3_256 nonce) % p in
      Sublist-filter (λ q. bytes_eq q.challenge_hash hash && (q.h == h)) honest proofs
        (All-mono _ (λ q. (bytes_eq q.challenge_hash hash && (q.h == h)) ≡ true) honest
          (λ q same. rw (same.0, same.1, bytes_eq_refl hash, (==_iff h h).1 refl) refl)
          (answers_agree hashing p nonce shares honest tolerable.hash tolerable.answers))
        tolerable.among

  clean-majority : (3 ≤ length clean) × (length proofs < 2 * length clean)
  clean-majority =
      let longer = length-Sublist honest clean honest-clean in
      (omega (arith, longer, tolerable.enough), omega (arith, longer, tolerable.majority))

  clean_lem :
      (ps others : List Proof) → 0 < length ps → ps ≡ proofs → clean_proofs ps others ≡ clean
  clean_lem [] others some_proof e = absurd (omega arith)
  clean_lem (q ∷ rest) others some_proof e =
      clean_proofs-accepted_proofs q rest others
      ∙ ap accepted_proofs e
      ∙ accepted_proofs_majority (hex (hashing.sha3_256 nonce))
          (from_bytes (hashing.sha3_256 nonce) % p) proofs clean-majority.1

  length-three : length (take 3 honest) ≡ 3
  length-three = length-take 3 honest ∙ omega (arith, tolerable.enough)

  three-clean : Sublist (take 3 honest) clean
  three-clean = Sublist-take 3 honest clean honest-clean

  three_recover : recover_secret_from_partial_proofs p (take 3 honest) ≡ ok secret
  three_recover =
      recover_secret-compute_partial_proof hashing draw secret 3 5 p shares nonce (take 3 honest)
        tolerable.hash tolerable.prime tolerable.large tolerable.shared tolerable.unit
        (All-take (IsAnswer hashing p nonce shares) 3 honest tolerable.answers)
        (Distinct-residues p (take 3 honest)
          (Distinct-Sublist p (take 3 honest) clean three-clean tolerable.indices))
        (omega (arith, length-three)) (omega (arith, length-three))

  chosen_lem :
      (commitment : Str)
      → commitment_hash hashing secret ≡ ok commitment
      → (chosen : List Proof) × (search hashing codec p (some commitment) (combinations 3 clean)
          ≡ ok (some chosen))
  chosen_lem commitment hashed =
      search-Elem hashing codec p secret commitment (take 3 honest) (combinations 3 clean)
        tolerable.fits
        (All-mono _ (Recovers p) (combinations 3 clean)
          (λ s of.
            three-Recovers s tolerable.prime of.0
              (Distinct-Sublist p s clean of.1 tolerable.indices))
          (combinations-Sublist 3 clean))
        (subst (λ k. Elem (take 3 honest) (combinations k clean)) length-three
          (Elem-combinations (take 3 honest) clean three-clean))
        three_recover hashed

  decide_lem :
      (signatures : Signatures) (gather : Bytes → Result (List Proof)) (did signature_hex : Str)
      (ledger : Ledger) (public_key : Bytes) (commitment : Str)
      → get_public_key codec did ledger ≡ ok (some public_key)
      → signature_holds hashing codec p signatures public_key nonce did signature_hex ≡ true
      → gather nonce ≡ ok proofs
      → commitment_hash hashing secret ≡ ok commitment
      → get_commitment_hash codec did ledger ≡ ok (some commitment)
      → (chosen : List Proof) × (decide hashing codec p signatures
            (gather nonce)
            nonce
            did
            signature_hex
            ledger
          ≡ ok (accepted chosen))
  unfolding decide check_did choose
  decide_lem signatures gather did signature_hex ledger public_key commitment known signed gathered
        hashed registered =
      let chosen = chosen_lem commitment hashed in
      let round =
        run_pbft_round_live (hex (hashing.sha3_256 nonce)) (from_bytes (hashing.sha3_256 nonce) % p)
          (round_id_of hashing codec p nonce did) proofs tolerable.ids clean-majority.0
          clean-majority.1 in
      (
        chosen.0,
        rw
            (
              known,
              signed,
              gathered,
              round,
              registered,
              clean_lem proofs (take 3 clean)
                  (omega (arith, length-Sublist honest proofs tolerable.among, tolerable.enough))
                  refl,
              chosen.1,
            )
            refl,
      )

  -- With a live challenge, the user's key and commitment in the ledger, a signature that holds and
  -- a system key that signs whatever quorum, an authentication succeeds with the token that is
  -- issued and an `expires_in` of 60 if at least three of the answers, and more than half of them, are honest and
  -- come from holders of the secret's shares. The others may carry any value, hash and H; only do
  -- the nodes differ, and those with the challenge's hash and H do not repeat an index. The prime
  -- is above 5 and fits 32 bytes, and the H of the challenge is not zero.
  pub authenticate_tolerant :
      (signatures : Signatures) (base64 : Base64) (pqc_available : Bool) (system_key : Option Bytes)
      (moment : Moment) (gather : Bytes → Result (List Proof))
      (did challenge_id signature_hex : Str) (service : Service) (public_key : Bytes)
      (commitment : Str) (token : List ℕ → Str)
      → (consume moment.now challenge_id service.challenges).0 ≡ some nonce
      → get_public_key codec did service.ledger ≡ ok (some public_key)
      → signature_holds hashing codec p signatures public_key nonce did signature_hex ≡ true
      → gather nonce ≡ ok proofs
      → commitment_hash hashing secret ≡ ok commitment
      → get_commitment_hash codec did service.ledger ≡ ok (some commitment)
      → ((quorum : List ℕ)
          → issue_token signatures codec pqc_available system_key moment.token_seconds moment.jti
              did quorum
            ≡ ok (token quorum))
      → (quorum : List ℕ) × ((authenticate hashing codec p signatures base64 pqc_available
            system_key moment gather did challenge_id signature_hex service).0
          ≡ ok (success (token quorum) 60))
  unfolding authenticate continue_with conclude grant
  authenticate_tolerant signatures base64 pqc_available system_key moment gather did challenge_id
        signature_hex service public_key commitment token live known signed gathered hashed
        registered issued =
      let decided =
        decide_lem signatures gather did signature_hex service.ledger public_key commitment known
          signed gathered hashed registered in
      let quorum = node_ids hashing codec p decided.0 in
      (quorum, rw (live, decided.1, issued quorum) refl)
