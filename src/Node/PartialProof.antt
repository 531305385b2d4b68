-- ===== src/Node/PartialProof.antt =====
-- node/partial_proof.py: a node's answer to a challenge, and the secret that three answers give.
pub mod Recovery
use native.Mathlib.Nat.{mod-lt}
use decentralized_idp.Prelude.{
  ℕ, ◌-◌, ◌*◌, ◌%◌, ◌^◌, ◌≤◌, ◌<◌, ◌≡◌, List, [], ◌∷◌, map, Result, ok, err, value_error, ◌>>=◌,
  length, ltb, if◌then◌else◌,
}
use decentralized_idp.Stdlib.Bytes.{Bytes, Str}
use decentralized_idp.Stdlib.Hex.{hex, int_16}
use decentralized_idp.External.{Hashing}
use decentralized_idp.Crypto.{threshold}
use decentralized_idp.Crypto.Lagrange.{Share, lagrange_interpolate}

-- The dictionary that a node answers with; `h` is its entry "H".
pub record Proof : Type 0 where
  pub node_id : ℕ
  pub x : ℕ
  pub partial_value : ℕ
  pub h : ℕ
  pub challenge_hash : Str

unfoldable pub compute_partial_proof : Hashing → ℕ → Share → Bytes → ℕ → Result Proof
compute_partial_proof hashing p share challenge_nonce node_id = do
  let challenge_hash = hex (hashing.sha3_256 challenge_nonce)
  number ← int_16 challenge_hash
  let h = number % p
  ok (record {
    node_id = node_id;
    x = share.0;
    partial_value = (share.1 * h) % p;
    h = h;
    challenge_hash = challenge_hash;
  })

-- The shares that the answers give once the factor H is divided out.
unfoldable pub recovered_shares : ℕ → ℕ → List Proof → List Share
recovered_shares p h_inv [] = []
recovered_shares p h_inv (proof ∷ rest) =
    (proof.x, proof.partial_value * h_inv % p) ∷ recovered_shares p h_inv rest

-- `proofs[0]["H"]`, read after the test that there are enough proofs.
abbrev pub first_h : List Proof → ℕ
first_h [] = 0
first_h (proof ∷ rest) = proof.h

unfoldable pub recover_secret_from_partial_proofs : ℕ → List Proof → Result ℕ
unfolding recovered_shares
recover_secret_from_partial_proofs p proofs =
    if ltb (length proofs) threshold
    then err value_error
    else lagrange_interpolate (recovered_shares p (first_h proofs ^ (p - 2) % p) proofs) p
