-- ===== src/Tests/Tolerance.antt =====
-- authentication/authenticate.py on answers of which one is wrong.
use decentralized_idp.Prelude.{
  ℕ, ◌≡◌, refl, List, [], ◌∷◌, ◌++◌, All, inl, inr, ok, some, true, arith,
}
use decentralized_idp.Stdlib.Bytes.{
  Str, codes, bytes_eq, to_bytes, big_endian, from_bytes, from_bytes_loop,
}
use decentralized_idp.Stdlib.Hex.{
  hex, hex_digit, from_hex, is_space, unhex_digit, int_16, int_16_loop,
}
use decentralized_idp.Stdlib.Dict.{lookup, insert}
use decentralized_idp.Stdlib.Json.{text, field, end, get_field, subscript, as_text, is_truthy}
use decentralized_idp.Crypto.Hkdf.{commitment_hash}
use decentralized_idp.Node.PartialProof.{Proof, compute_partial_proof}
use decentralized_idp.Node.PartialProof.Recovery.{IsAnswer}
use decentralized_idp.Node.Pbft.{
  init, run_pbft_round, try_commit, try_commit_on, commit, add_all, add_prepare_message,
  accepted_proofs,
}
use decentralized_idp.Stdlib.Counter.{most_common, counter, count_up, greatest}
use decentralized_idp.Ledger.{
  empty, append, get_public_key, get_commitment_hash, get_register_data, last_register, new_row,
}
use decentralized_idp.Authentication.Challenge.{issue, consume}
use decentralized_idp.Authentication.Tokens.{
  signing_input, token_fields, b64url_encode, issue_token, pqc_verify,
}
use decentralized_idp.Authentication.Flow.{Service, success, authenticate, signature_holds}
use decentralized_idp.Authentication.Flow.Tolerance.{IsTolerable, authenticate_tolerant}
use decentralized_idp.Tests.Serial.{serial}
use decentralized_idp.Tests.Fixtures.{seven-IsPrime, plain_signatures, plain_base64}
use decentralized_idp.Tests.Crypto.{draw, five_shares, five_shares_lem}
use decentralized_idp.Tests.Flow.{did_a, moment}
use decentralized_idp.Tests.Attacks.{tail_hashing, tail_hashing-IsHashing}

-- The H of the nonce 8 is 1.
abbrev proof : ℕ → ℕ → Proof
proof x value = record {
  node_id = x;
  x = x;
  partial_value = value;
  h = 1;
  challenge_hash = hex (big_endian 32 8);
}

abbrev honest : List Proof
honest = proof 2 6 ∷ proof 4 4 ∷ proof 5 5 ∷ []

-- The first node holds the share (1, 2) and answers with another value.
abbrev proofs : List Proof
proofs = proof 1 3 ∷ honest

honest_answers : All (IsAnswer tail_hashing 7 (8 ∷ []) five_shares) honest
unfolding compute_partial_proof int_16 hex int_16_loop unhex_digit hex_digit big_endian from_bytes
    from_bytes_loop
honest_answers = (
  ((2, 6), inr (inl refl), refl),
  (
    ((4, 4), inr (inr (inr (inl refl))), refl),
    (((5, 5), inr (inr (inr (inr (inl refl)))), refl), tt),
  ),
)

tolerable : IsTolerable tail_hashing 7 draw 4 five_shares (8 ∷ []) honest proofs
unfolding big_endian from_bytes from_bytes_loop bytes_eq hex hex_digit
tolerable = record {
  hash = tail_hashing-IsHashing;
  prime = seven-IsPrime;
  large = omega arith;
  fits = omega arith;
  shared = five_shares_lem;
  unit = omega arith;
  answers = honest_answers;
  among = inr (inl (refl, inl (refl, inl (refl, tt))));
  enough = omega arith;
  majority = omega arith;
  ids = ground arith;
  indices = ground arith;
}

-- The consensus round accepts the wrong answer, as its hash and its H are those of the others.
wrong_accepted : run_pbft_round (codes "r") proofs ≡ some (proof 1 3 ∷ proof 2 6 ∷ proof 4 4 ∷ [])
unfolding run_pbft_round try_commit init try_commit_on commit add_all add_prepare_message
    accepted_proofs most_common counter count_up greatest bytes_eq hex hex_digit big_endian
wrong_accepted = refl

abbrev digest : Str
digest = hex (big_endian 32 4)

abbrev service : Service
service = record {
  challenges = (issue (8 ∷ []) (codes "c1") 100 did_a []).0;
  ledger =
      (append tail_hashing serial (codes "DID_REGISTER") did_a
        (field (codes "public_key") (text (hex (9 ∷ [])))
          (field (codes "commitment_hash") (text digest) end))
        5 empty).0;
}

abbrev token : List ℕ → Str
token quorum =
    signing_input serial true (token_fields did_a 1 (codes "j") quorum)
    ++ codes "."
    ++ b64url_encode (1 ∷ [])

live : (consume 150 (codes "c1") service.challenges).0 ≡ some (8 ∷ [])
unfolding consume issue lookup insert bytes_eq
live = refl

known : get_public_key serial did_a service.ledger ≡ ok (some (9 ∷ []))
unfolding get_public_key get_register_data last_register append new_row bytes_eq hex hex_digit
    from_hex is_space unhex_digit is_truthy subscript as_text get_field big_endian
known = refl

registered : get_commitment_hash serial did_a service.ledger ≡ ok (some digest)
unfolding get_commitment_hash get_register_data last_register append new_row bytes_eq is_truthy
    subscript as_text get_field hex big_endian
registered = refl

authenticate_tolerant_example :
    (quorum : List ℕ) × ((authenticate tail_hashing serial 7 plain_signatures plain_base64 true
        (some (3 ∷ []))
        moment
        (λ nonce. ok proofs)
        did_a
        (codes "c1")
        (codes "00")
        service).0
      ≡ ok (success (token quorum) 60))
authenticate_tolerant_example =
    authenticate_tolerant tail_hashing serial 7 draw 4 five_shares (8 ∷ []) honest proofs tolerable
      plain_signatures plain_base64 true (some (3 ∷ [])) moment (λ nonce. ok proofs) did_a
      (codes "c1") (codes "00") service (9 ∷ []) digest token live known
      (unfold signature_holds from_hex is_space unhex_digit pqc_verify in refl) refl
      (unfold commitment_hash to_bytes from_bytes from_bytes_loop big_endian hex hex_digit in refl)
      registered (λ quorum. unfold issue_token in refl)
