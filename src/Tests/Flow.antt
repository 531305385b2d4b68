-- ===== src/Tests/Flow.antt =====
-- authentication/authenticate.py on concrete inputs.
use decentralized_idp.Prelude.{arith, ◌≡◌, refl, List, [], ◌∷◌, ◌++◌, ok, true, some, Result}
use decentralized_idp.Stdlib.Bytes.{Bytes, Str, codes, bytes_eq, to_bytes}
use decentralized_idp.Stdlib.Hex.{hex, hex_digit, from_hex, is_space, unhex_digit}
use decentralized_idp.Stdlib.Dict.{lookup, insert, erase}
use decentralized_idp.Stdlib.Counter.{most_common, counter, count_up, greatest}
use decentralized_idp.Stdlib.Json.{
  Fields, text, field, end, get_field, subscript, as_text, is_truthy,
}
use decentralized_idp.Crypto.Lagrange.{
  basis_loop, extend_basis, interpolate_loop, lagrange_interpolate, mod_inverse, neg_mod, sub_mod,
}
use decentralized_idp.Crypto.Hkdf.{commitment_hash}
use decentralized_idp.Node.PartialProof.{
  Proof, recover_secret_from_partial_proofs, recovered_shares,
}
use decentralized_idp.Node.Pbft.{
  accepted_proofs, add_all, add_prepare_message, commit, init, run_pbft_round, try_commit,
  try_commit_on,
}
use decentralized_idp.Ledger.{
  empty, append, verify_chain, get_public_key, get_commitment_hash, get_register_data,
  last_register, new_row,
}
use decentralized_idp.Authentication.Challenge.{issue, consume}
use decentralized_idp.Authentication.Challenge.SingleUse.{clean_up, perform_all}
use decentralized_idp.Authentication.Tokens.{
  signing_input, token_fields, b64url_encode, issue_token, pqc_verify,
}
use decentralized_idp.Authentication.Flow.{
  Service, Outcome, failed, success, Moment, success_fields, authenticate, clean_proofs,
  continue_with, conclude, decide, check_did, choose, combinations, grant, search, signature_holds,
}
use decentralized_idp.Authentication.Flow.Soundness.{authenticate-verify_chain, authenticate_once}
use decentralized_idp.Authentication.Flow.Success.{IsAuthentic, authenticate-IsAuthentic}
use decentralized_idp.Tests.Serial.{serial}
use decentralized_idp.Tests.Fixtures.{
  fixed_hashing-IsHashing, seven-IsPrime, fixed_hashing, plain_signatures, plain_base64,
}
use decentralized_idp.Tests.Node.{
  answers, answers-IsAnswer, unit, honest_majority, three_votes, vote,
}
use decentralized_idp.Node.Pbft.Liveness.{first_three}
use decentralized_idp.Authentication.Flow.CleanUp.{run_pbft_round-clean_proofs}
use decentralized_idp.Tests.Crypto.{draw, five_shares, five_shares_lem}
use decentralized_idp.Authentication.Flow.Completeness.{IsAnswered, authenticate_complete}

abbrev pub did_a : Str
did_a = codes "did:a"

abbrev registration : Fields
registration =
    field (codes "public_key") (text (hex (9 ∷ [])))
      (field (codes "commitment_hash") (text (hex (fixed_hashing.sha3_256 []))) end)

abbrev pub service : Service
service = record {
  challenges = (issue (8 ∷ []) (codes "c1") 100 did_a []).0;
  ledger = (append fixed_hashing serial (codes "DID_REGISTER") did_a registration 5 empty).0;
}

abbrev pub moment : Moment
moment = record { now = 150; timestamp = 151; token_seconds = 1; jti = codes "j" }

abbrev pub gather : Bytes → Result (List Proof)
gather nonce = ok answers

abbrev pub token : Str
token =
    signing_input serial true (token_fields did_a 1 (codes "j") (2 ∷ 4 ∷ 5 ∷ []))
    ++ codes "."
    ++ b64url_encode (1 ∷ [])

abbrev run : Result Outcome × Service
run =
    authenticate fixed_hashing serial 7 plain_signatures plain_base64 true (some (3 ∷ [])) moment
      gather did_a (codes "c1") (codes "00") service

run_succeeds : run.0 ≡ ok (success token 60)
unfolding authenticate clean_proofs continue_with consume lookup issue insert erase bytes_eq
    conclude decide get_public_key get_register_data last_register append new_row hex hex_digit
    from_hex is_space unhex_digit is_truthy subscript as_text get_field check_did choose
    combinations grant search signature_holds issue_token pqc_verify commitment_hash basis_loop
    extend_basis interpolate_loop lagrange_interpolate mod_inverse neg_mod sub_mod
    get_commitment_hash recover_secret_from_partial_proofs recovered_shares accepted_proofs add_all
    add_prepare_message commit init run_pbft_round try_commit try_commit_on to_bytes most_common
    counter count_up greatest
run_succeeds = refl

authenticate-IsAuthentic_example :
    (nonce : Bytes) × (chosen : List Proof) × ((consume 150 (codes "c1") service.challenges).0
      ≡ some nonce)
    × IsAuthentic fixed_hashing serial 7 plain_signatures gather nonce did_a
        (codes "00")
        service.ledger
        chosen
    × (run.1.ledger
        ≡ (append fixed_hashing serial
            (codes "AUTH_SUCCESS")
            did_a
            (success_fields fixed_hashing serial 7 plain_base64 chosen token)
            151
            service.ledger).0)
authenticate-IsAuthentic_example =
    authenticate-IsAuthentic fixed_hashing serial 7 plain_signatures plain_base64 true
      (some (3 ∷ [])) moment gather did_a (codes "c1") (codes "00") service token 60 run_succeeds

authenticate-verify_chain_example :
    verify_chain fixed_hashing serial run.1.ledger
    ≡ verify_chain fixed_hashing serial service.ledger
authenticate-verify_chain_example =
    authenticate-verify_chain fixed_hashing serial 7 plain_signatures plain_base64 true
      (some (3 ∷ [])) moment gather did_a (codes "c1") (codes "00") service

authenticate_once_example :
    let again =
      authenticate fixed_hashing serial 7 plain_signatures plain_base64 true
        (some (3 ∷ []))
        moment
        gather
        did_a
        (codes "c1")
        (codes "00")
        (record {
          challenges = perform_all (clean_up 140 ∷ []) run.1.challenges;
          ledger = run.1.ledger;
        }) in
    (again.0 ≡ ok (failed (codes "challenge_expired_or_invalid"))) × (again.1.ledger ≡ run.1.ledger)
authenticate_once_example =
    authenticate_once fixed_hashing serial 7 plain_signatures plain_base64 true (some (3 ∷ []))
      moment moment gather gather did_a did_a (codes "c1") (codes "00") (codes "00") service
      (clean_up 140 ∷ []) run.1.ledger tt

answered : IsAnswered fixed_hashing 7 draw 4 five_shares (8 ∷ []) answers
answered = record {
  hash = fixed_hashing-IsHashing;
  prime = seven-IsPrime;
  large = omega arith;
  shared = five_shares_lem;
  unit = unit;
  answers = answers-IsAnswer;
  indices = ground arith;
  ids = ground arith;
  enough = omega arith;
}

live : (consume 150 (codes "c1") service.challenges).0 ≡ some (8 ∷ [])
unfolding consume issue lookup insert bytes_eq
live = refl

known : get_public_key serial did_a service.ledger ≡ ok (some (9 ∷ []))
unfolding get_public_key get_register_data last_register append new_row bytes_eq hex hex_digit
    from_hex is_space unhex_digit is_truthy subscript as_text get_field
known = refl

abbrev digest_text : Str
digest_text = hex (fixed_hashing.sha3_256 [])

registered : get_commitment_hash serial did_a service.ledger ≡ ok (some digest_text)
unfolding get_commitment_hash get_register_data last_register append new_row bytes_eq is_truthy
    subscript as_text get_field hex
registered = refl

authenticate_complete_example : run.0 ≡ ok (success token 60)
authenticate_complete_example =
    authenticate_complete fixed_hashing serial 7 draw 4 five_shares (8 ∷ []) answers answered
      plain_signatures plain_base64 true (some (3 ∷ [])) moment gather did_a (codes "c1")
      (codes "00") service (9 ∷ []) digest_text token live known
      (unfold signature_holds from_hex is_space unhex_digit pqc_verify in refl) refl
      (unfold commitment_hash to_bytes in refl) registered (unfold issue_token in refl)

run_pbft_round-clean_proofs_example :
    run_pbft_round (codes "r") honest_majority
    ≡ first_three (clean_proofs honest_majority three_votes)
run_pbft_round-clean_proofs_example =
    run_pbft_round-clean_proofs (codes "r") (vote 1 6 3) three_votes three_votes (ground arith)
