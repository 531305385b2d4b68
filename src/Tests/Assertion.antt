-- ===== src/Tests/Assertion.antt =====
-- The token of a successful authentication, and of a system that starts again, on concrete inputs.
use decentralized_idp.Prelude.{
  arith, ℕ, ◌+◌, ◌*◌, ◌<◌, ◌≡◌, refl, sym, ap, ◌∙◌, subst, ok_injective, List, [], ◌∷◌, ◌++◌, true,
  none, some, ok, take, All, ltb, if◌then◌else◌,
}
use decentralized_idp.Stdlib.Bytes.{Bytes, Str, codes, bytes_eq, to_bytes}
use decentralized_idp.Stdlib.Hex.{hex, hex_digit, from_hex, is_space, unhex_digit}
use decentralized_idp.Stdlib.Dict.{lookup, insert, erase}
use decentralized_idp.Stdlib.Counter.{most_common, counter, count_up, greatest}
use decentralized_idp.Stdlib.Files.{join, load_or_make, use_pair}
use decentralized_idp.Stdlib.Json.{object, Fields, get_field, subscript, as_text, is_truthy}
use decentralized_idp.Crypto.{iat_ttl_seconds}
use decentralized_idp.Crypto.Lagrange.{
  basis_loop, extend_basis, interpolate_loop, lagrange_interpolate, mod_inverse, neg_mod, sub_mod,
}
use decentralized_idp.Crypto.Hkdf.{commitment_hash}
use decentralized_idp.Crypto.Pqc.{sign_message, signatures_of}
use decentralized_idp.Node.PartialProof.{
  Proof, recover_secret_from_partial_proofs, recovered_shares,
}
use decentralized_idp.Node.Pbft.{
  accepted_proofs, add_all, add_prepare_message, commit, init, run_pbft_round, try_commit,
  try_commit_on,
}
use decentralized_idp.Ledger.{
  append, get_public_key, get_commitment_hash, get_register_data, last_register, new_row,
}
use decentralized_idp.Authentication.Challenge.{second, issue, consume}
use decentralized_idp.Authentication.Tokens.{
  signing_input, token_fields, sorted, insert_sorted, b64url_encode, issue_token, pqc_verify,
  verify_iat,
}
use decentralized_idp.Authentication.SystemKeys.{init_system_keys}
use decentralized_idp.Authentication.SystemKeys.Restart.{verify_iat-init_system_keys}
use decentralized_idp.Authentication.Flow.{
  success, accepted, authenticate, clean_proofs, continue_with, conclude, decide, check_did, choose,
  combinations, grant, search, signature_holds, node_ids,
}
use decentralized_idp.Authentication.Flow.Success.{IsAuthentic}
use decentralized_idp.Authentication.Flow.Assertion.{authenticate-verify_iat}
use decentralized_idp.Tests.Serial.{serial, serial-IsCodec}
use decentralized_idp.Tests.Fixtures.{fixed_hashing, plain_signatures}
use decentralized_idp.Tests.Node.{answers}
use decentralized_idp.Tests.TokenRoundTrip.{canonical_base64, canonical_base64-IsBase64, all_bytes}
use decentralized_idp.Tests.Keys.{
  keyed_oqs, keyed_ed, keyed-IsSignature, system_files, made_system_keys,
}
use decentralized_idp.Tests.Flow.{did_a, service, moment, gather, token}

abbrev quorum : List ℕ
quorum = 2 ∷ 4 ∷ 5 ∷ []

abbrev payload : Fields
payload = token_fields did_a 1 (codes "j") quorum

payload_bytes : All (λ c. c < 256) (serial.dumps (object payload))
payload_bytes =
    all_bytes (serial.dumps (object payload)) (unfold token_fields sorted insert_sorted in refl)

run_succeeds :
    (authenticate fixed_hashing serial 7 plain_signatures canonical_base64 true
      (some (3 ∷ []))
      moment
      gather
      did_a
      (codes "c1")
      (codes "00")
      service).0
    ≡ ok (success token 60)
unfolding authenticate clean_proofs continue_with consume lookup issue insert erase bytes_eq
    conclude decide get_public_key get_register_data last_register append new_row hex hex_digit
    from_hex is_space unhex_digit is_truthy subscript as_text get_field check_did choose
    combinations grant search signature_holds issue_token pqc_verify commitment_hash basis_loop
    extend_basis interpolate_loop lagrange_interpolate mod_inverse neg_mod sub_mod
    get_commitment_hash recover_secret_from_partial_proofs recovered_shares accepted_proofs add_all
    add_prepare_message commit init run_pbft_round try_commit try_commit_on to_bytes most_common
    counter count_up greatest
run_succeeds = refl

live : (consume 150 (codes "c1") service.challenges).0 ≡ some (8 ∷ [])
unfolding consume lookup issue insert erase bytes_eq
live = refl

abbrev three : List Proof
three = take 3 answers

decided :
    decide fixed_hashing serial 7 plain_signatures
      (gather (8 ∷ []))
      (8 ∷ [])
      did_a
      (codes "00")
      service.ledger
    ≡ ok (accepted three)
unfolding clean_proofs bytes_eq decide get_public_key get_register_data last_register append new_row
    hex hex_digit from_hex is_space unhex_digit is_truthy subscript as_text get_field check_did
    choose combinations search signature_holds pqc_verify commitment_hash basis_loop lookup
    extend_basis interpolate_loop lagrange_interpolate mod_inverse neg_mod sub_mod
    get_commitment_hash recover_secret_from_partial_proofs recovered_shares accepted_proofs add_all
    add_prepare_message commit init run_pbft_round try_commit try_commit_on to_bytes most_common
    counter count_up greatest
decided = refl

text_bytes :
    (nonce : Bytes) (chosen : List Proof)
    → (consume 150 (codes "c1") service.challenges).0 ≡ some nonce
    → decide fixed_hashing serial 7 plain_signatures
        (gather nonce)
        nonce
        did_a
        (codes "00")
        service.ledger
      ≡ ok (accepted chosen)
    → All
        (λ c. c < 256)
        (serial.dumps
          (object (token_fields did_a 1 (codes "j") (node_ids fixed_hashing serial 7 chosen))))
text_bytes nonce chosen consumed accepts =
    let same : 8 ∷ [] ≡ nonce = some_inv (sym live ∙ consumed) in
    let agree : ok (accepted three) ≡ ok (accepted chosen) =
      sym decided
      ∙ ap
          (λ n.
            decide fixed_hashing serial 7 plain_signatures (gather n) n did_a (codes "00")
              service.ledger)
          same
      ∙ accepts in
    subst
      (λ c.
        All (λ b. b < 256)
          (serial.dumps
            (object (token_fields did_a 1 (codes "j") (node_ids fixed_hashing serial 7 c)))))
      (accepted_inv agree) payload_bytes
  where
    some_inv : {a b : Bytes} → some a ≡ some b → a ≡ b
    some_inv e = cc

    accepted_inv : {a b : List Proof} → ok (accepted a) ≡ ok (accepted b) → a ≡ b
    accepted_inv e = cc

authenticate-verify_iat_example :
    (nonce : Bytes) × (chosen : List Proof) × IsAuthentic fixed_hashing serial 7 plain_signatures
      gather nonce did_a
      (codes "00")
      service.ledger
      chosen
    × (60 ≡ iat_ttl_seconds)
    × (read : Fields) × (verify_iat plain_signatures serial canonical_base64
          (some (9 ∷ []))
          2_000_000
          token
        ≡ (if ltb ((1 + iat_ttl_seconds) * second) 2_000_000 then none else some (object read)))
    × ((k : Str)
        → get_field k read
          ≡ get_field k (token_fields did_a 1 (codes "j") (node_ids fixed_hashing serial 7 chosen)))
authenticate-verify_iat_example =
    authenticate-verify_iat fixed_hashing serial 7 plain_signatures canonical_base64 true (3 ∷ [])
      (9 ∷ []) moment gather did_a (codes "c1") (codes "00") service token 60 2_000_000
      serial-IsCodec canonical_base64-IsBase64
      (λ message signature made.
        (refl, subst (All (λ c. c < 256)) (ok_injective made) (ground arith)))
      text_bytes run_succeeds

abbrev system_token : Str
system_token = signing_input serial true payload ++ codes "." ++ b64url_encode (1 ∷ 7 ∷ [])

system_issues :
    issue_token
      (signatures_of true keyed_oqs keyed_ed)
      serial
      true
      (some (7 ∷ []))
      1
      (codes "j")
      did_a
      quorum
    ≡ ok system_token
unfolding issue_token sign_message bytes_eq
system_issues = refl

restarted :
    init_system_keys true keyed_oqs keyed_ed (codes "data") (8 ∷ []) system_files
    ≡ ok ((7 ∷ [], 0 ∷ 7 ∷ []), system_files)
unfolding init_system_keys join load_or_make use_pair lookup bytes_eq
restarted = refl

verify_iat-init_system_keys_example :
    (read : Fields) × (verify_iat
        (signatures_of true keyed_oqs keyed_ed)
        serial
        canonical_base64
        (some (0 ∷ 7 ∷ []))
        61_000_000
        system_token
      ≡ (if ltb ((1 + iat_ttl_seconds) * second) 61_000_000 then none else some (object read)))
    × ((k : Str) → get_field k read ≡ get_field k payload)
verify_iat-init_system_keys_example =
    verify_iat-init_system_keys true keyed_oqs keyed_ed serial canonical_base64 (codes "data")
      (7 ∷ []) (8 ∷ []) [] system_files system_files (7 ∷ [], 0 ∷ 7 ∷ []) (7 ∷ [], 0 ∷ 7 ∷ []) 1
      61_000_000 (codes "j") did_a quorum system_token keyed-IsSignature serial-IsCodec
      canonical_base64-IsBase64 (unfold lookup in refl) made_system_keys payload_bytes system_issues
      restarted
