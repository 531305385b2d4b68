-- ===== src/Tests/EndToEnd.antt =====
-- A registration, a challenge and an authentication.
use decentralized_idp.Prelude.{
  ℕ, ◌≡◌, refl, ap, List, [], ◌∷◌, ◌++◌, none, some, true, ok, err, value_error, arith, inl, inr,
}
use decentralized_idp.Stdlib.Bytes.{Str, codes}
use decentralized_idp.Stdlib.Hex.{from_hex, is_space, unhex_digit}
use decentralized_idp.Node.Http.{Network}
use decentralized_idp.Authentication.Tokens.{
  signing_input, token_fields, b64url_encode, issue_token, pqc_verify,
}
use decentralized_idp.Authentication.Flow.{success, signature_holds}
use decentralized_idp.Api.{System, respond, register_user, get_challenge, authenticate_user}
use decentralized_idp.Api.EndToEnd.{register_user-authenticate_user}
use decentralized_idp.Tests.Serial.{serial, serial-IsCodec}
use decentralized_idp.Tests.Fixtures.{
  fixed_hashing, fixed_hashing-IsHashing, plain_aead, plain_aead-IsAead, plain_kem,
  plain_derivation, plain_signatures, plain_base64, seven-IsPrime,
}
use decentralized_idp.Tests.Node.{unit}
use decentralized_idp.Tests.Crypto.{draw}
use decentralized_idp.Tests.Flow.{moment}
use decentralized_idp.Tests.Registration.{supply, before, registered, after_lem}

abbrev silent : Network
silent = record { post = λ url body. err value_error }

abbrev system : System
system = record {
  nodes = before.nodes;
  peers = none;
  ledger = before.ledger;
  challenges = [];
  files = [];
}

abbrev quorum : List ℕ
quorum = 4 ∷ 2 ∷ 5 ∷ []

abbrev token : Str
token =
    signing_input serial true (token_fields registered.did 1 (codes "j") quorum)
    ++ codes "."
    ++ b64url_encode (1 ∷ [])

register_user-authenticate_user_example :
    (authenticate_user fixed_hashing plain_aead 7 silent serial plain_signatures plain_base64 true
      (some (3 ∷ []))
      140
      moment
      draw
      (4 ∷ 2 ∷ 5 ∷ 1 ∷ [])
      registered.did
      (codes "c1")
      (codes "00")
      (get_challenge
        (8 ∷ [])
        (codes "c1")
        100
        registered.did
        (register_user fixed_hashing plain_aead plain_kem plain_derivation serial true 7
          (codes "pw")
          supply
          system).1).1).0
    ≡ ok (success token 60)
register_user-authenticate_user_example =
    register_user-authenticate_user fixed_hashing plain_aead plain_kem plain_derivation serial
      plain_signatures plain_base64 silent true 7 fixed_hashing-IsHashing plain_aead-IsAead
      serial-IsCodec seven-IsPrime (omega arith) (some (3 ∷ [])) (codes "pw") supply system
      registered (8 ∷ []) (codes "c1") 100 140 moment draw (4 ∷ 2 ∷ 5 ∷ 1 ∷ []) (codes "00") token
      refl (ground arith) (ground arith) refl
      ((refl, refl), ((refl, refl), ((refl, refl), ((refl, refl), ((refl, refl), tt)))))
      (unfold register_user in ap respond after_lem) unit (omega arith) (ground arith)
      (
        inr (inr (inr (inl refl))),
        (inr (inl refl), (inr (inr (inr (inr (inl refl)))), (inl refl, tt))),
      )
      (omega arith) (unfold signature_holds from_hex is_space unhex_digit pqc_verify in refl)
      (unfold issue_token in refl)
