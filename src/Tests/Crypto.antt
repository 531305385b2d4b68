-- ===== src/Tests/Crypto.antt =====
-- crypto/ on concrete inputs.
use decentralized_idp.Prelude.{
  ℕ, ◌+◌, ◌-◌, ◌≡◌, ◌≤◌, refl, List, [], ◌∷◌, arith, ok, err, value_error, length, true, false,
  none, some, ◌⊎◌, ◌<◌,
}
use decentralized_idp.Stdlib.Bytes.{codes, to_bytes, big_endian, bytes_eq}
use decentralized_idp.Crypto.Lagrange.{
  Share, lagrange_interpolate, interpolate_loop, basis_loop, extend_basis, mod_inverse, neg_mod,
  sub_mod,
}
use decentralized_idp.Crypto.Sss.{
  generate_shares, share_loop, share_value, random_coeffs, reconstruct_secret,
}
use decentralized_idp.Crypto.Sharing.{
  IsSharable, count_from, reconstruct_secret-generate_shares, generate_shares_total,
}
use decentralized_idp.Crypto.Recovery.{xs_of}
use decentralized_idp.Crypto.Totality.{reduced, lagrange_interpolate_total}
use decentralized_idp.Crypto.Interpolation.{Distinct}
use decentralized_idp.Crypto.Hkdf.{derive_identity_secret, derive_identity_secret_bounds}
use decentralized_idp.Crypto.Feldman.{
  commitment, commitment_loop, generate_commitments, matches_at, verify_share,
}
use decentralized_idp.Crypto.Commitments.{
  committed, verify_share-generate_commitments, verify_share_binding,
}
use decentralized_idp.Crypto.Keyfile.{save_keyfile, load_keyfile, load_keyfile-save_keyfile}
use decentralized_idp.Tests.Serial.{serial, serial-IsCodec}
use decentralized_idp.Tests.Fixtures.{
  fixed_hashing, plain_hashing, plain_aead, plain_aead-IsAead, plain_derivation, seven-IsPrime,
}

abbrev pub draw : ℕ → ℕ
draw k = k + 1

-- The shares of 4 under the polynomial 4 + 2 x + 3 x ^ 2 over the integers modulo 7.
abbrev pub five_shares : List Share
five_shares = (1, 2) ∷ (2, 6) ∷ (3, 2) ∷ (4, 4) ∷ (5, 5) ∷ []

pub five_shares_lem : generate_shares draw 4 3 5 7 ≡ ok five_shares
unfolding generate_shares share_loop share_value random_coeffs
five_shares_lem = refl

-- A share counted twice leaves no inverse.
repeated_index : lagrange_interpolate ((1, 2) ∷ (1, 2) ∷ (3, 2) ∷ []) 7 ≡ err value_error
unfolding lagrange_interpolate interpolate_loop basis_loop extend_basis mod_inverse neg_mod sub_mod
repeated_index = refl

-- The third x is the first one again modulo 7.
abbrev wrapped_shares : List Share
wrapped_shares = (1, 2) ∷ (2, 6) ∷ (8, 2) ∷ []

lagrange_interpolate_total_example :
    ((r : ℕ) × (lagrange_interpolate wrapped_shares 7 ≡ ok r)
      × (r < 7)
      × Distinct (xs_of (reduced 7 wrapped_shares)))
    ⊎ ((lagrange_interpolate wrapped_shares 7 ≡ err value_error)
        × (¬ (Distinct (xs_of (reduced 7 wrapped_shares)))))
lagrange_interpolate_total_example = lagrange_interpolate_total 7 wrapped_shares seven-IsPrime

reconstruct_secret-generate_shares_example :
    reconstruct_secret ((5, 5) ∷ (2, 6) ∷ (4, 4) ∷ []) 7 ≡ ok 4
reconstruct_secret-generate_shares_example =
    reconstruct_secret-generate_shares draw 4 3 5 7 five_shares ((5, 5) ∷ (2, 6) ∷ (4, 4) ∷ [])
      seven-IsPrime (omega arith) five_shares_lem (ground arith) (ground arith) (omega arith)

generate_shares_total_example :
    ((shares : List Share) × (generate_shares draw 7 3 5 7 ≡ ok shares)
      × (length shares ≡ 5)
      × (xs_of shares ≡ count_from 1 5)
      × IsSharable 7 3 5 7)
    ⊎ ((generate_shares draw 7 3 5 7 ≡ err value_error) × (¬ (IsSharable 7 3 5 7)))
generate_shares_total_example = generate_shares_total draw 7 3 5 7

derive_identity_secret_bounds_example :
    (1 ≤ derive_identity_secret fixed_hashing 7 (1 ∷ []) (2 ∷ []) (codes "pw"))
    × (derive_identity_secret fixed_hashing 7 (1 ∷ []) (2 ∷ []) (codes "pw") ≤ 7 - 1)
derive_identity_secret_bounds_example =
    derive_identity_secret_bounds fixed_hashing 7 (1 ∷ []) (2 ∷ []) (codes "pw") (omega arith)

abbrev published : List (List ℕ)
published = committed (9 ∷ []) 0 2 ∷ committed (9 ∷ []) 1 6 ∷ []

published_lem :
    generate_commitments plain_hashing (9 ∷ []) (2 ∷ 6 ∷ []) none ≡ ok (published, 9 ∷ [])
unfolding generate_commitments commitment_loop commitment to_bytes
published_lem = refl

verify_share-generate_commitments_example :
    verify_share plain_hashing (2, 6) published (9 ∷ []) ≡ ok true
verify_share-generate_commitments_example =
    verify_share-generate_commitments plain_hashing (9 ∷ []) (2 ∷ 6 ∷ []) none published (9 ∷ []) 1
      6 published_lem refl

-- A value that was not committed to is refused.
other_value : verify_share plain_hashing (2, 5) published (9 ∷ []) ≡ ok false
unfolding verify_share commitment matches_at to_bytes big_endian bytes_eq
other_value = refl

six_accepted : verify_share plain_hashing (2, 6) published (9 ∷ []) ≡ ok true
unfolding verify_share commitment matches_at to_bytes big_endian bytes_eq
six_accepted = refl

verify_share_binding_example : ◌≡◌ {A = ℕ} 6 6
verify_share_binding_example =
    verify_share_binding plain_hashing 1 6 6 published (9 ∷ []) (λ e. e) six_accepted six_accepted

load_keyfile-save_keyfile_example :
    (load_keyfile plain_aead plain_derivation serial
        (some (
          save_keyfile plain_aead plain_derivation serial
            (1 ∷ [])
            (2 ∷ [])
            (3 ∷ [])
            (4 ∷ [])
            (codes "pw")
            (codes "Ed25519")))
        (codes "pw")
      ≡ ok (3 ∷ [], 4 ∷ []))
    × (load_keyfile plain_aead plain_derivation serial
          (some (
            save_keyfile plain_aead plain_derivation serial
              (1 ∷ [])
              (2 ∷ [])
              (3 ∷ [])
              (4 ∷ [])
              (codes "pw")
              (codes "Ed25519")))
          (codes "no")
        ≡ ok (3 ∷ [], 4 ∷ []))
load_keyfile-save_keyfile_example =
    load_keyfile-save_keyfile plain_aead plain_derivation serial serial-IsCodec plain_aead-IsAead
      (1 ∷ []) (2 ∷ []) (3 ∷ []) (4 ∷ []) (codes "pw") (codes "no") (codes "Ed25519") (ground arith)
      (ground arith) (ground arith) (ground arith)
