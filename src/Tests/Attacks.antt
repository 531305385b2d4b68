-- ===== src/Tests/Attacks.antt =====
-- simulate/ on concrete inputs.
use decentralized_idp.Prelude.{
  ℕ, zero, suc, ◌==◌, ◌^◌, sym, ap, ◌∙◌, subst, ok_injective, ◌<◌, ◌%◌, ◌/◌, ◌≡◌, ◌≢◌, refl, List,
  [], ◌∷◌, inl, inr, arith, All, All-append_one, true, false, none, some, ok, if◌then◌else◌,
}
use decentralized_idp.Stdlib.Bytes.{
  Str, codes, from_bytes, from_bytes_loop, big_endian, length-big_endian, from_bytes-big_endian,
  to_bytes, bytes_eq, decimal, decimal_loop,
}
use decentralized_idp.Stdlib.Hex.{hex, hex_digit}
use decentralized_idp.Stdlib.Dict.{lookup}
use decentralized_idp.Stdlib.Json.{text, field, end, get_field, subscript, as_text, is_truthy}
use decentralized_idp.External.{Hashing, IsHashing}
use decentralized_idp.Crypto.Lagrange.{
  lagrange_interpolate, interpolate_loop, basis_loop, extend_basis, mod_inverse, neg_mod, sub_mod,
}
use decentralized_idp.Crypto.Hkdf.{commitment_hash}
use decentralized_idp.Crypto.TwoShares.{lagrange_interpolate-two_shares}
use decentralized_idp.Node.ShareStore.{get_share, open_row, check_hash, share_hash_of}
use decentralized_idp.Node.Answers.{Node}
use decentralized_idp.Node.Transport.{find_node, register_node, register_all, request_partial_proof}
use decentralized_idp.Ledger.{
  Ledger, empty, append, get_commitment_hash, get_register_data, last_register, new_row,
}
use decentralized_idp.Simulate.{theft, take_offline, bring_online}
use decentralized_idp.Simulate.Crash.{request_partial_proof-take_offline, bring_online-take_offline}
use decentralized_idp.Simulate.Theft.{IsHolder, theft_fails}
use decentralized_idp.Tests.Serial.{serial}
use decentralized_idp.Tests.Fixtures.{plain_aead, seven-IsPrime}
use decentralized_idp.Tests.Crypto.{draw, five_shares, five_shares_lem}
use decentralized_idp.Tests.Flow.{did_a}

-- A digest that keeps the last 32 bytes of the message.
abbrev pub tail_hashing : Hashing
tail_hashing = record {
  sha3_256 = λ m. big_endian 32 (from_bytes m);
  hmac_sha3_256 = λ k m. big_endian 32 (from_bytes m);
}

big_endian_bytes : (width n : ℕ) → All (λ b. b < 256) (big_endian width n)
unfolding big_endian
big_endian_bytes zero n = tt
big_endian_bytes (suc width) n =
    All-append_one (λ b. b < 256) (big_endian width (n / 256)) (n % 256)
      (big_endian_bytes width (n / 256)) (omega arith)

pub tail_hashing-IsHashing : IsHashing tail_hashing
tail_hashing-IsHashing = record {
  sha3_length = λ m. length-big_endian 32 (from_bytes m);
  sha3_bytes = λ m. big_endian_bytes 32 (from_bytes m);
}

abbrev pub holder : ℕ → ℕ → Node
holder x y = record {
  node_id = x;
  online = true;
  byzantine = false;
  share_store = record {
    aes_key = 1 ∷ [];
    shares =
        (
          did_a,
          record {
            x_coord = x;
            y_coord_encrypted = big_endian 32 y;
            aes_nonce = [];
            share_hash = share_hash_of tail_hashing x y;
            feldman_commitment = none;
          },
        )
        ∷ [];
  };
  kem_public_key = [];
}

abbrev pub nodes : List Node
nodes = holder 1 2 ∷ holder 2 6 ∷ holder 4 4 ∷ []

first-IsHolder : IsHolder tail_hashing plain_aead did_a nodes 1 (1, 2)
unfolding find_node register_node register_all get_share open_row check_hash share_hash_of lookup
    bytes_eq from_bytes from_bytes_loop big_endian hex hex_digit decimal decimal_loop
first-IsHolder = record { node = holder 1 2; found = refl; held = refl }

third-IsHolder : IsHolder tail_hashing plain_aead did_a nodes 4 (4, 4)
unfolding find_node register_node register_all get_share open_row check_hash share_hash_of lookup
    bytes_eq from_bytes from_bytes_loop big_endian hex hex_digit decimal decimal_loop
third-IsHolder = record { node = holder 4 4; found = refl; held = refl }

abbrev digest : Str
digest = hex (big_endian 32 4)

abbrev ledger : Ledger
ledger =
    (append tail_hashing serial (codes "DID_REGISTER") did_a
      (field (codes "commitment_hash") (text digest) end) 5 empty).0

committed : commitment_hash tail_hashing 4 ≡ ok digest
unfolding commitment_hash to_bytes from_bytes from_bytes_loop big_endian hex hex_digit
committed = refl

registered : get_commitment_hash serial did_a ledger ≡ ok (some digest)
unfolding get_commitment_hash get_register_data last_register append new_row bytes_eq is_truthy
    subscript as_text get_field hex hex_digit big_endian
registered = refl

-- The two shares interpolate to 6, whose digest is another one than that of the secret 4.
pooled : lagrange_interpolate ((1, 2) ∷ (4, 4) ∷ []) 7 ≡ ok 6
unfolding lagrange_interpolate interpolate_loop basis_loop extend_basis mod_inverse neg_mod sub_mod
pooled = refl

pooled_apart :
    (v : ℕ)
    → lagrange_interpolate ((1, 2) ∷ (4, 4) ∷ []) 7 ≡ ok v
    → v ≢ 4
    → tail_hashing.sha3_256 (big_endian 32 v) ≢ tail_hashing.sha3_256 (big_endian 32 4)
pooled_apart v e ne =
    subst (λ u. tail_hashing.sha3_256 (big_endian 32 u) ≢ tail_hashing.sha3_256 (big_endian 32 4))
      (ok_injective (sym pooled ∙ e)) six_apart
  where
    read : (u : ℕ) → u < 256 ^ 32 → from_bytes (tail_hashing.sha3_256 (big_endian 32 u)) ≡ u
    read u h =
        ap (λ w. from_bytes (big_endian 32 w)) (from_bytes-big_endian 32 u h)
        ∙ from_bytes-big_endian 32 u h

    six_apart : tail_hashing.sha3_256 (big_endian 32 6) ≢ tail_hashing.sha3_256 (big_endian 32 4)
    six_apart same =
        let equal : 6 ≡ 4 =
          sym (read 6 (omega arith)) ∙ ap from_bytes same ∙ read 4 (omega arith) in
        omega (arith, equal)

theft_fails_example :
    theft tail_hashing plain_aead 7 serial (1 ∷ 4 ∷ []) nodes ledger did_a ≡ ok false
theft_fails_example =
    theft_fails tail_hashing plain_aead 7 tail_hashing-IsHashing seven-IsPrime serial draw 4 5
      five_shares (1, 2) (4, 4) 1 4 nodes ledger did_a digest (omega arith) (omega arith)
      (omega arith) five_shares_lem (inl refl) (inr (inr (inr (inl refl)))) (omega arith)
      first-IsHolder third-IsHolder committed registered pooled_apart

lagrange_interpolate-two_shares_example :
    (v : ℕ) × (lagrange_interpolate ((1, 2) ∷ (4, 4) ∷ []) 7 ≡ ok v) × (v < 7) × (v ≢ 4)
lagrange_interpolate-two_shares_example =
    lagrange_interpolate-two_shares draw 4 5 7 five_shares (1, 2) (4, 4) seven-IsPrime (omega arith)
      (omega arith) five_shares_lem (inl refl) (inr (inr (inr (inl refl)))) (omega arith)

request_partial_proof-take_offline_example :
    request_partial_proof tail_hashing plain_aead 7 0 2 did_a
      (codes "08")
      (register_all (take_offline 4 nodes) [])
    ≡ (if 2 == 4
        then none
        else request_partial_proof tail_hashing plain_aead 7 0 2 did_a
            (codes "08")
            (register_all nodes []))
request_partial_proof-take_offline_example =
    request_partial_proof-take_offline tail_hashing plain_aead 7 0 4 2 did_a (codes "08") nodes
      (ground arith)

restored : bring_online 4 (take_offline 4 nodes) ≡ nodes
restored = bring_online-take_offline 4 nodes (refl, (refl, (refl, tt)))
