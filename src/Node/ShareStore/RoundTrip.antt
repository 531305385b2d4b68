-- ===== src/Node/ShareStore/RoundTrip.antt =====
-- node/share_store.py: what was stored is read back, and only that.
use decentralized_idp.Prelude.{
  ℕ, ◌<◌, ◌^◌, ◌≡◌, refl, sym, ap, ◌∙◌, false, Option, none, some, ok, arith, if◌then◌else◌, ltb,
  Bool-cases, inl, inr, ok_injective, subst,
}
use decentralized_idp.Stdlib.Bytes.{
  Bytes, Str, bytes_eq, bytes_eq_refl, eq_of_bytes_eq, to_bytes, big_endian, from_bytes-big_endian,
}
use decentralized_idp.Stdlib.Dict.{lookup, insert, lookup-insert, lookup-erase}
use decentralized_idp.External.{Hashing, Aead, IsAead}
use decentralized_idp.Node.ShareStore.{
  Row, ShareStore, share_hash_of, store_share, check_hash, open_row, open_found, get_share,
  delete_share, has_share, is_found,
}

module _ (hashing : Hashing) (aead : Aead) where
  -- The row that `store_share` writes.
  sealed : Bytes → Bytes → Str → ℕ → ℕ → Option Bytes → Row
  sealed key nonce did x y commitment = record {
    x_coord = x;
    y_coord_encrypted = aead.encrypt key nonce (big_endian 32 y) did;
    aes_nonce = nonce;
    share_hash = share_hash_of hashing x y;
    feldman_commitment = commitment;
  }

  store_share_inv :
      (nonce : Bytes) (did : Str) (x y : ℕ) (commitment : Option Bytes) (s s' : ShareStore)
      → store_share hashing aead nonce did x y commitment s ≡ ok s'
      → (y < 256 ^ 32)
        × (record s { shares = insert did (sealed s.aes_key nonce did x y commitment) s.shares }
            ≡ s')
  unfolding store_share sealed to_bytes
  store_share_inv nonce did x y commitment s s' e = elim (Bool-cases (ltb y (256 ^ 32))) [
    | inl small ↦ (ground arith, ok_injective (rw small at e))
    | inr large ↦ absurd (cc (rw large at e))
  ]

  open_row-sealed :
      IsAead aead
      → (key nonce : Bytes) (did : Str) (x y : ℕ) (commitment : Option Bytes) → y < 256 ^ 32
      → open_row hashing aead key did (sealed key nonce did x y commitment) ≡ ok (x, y)
  unfolding open_row sealed check_hash
  open_row-sealed law key nonce did x y commitment h =
      rw
        (
          law.decrypt-encrypt key nonce (big_endian 32 y) did,
          from_bytes-big_endian 32 y h,
          bytes_eq_refl (share_hash_of hashing x y),
        )
        refl

  -- A stored share is read back as it was, and every other DID reads as before.
  pub get_share-store_share :
      IsAead aead
      → (nonce : Bytes) (did wanted : Str) (x y : ℕ) (commitment : Option Bytes) (s s' : ShareStore)
      → store_share hashing aead nonce did x y commitment s ≡ ok s'
      → get_share hashing aead wanted s'
        ≡ (if bytes_eq did wanted then ok (some (x, y)) else get_share hashing aead wanted s)
  unfolding get_share
  get_share-store_share law nonce did wanted x y commitment s s' e =
      let inv = store_share_inv nonce did x y commitment s s' e in
      let row = sealed s.aes_key nonce did x y commitment in
      ap (λ u. open_found hashing aead u.aes_key wanted (lookup wanted u.shares)) (sym inv.1)
      ∙ ap (open_found hashing aead s.aes_key wanted) (lookup-insert did wanted row s.shares)
      ∙ elim (Bool-cases (bytes_eq did wanted)) [
        | inl same ↦ rw same (
            subst (λ w. open_found hashing aead s.aes_key w (some row) ≡ ok (some (x, y)))
              (eq_of_bytes_eq did wanted same)
              (rw (open_row-sealed law s.aes_key nonce did x y commitment inv.0) refl))
        | inr other ↦ rw other refl
      ]

  -- A deleted share is gone, and every other DID reads as before.
  pub get_share-delete_share :
      (did wanted : Str) (s : ShareStore)
      → (get_share hashing aead wanted (delete_share did s)
          ≡ (if bytes_eq did wanted then ok none else get_share hashing aead wanted s))
        × (has_share wanted (delete_share did s)
            ≡ (if bytes_eq did wanted then false else has_share wanted s))
  unfolding get_share delete_share has_share
  get_share-delete_share did wanted s =
      let found = lookup-erase did wanted s.shares in
      elim (Bool-cases (bytes_eq did wanted)) [
        | inl same ↦ (
          ap (open_found hashing aead s.aes_key wanted) found ∙ rw same refl,
          ap is_found found ∙ rw same refl,
        )
        | inr other ↦ (
          ap (open_found hashing aead s.aes_key wanted) found ∙ rw other refl,
          ap is_found found ∙ rw other refl,
        )
      ]
