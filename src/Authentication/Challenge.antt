-- ===== src/Authentication/Challenge.antt =====
-- authentication/challenge.py. Times are whole microseconds; what `secrets.token_bytes`,
-- `uuid.uuid4` and `time.time` return is passed in.
pub mod SingleUse
pub mod Board
use decentralized_idp.Prelude.{
  ℕ, ◌+◌, ◌*◌, List, [], ◌∷◌, Bool, true, false, Option, none, some, ltb, if◌then◌else◌,
}
use decentralized_idp.Stdlib.Bytes.{Bytes, Str}
use decentralized_idp.Stdlib.Hex.{hex}
use decentralized_idp.Stdlib.Dict.{Dict, lookup, insert, erase}
use decentralized_idp.Crypto.{challenge_ttl_seconds}

-- Microseconds in a second.
abbrev pub second : ℕ
second = 1_000_000

pub record Pending : Type 0 where
  pub nonce : Bytes
  pub did : Str
  pub expires_at : ℕ

-- `ChallengeManager`, by its one attribute `_pending`.
abbrev pub Manager : Type 0
Manager = Dict Pending

pub record Issued : Type 0 where
  pub challenge_id : Str
  pub nonce : Str
  pub expires_in : ℕ

unfoldable pub issue : Bytes → Str → ℕ → Str → Manager → Manager × Issued
issue nonce challenge_id now did m = (
  insert challenge_id
      (record { nonce = nonce; did = did; expires_at = now + challenge_ttl_seconds * second }) m,
  record { challenge_id = challenge_id; nonce = hex nonce; expires_in = challenge_ttl_seconds },
)

-- The entry's nonce, unless the entry is missing or has expired.
abbrev pub live_nonce : ℕ → Option Pending → Option Bytes
live_nonce now none = none
live_nonce now (some entry) = if ltb entry.expires_at now then none else some entry.nonce

unfoldable pub peek : ℕ → Str → Manager → Option Bytes
peek now challenge_id m = live_nonce now (lookup challenge_id m)

-- The rest of `consume` once the entry has been looked up.
abbrev pub consume_entry : ℕ → Str → Option Pending → Manager → Option Bytes × Manager
consume_entry now challenge_id none m = (none, m)
consume_entry now challenge_id (some entry) m =
    if ltb entry.expires_at now
    then (none, erase challenge_id m)
    else (some entry.nonce, erase challenge_id m)

unfoldable pub consume : ℕ → Str → Manager → Option Bytes × Manager
consume now challenge_id m = consume_entry now challenge_id (lookup challenge_id m) m

-- `[cid for cid, v in self._pending.items() if v["expires_at"] < now]`
unfoldable pub expired_ids : ℕ → Manager → List Str
expired_ids now [] = []
expired_ids now ((id, entry) ∷ rest) =
    let others = expired_ids now rest in if ltb entry.expires_at now then id ∷ others else others

unfoldable pub erase_all : List Str → Manager → Manager
erase_all [] m = m
erase_all (id ∷ rest) m = erase_all rest (erase id m)

unfoldable pub cleanup_expired : ℕ → Manager → Manager
cleanup_expired now m = erase_all (expired_ids now m) m
