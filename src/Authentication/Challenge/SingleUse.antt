-- ===== src/Authentication/Challenge/SingleUse.antt =====
-- authentication/challenge.py: a challenge can be used once, before it expires.
use decentralized_idp.Prelude.{
  ℕ, ◌+◌, ◌*◌, ◌≤◌, ◌≡◌, ◌≢◌, refl, sym, ap, ◌∙◌, List, [], ◌∷◌, Bool, false, ◌||◌, none, some, ltb,
  if◌then◌else◌, arith, Option-cases, inl, inr,
}
use decentralized_idp.Stdlib.Bytes.{Bytes, Str, bytes_eq, bytes_eq_refl, bytes_eq_iff}
use decentralized_idp.Stdlib.Dict.{
  lookup, insert, erase, lookup-insert, lookup-erase, UniqueKeys, UniqueKeys-insert,
  UniqueKeys-erase,
}
use decentralized_idp.Crypto.{challenge_ttl_seconds}
use decentralized_idp.Authentication.Challenge.{
  second, Pending, Manager, issue, live_nonce, peek, consume, expired_ids, erase_all,
  cleanup_expired,
}

lookup-erase_self : (id : Str) (m : Manager) → lookup id (erase id m) ≡ none
lookup-erase_self id m = rw (lookup-erase id id m, bytes_eq_refl id) refl

-- Whatever `consume` returns, the challenge is gone afterwards.
lookup-consume : (now : ℕ) (id : Str) (m : Manager) → lookup id (consume now id m).1 ≡ none
unfolding consume
lookup-consume now id m = elim (Option-cases (lookup id m)) [
  | inl missing ↦ rw missing missing
  | inr (entry, there) ↦ rw there (ground (arith, lookup-erase_self id m))
]

-- `peek` shows what `consume` would return.
pub consume-peek : (now : ℕ) (id : Str) (m : Manager) → (consume now id m).0 ≡ peek now id m
unfolding consume peek
consume-peek now id m = ground arith

-- What a client or the service may do with the manager between two uses.
pub data Action : Type 0 where
  issue_challenge : Bytes → Str → ℕ → Str → Action
  consume_challenge : ℕ → Str → Action
  clean_up : ℕ → Action

unfoldable pub perform : Action → Manager → Manager
perform (issue_challenge nonce id now did) m = (issue nonce id now did m).0
perform (consume_challenge now id) m = (consume now id m).1
perform (clean_up now) m = cleanup_expired now m

abbrev pub perform_all : List Action → Manager → Manager
perform_all [] m = m
perform_all (a ∷ rest) m = perform_all rest (perform a m)

-- No action issues a challenge under the id again.
abbrev pub Avoids : Str → List Action → Type 0
Avoids id [] = Unit
Avoids id (issue_challenge nonce j now did ∷ rest) = (j ≢ id) × Avoids id rest
Avoids id (consume_challenge now j ∷ rest) = Avoids id rest
Avoids id (clean_up now ∷ rest) = Avoids id rest

erase-none : (id j : Str) (m : Manager) → lookup id m ≡ none → lookup id (erase j m) ≡ none
erase-none id j m h = rw (lookup-erase j id m) (ground (arith, h))

erase_all-none :
    (id : Str) (ids : List Str) (m : Manager)
    → lookup id m ≡ none
    → lookup id (erase_all ids m) ≡ none
unfolding erase_all
erase_all-none id [] m h = h
erase_all-none id (j ∷ ids) m h = erase_all-none id ids (erase j m) (erase-none id j m h)

consume-none :
    (id : Str) (now : ℕ) (j : Str) (m : Manager)
    → lookup id m ≡ none
    → lookup id (consume now j m).1 ≡ none
unfolding consume
consume-none id now j m h = ground (arith, erase-none id j m h)

perform_all-none :
    (id : Str) (actions : List Action) (m : Manager)
    → Avoids id actions
    → lookup id m ≡ none
    → lookup id (perform_all actions m) ≡ none
unfolding perform
perform_all-none id [] m avoid h = h
perform_all-none id (issue_challenge nonce j now did ∷ rest) m avoid h =
    perform_all-none id rest (issue nonce j now did m).0 avoid.1
      (unfold issue in rw (lookup-insert j id) (ground (arith, bytes_eq_iff j id, h)))
perform_all-none id (consume_challenge now j ∷ rest) m avoid h =
    perform_all-none id rest (consume now j m).1 avoid (consume-none id now j m h)
perform_all-none id (clean_up now ∷ rest) m avoid h =
    perform_all-none id rest (cleanup_expired now m) avoid
      (unfold cleanup_expired in erase_all-none id (expired_ids now m) m h)

-- Once a challenge has been consumed, successfully or not, no later use of it succeeds, whatever
-- else happens to the manager and whenever it happens, unless its id is issued again.
pub consume_once :
    (id : Str) (now later : ℕ) (actions : List Action) (m : Manager)
    → Avoids id actions
    → (consume later id (perform_all actions (consume now id m).1)).0 ≡ none
unfolding peek
consume_once id now later actions m avoid =
    let gone = perform_all-none id actions (consume now id m).1 avoid (lookup-consume now id m) in
    consume-peek later id (perform_all actions (consume now id m).1) ∙ ap (live_nonce later) gone

-- A challenge that was just issued gives its nonce up to 30 seconds later, and not after that.
pub consume-issue :
    (nonce : Bytes) (id : Str) (now later : ℕ) (did : Str) (m : Manager)
    → (consume later id (issue nonce id now did m).0).0
      ≡ (if ltb (now + challenge_ttl_seconds * second) later then none else some nonce)
unfolding issue peek
consume-issue nonce id now later did m =
    let entry : Pending = record {
      nonce = nonce;
      did = did;
      expires_at = now + challenge_ttl_seconds * second;
    } in
    consume-peek later id (insert id entry m)
    ∙ ap (live_nonce later) (
        lookup-insert id id entry m
        ∙ ap (λ b. if b then some entry else lookup id m) (bytes_eq_refl id))

abbrev is_listed : Str → List Str → Bool
is_listed id [] = false
is_listed id (j ∷ ids) = bytes_eq id j || is_listed id ids

lookup-erase_all :
    (id : Str) (ids : List Str) (m : Manager)
    → lookup id (erase_all ids m) ≡ (if is_listed id ids then none else lookup id m)
unfolding erase_all
lookup-erase_all id [] m = refl
lookup-erase_all id (j ∷ ids) m =
    lookup-erase_all id ids (erase j m)
    ∙ rw (lookup-erase j id m) (ground (arith, bytes_eq_iff id j, bytes_eq_iff j id))

not_listed :
    (id : Str) (now : ℕ) (m : Manager)
    → lookup id m ≡ none
    → is_listed id (expired_ids now m) ≡ false
unfolding lookup expired_ids
not_listed id now [] h = refl
not_listed id now ((j, e) ∷ m) h = ground (arith, not_listed id now m)

is_listed-expired_ids :
    (id : Str) (now : ℕ) (m : Manager) (entry : Pending)
    → UniqueKeys m
    → lookup id m ≡ some entry
    → is_listed id (expired_ids now m) ≡ ltb entry.expires_at now
unfolding lookup expired_ids
is_listed-expired_ids id now [] entry u h = cc
is_listed-expired_ids id now ((j, e) ∷ m) entry u h =
    ground (arith, not_listed id now m, bytes_eq_iff id j, is_listed-expired_ids id now m entry u.1)

-- Cleaning up a manager changes the answer to no use of a challenge, then or later.
pub consume-cleanup_expired :
    (id : Str) (now later : ℕ) (m : Manager)
    → UniqueKeys m
    → now ≤ later
    → (consume later id (cleanup_expired now m)).0 ≡ (consume later id m).0
unfolding peek cleanup_expired
consume-cleanup_expired id now later m u h =
    consume-peek later id (cleanup_expired now m)
    ∙ ap (live_nonce later) (lookup-erase_all id (expired_ids now m) m)
    ∙ elim (Option-cases (lookup id m)) [
      | inl missing ↦ rw missing (ground arith)
      | inr (entry, there) ↦ rw (there, is_listed-expired_ids id now m entry u there) (ground arith)
    ]
    ∙ sym (consume-peek later id m)

erase_all-UniqueKeys : (ids : List Str) (m : Manager) → UniqueKeys m → UniqueKeys (erase_all ids m)
unfolding erase_all
erase_all-UniqueKeys [] m u = u
erase_all-UniqueKeys (id ∷ ids) m u =
    erase_all-UniqueKeys ids (erase id m) (UniqueKeys-erase id m u)

-- The manager's dictionary never has two entries under one id.
pub perform-UniqueKeys : (a : Action) (m : Manager) → UniqueKeys m → UniqueKeys (perform a m)
unfolding perform issue consume cleanup_expired
perform-UniqueKeys (issue_challenge nonce id now did) m u = UniqueKeys-insert id _ m u
perform-UniqueKeys (consume_challenge now id) m u = ground (arith, UniqueKeys-erase id m u)
perform-UniqueKeys (clean_up now) m u = erase_all-UniqueKeys (expired_ids now m) m u
