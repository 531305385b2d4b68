-- ===== src/Authentication/Challenge/Board.antt =====
-- authentication/challenge.py against what it promises: a board that has, for every id, the challenge
-- that was issued last under it and has not been used. The board forgets the order of the dictionary,
-- keeps challenges that have expired, and is never cleaned up.
use decentralized_idp.Prelude.{
  ℕ, ◌+◌, ◌*◌, ◌≤◌, ◌≡◌, refl, sym, ap, ap₂, ◌∙◌, List, [], ◌∷◌, Option, none, some, ltb,
  if◌then◌else◌, arith, Bool-cases, Option-cases, inl, inr,
}
use decentralized_idp.Stdlib.Bytes.{Bytes, Str, bytes_eq, bytes_eq_iff}
use decentralized_idp.Stdlib.Dict.{lookup, lookup-insert, lookup-erase, UniqueKeys}
use decentralized_idp.Crypto.{challenge_ttl_seconds}
use decentralized_idp.Authentication.Challenge.{
  second, Manager, issue, live_nonce, peek, consume, cleanup_expired,
}
use decentralized_idp.Authentication.Challenge.SingleUse.{
  Action, issue_challenge, consume_challenge, clean_up, perform, perform-UniqueKeys, consume-peek,
  consume-cleanup_expired,
}

-- The nonce and the time of issue.
abbrev pub Board : Type 0
Board = Str → Option (Bytes × ℕ)

abbrev pub blank : Board
blank id = none

abbrev pub set : Str → Option (Bytes × ℕ) → Board → Board
set id entry board j = if bytes_eq id j then entry else board j

-- The nonce, for 30 seconds.
abbrev pub promised : ℕ → Option (Bytes × ℕ) → Option Bytes
promised now none = none
promised now (some (nonce, issued)) =
    if ltb (issued + challenge_ttl_seconds * second) now then none else some nonce

-- What the uses of challenges among the actions return, by the code and by the board.
unfoldable pub answers : List Action → Manager → List (Option Bytes)
answers [] m = []
answers (issue_challenge nonce id now did ∷ rest) m =
    answers rest (perform (issue_challenge nonce id now did) m)
answers (consume_challenge now id ∷ rest) m =
    (consume now id m).0 ∷ answers rest (perform (consume_challenge now id) m)
answers (clean_up now ∷ rest) m = answers rest (perform (clean_up now) m)

unfoldable pub board_answers : List Action → Board → List (Option Bytes)
board_answers [] board = []
board_answers (issue_challenge nonce id now did ∷ rest) board =
    board_answers rest (set id (some (nonce, now)) board)
board_answers (consume_challenge now id ∷ rest) board =
    promised now (board id) ∷ board_answers rest (set id none board)
board_answers (clean_up now ∷ rest) board = board_answers rest board

-- The actions happen one after another, from the given time on.
abbrev pub InOrder : ℕ → List Action → Type 0
InOrder start [] = Unit
InOrder start (issue_challenge nonce id now did ∷ rest) = (start ≤ now) × InOrder now rest
InOrder start (consume_challenge now id ∷ rest) = (start ≤ now) × InOrder now rest
InOrder start (clean_up now ∷ rest) = (start ≤ now) × InOrder now rest

-- From the given time on, the manager answers as the board promises.
abbrev Keeps : ℕ → Manager → Board → Type 0
Keeps start m board =
    (id : Str) (later : ℕ)
    → start ≤ later
    → live_nonce later (lookup id m) ≡ promised later (board id)

issue-Keeps :
    (start now : ℕ) (nonce : Bytes) (id did : Str) (m : Manager) (board : Board)
    → start ≤ now
    → Keeps start m board
    → Keeps now (perform (issue_challenge nonce id now did) m) (set id (some (nonce, now)) board)
unfolding perform issue
issue-Keeps start now nonce id did m board after h j later le =
    ap (live_nonce later) (lookup-insert id j _ m) ∙ elim (Bool-cases (bytes_eq id j)) [
      | inl same ↦ rw same refl
      | inr other ↦ rw other (h j later (omega (arith, after)))
    ]

-- A use takes its id away, whether or not there was a challenge under it.
lookup-consume :
    (now : ℕ) (id j : Str) (m : Manager)
    → lookup j (consume now id m).1 ≡ (if bytes_eq id j then none else lookup j m)
unfolding consume
lookup-consume now id j m = elim (Option-cases (lookup id m)) [
  | inl missing ↦ rw missing (ground (arith, missing, bytes_eq_iff id j))
  | inr (entry, there) ↦ rw there (ground (arith, lookup-erase id j m))
]

consume-Keeps :
    (start now : ℕ) (id : Str) (m : Manager) (board : Board)
    → start ≤ now
    → Keeps start m board
    → Keeps now (perform (consume_challenge now id) m) (set id none board)
unfolding perform
consume-Keeps start now id m board after h j later le =
    ap (live_nonce later) (lookup-consume now id j m) ∙ elim (Bool-cases (bytes_eq id j)) [
      | inl same ↦ rw same refl
      | inr other ↦ rw other (h j later (omega (arith, after)))
    ]

clean_up-Keeps :
    (start now : ℕ) (m : Manager) (board : Board)
    → start ≤ now
    → UniqueKeys m
    → Keeps start m board
    → Keeps now (perform (clean_up now) m) board
unfolding perform peek
clean_up-Keeps start now m board after unique h j later le =
    sym (consume-peek later j (cleanup_expired now m))
    ∙ consume-cleanup_expired j now later m unique le
    ∙ consume-peek later j m
    ∙ h j later (omega (arith, after))

answers-Keeps :
    (start : ℕ) (actions : List Action) (m : Manager) (board : Board)
    → InOrder start actions
    → UniqueKeys m
    → Keeps start m board
    → answers actions m ≡ board_answers actions board
unfolding answers board_answers
answers-Keeps start [] m board o u h = refl
answers-Keeps start (issue_challenge nonce id now did ∷ rest) m board o u h =
    answers-Keeps now rest _ _ o.1 (perform-UniqueKeys (issue_challenge nonce id now did) m u)
      (issue-Keeps start now nonce id did m board o.0 h)
answers-Keeps start (consume_challenge now id ∷ rest) m board o u h =
    ap₂ (λ a more. a ∷ more) (consume-peek now id m ∙ unfold peek in h id now o.0)
      (answers-Keeps now rest _ _ o.1 (perform-UniqueKeys (consume_challenge now id) m u)
        (consume-Keeps start now id m board o.0 h))
answers-Keeps start (clean_up now ∷ rest) m board o u h =
    answers-Keeps now rest _ _ o.1 (perform-UniqueKeys (clean_up now) m u)
      (clean_up-Keeps start now m board o.0 u h)

-- The manager implements the board: whatever sequence of issues, uses and clean-ups, one after another
-- in time, starts from an empty manager, every use returns what the board promises.
pub answers-board_answers :
    (actions : List Action) → InOrder 0 actions → answers actions [] ≡ board_answers actions blank
unfolding lookup
answers-board_answers actions o = answers-Keeps 0 actions [] blank o tt (λ id later le. refl)
