-- ===== src/Prelude/Errors.antt =====
-- Python exceptions as values: what a call returns, or the exception that it raises.
use mathlib.Core.Path.{◌≡◌, refl}
use mathlib.Core.Logic.{◌⊎◌, inl, inr}

-- The classes that the code raises or that the calls it makes can raise.
pub data Error : Type 0 where
  value_error key_error index_error runtime_error assertion_error overflow_error type_error : Error
  node_offline_error share_not_found_error file_not_found_error invalid_tag : Error
  stop_iteration : Error

-- The exception of a call stands first.
pub data Result {κ} (A : Type κ) : Type κ where
  err : Error → Result A
  ok : A → Result A

module _ {A : Type 0} where
  pub ok_injective : {a b : A} → ok a ≡ ok b → a ≡ b
  ok_injective same = cc

  pub Result-cases : (r : Result A) → ((a : A) × (r ≡ ok a)) ⊎ ((x : Error) × (r ≡ err x))
  Result-cases (err x) = inr (x, refl)
  Result-cases (ok a) = inl (a, refl)

infixl 5 ◌>>=◌
-- What follows a call runs on its result; an exception skips it.
abbrev pub ◌>>=◌ {κ ℓ} : {A : Type κ} {B : Type ℓ} → Result A → (A → Result B) → Result B
err x >>= next = err x
ok value >>= next = next value

-- Where the whole returned, the call returned and so did what follows.
pub >>=-eq-ok {κ} :
    {A B : Type κ} (call : Result A) (next : A → Result B) {out : B}
    → (call >>= next) ≡ ok out
    → (value : A) × (call ≡ ok value) × (next value ≡ ok out)
>>=-eq-ok (err x) next returned = cc
>>=-eq-ok (ok value) next returned = (value, refl, returned)
