-- ===== src/Crypto/Lagrange.antt =====
-- crypto/lagrange.py. Python's `%` of a negative number is written out: for p > 0, `(-x) % p` is
-- `(p - x % p) % p`, and `(x - y) % p` is `(x + (p - y % p)) % p`.
use decentralized_idp.Prelude.{
  ℕ, suc, ◌+◌, ◌-◌, ◌*◌, ◌%◌, ◌^◌, List, [], ◌∷◌, Result, ok, err, value_error, ◌>>=◌, ◌==◌,
  if◌then◌else◌,
}

-- A share is a pair (x, y).
abbrev pub Share : Type 0
Share = ℕ × ℕ

unfoldable pub neg_mod : ℕ → ℕ → ℕ
neg_mod x p = (p - x % p) % p

unfoldable pub sub_mod : ℕ → ℕ → ℕ → ℕ
sub_mod x y p = (x + (p - y % p)) % p

unfoldable pub mod_inverse : ℕ → ℕ → Result ℕ
mod_inverse a p = if a == 0 then err value_error else ok (a ^ (p - 2) % p)

-- The body of the inner loop where i ≠ j.
unfoldable pub extend_basis : ℕ → ℕ → ℕ → ℕ → Result ℕ
extend_basis p x_i x_j basis = do
  let num = neg_mod x_j p
  den ← mod_inverse (sub_mod x_i x_j p) p
  ok ((basis * num % p) * den % p)

-- `for j, (x_j, _) in enumerate(shares)`, from the index j on.
unfoldable pub basis_loop : ℕ → ℕ → ℕ → ℕ → List Share → ℕ → Result ℕ
basis_loop p i x_i j [] basis = ok basis
basis_loop p i x_i j ((x_j, y_j) ∷ rest) basis = do
  next ← if i == j then ok basis else extend_basis p x_i x_j basis
  basis_loop p i x_i (suc j) rest next

-- `for i, (x_i, y_i) in enumerate(shares)`, from the index i on.
unfoldable pub interpolate_loop : ℕ → List Share → ℕ → List Share → ℕ → Result ℕ
interpolate_loop p shares i [] result = ok result
interpolate_loop p shares i ((x_i, y_i) ∷ rest) result = do
  basis ← basis_loop p i x_i 0 shares 1
  interpolate_loop p shares (suc i) rest ((result + y_i * basis) % p)

unfoldable pub lagrange_interpolate : List Share → ℕ → Result ℕ
lagrange_interpolate shares p = interpolate_loop p shares 0 shares 0
