-- ===== src/Crypto/Sss.antt =====
-- crypto/sss.py: Shamir's secret sharing.
use decentralized_idp.Prelude.{
  ℕ, zero, suc, ◌+◌, ◌-◌, ◌*◌, ◌%◌, ◌^◌, List, [], ◌∷◌, not, ◌&&◌, ◌||◌, Result, ok, err,
  value_error, ltb, leb, if◌then◌else◌,
}
use decentralized_idp.Crypto.Lagrange.{Share, lagrange_interpolate}

-- `for exp, coeff in enumerate(coeffs): y = (y + coeff * pow(i, exp, p)) % p`, from exp on.
unfoldable pub share_value : ℕ → ℕ → ℕ → List ℕ → ℕ → ℕ
share_value p i exp [] y = y
share_value p i exp (coeff ∷ rest) y =
    share_value p i (suc exp) rest ((y + coeff * (i ^ exp % p)) % p)

-- `for i in range(1, n + 1)`, from i on, with `left` rounds to go.
unfoldable pub share_loop : ℕ → List ℕ → ℕ → ℕ → List Share
share_loop p coeffs i zero = []
share_loop p coeffs i (suc left) =
    (i, share_value p i 0 coeffs 0) ∷ share_loop p coeffs (suc i) left

-- `[secrets.randbelow(p - 1) + 1 for _ in range(count)]`, where the k-th call returns `draw k`.
unfoldable pub random_coeffs : (ℕ → ℕ) → ℕ → ℕ → List ℕ
random_coeffs draw k zero = []
random_coeffs draw k (suc count) = (draw k + 1) ∷ random_coeffs draw (suc k) count

-- The loop that zeroes `coeffs` before the return leaves the shares as they are.
unfoldable pub generate_shares : (ℕ → ℕ) → ℕ → ℕ → ℕ → ℕ → Result (List Share)
generate_shares draw secret t n p =
    if not (leb 1 secret && leb secret (p - 1))
    then err value_error
    else if ltb t 1 || ltb n t
    then err value_error
    else ok (share_loop p (secret ∷ random_coeffs draw 0 (t - 1)) 1 n)

unfoldable pub reconstruct_secret : List Share → ℕ → Result ℕ
reconstruct_secret shares p = lagrange_interpolate shares p
