-- ===== src/Crypto.antt =====
-- crypto/__init__.py: the constants of the system, and the modules of the package.
pub mod Lagrange
pub mod Interpolation
pub mod Sss
pub mod Recovery
pub mod Sharing
pub mod Totality
pub mod TwoShares
pub mod Pqc
pub mod Hkdf
pub mod Feldman
pub mod Commitments
pub mod Keyfile
use decentralized_idp.Prelude.{ℕ}

-- The field modulus `P`, the prime of secp256k1. The functions below take it as the argument `p`,
-- as the source's functions do.
abbrev pub field_p : ℕ
field_p = 0xFFFFFFFFFFFFFFFFFFFFFFFFFFFFFFFFFFFFFFFFFFFFFFFFFFFFFFFEFFFFFC2F

abbrev pub n_nodes : ℕ
n_nodes = 5

abbrev pub threshold : ℕ
threshold = 3

abbrev pub f_nodes : ℕ
f_nodes = 1

abbrev pub iat_ttl_seconds : ℕ
iat_ttl_seconds = 60

abbrev pub challenge_ttl_seconds : ℕ
challenge_ttl_seconds = 30
