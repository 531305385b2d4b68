-- ===== src/Tests.antt =====
-- Concrete inputs for the theorems, and runs of the code on them.
pub mod Fixtures
pub mod Serial
pub mod Crypto
pub mod Node
pub mod Services
pub mod Flow
pub mod Registration
pub mod Tokens
pub mod Attacks
pub mod Keys
pub mod Endpoints
pub mod Tolerance
pub mod EndToEnd
pub mod TokenRoundTrip
pub mod Assertion
