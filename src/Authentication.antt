-- ===== src/Authentication.antt =====
-- authentication/: the challenges, the tokens and the authentication flow.
pub mod Challenge
pub mod Tokens
pub mod SystemKeys
pub mod Flow
