-- ===== src/Arith.antt =====
-- Number theory that the field arithmetic of the crypto package rests on.
pub mod Cong
pub mod Prime
