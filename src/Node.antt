-- ===== src/Node.antt =====
-- node/node.py: an identity node. The modules below it are the rest of the package.
pub mod PartialProof
pub mod Pbft
pub mod ShareStore
pub mod Transport
pub mod Answers
pub mod KemKeys
pub mod Http
