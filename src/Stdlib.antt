-- ===== src/Stdlib.antt =====
-- What the code uses of Python's built-in types: byte strings, texts, their hexadecimal forms and
-- integers in bytes, dictionaries keyed by text.
pub mod Bytes
pub mod Hex
pub mod Dict
pub mod Counter
pub mod Json
pub mod Text
pub mod Files
pub mod Base64
