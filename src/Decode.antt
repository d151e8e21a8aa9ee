-- ===== src/Decode.antt =====
-- internal/decode: from logs and call data to names and arguments.
pub mod Abi
pub mod Registry
pub mod Input
pub mod Example
