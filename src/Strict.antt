-- ===== src/Strict.antt =====
-- The strict decoding of JSON (internal/strictjson/strict.go), after utf8.Valid and json.Valid.
pub mod Escapes
pub mod Tokens
pub mod Glyphs
pub mod Pairing
pub mod Trees
pub mod Taken
pub mod Accepted
