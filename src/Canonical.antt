-- ===== src/Canonical.antt =====
-- The canonical text of a request (internal/harnessprotocol/canonical.go), which its digest is taken of.
pub mod Strings
pub mod Quoted
pub mod Values
pub mod Numerals
pub mod Reader
pub mod Ordered
pub mod Pieces
pub mod Objects
pub mod RoundTrip
pub mod Order
