-- ===== src/Scanner.antt =====
-- The malware scanner, components/rust-clam/crates: its signatures.
pub mod HexSig
pub mod HashDb
pub mod Engine
