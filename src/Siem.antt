-- ===== src/Siem.antt =====
-- The SIEM, components/active-siem/crates: one child module for each crate.
pub mod Correlation
pub mod Response
pub mod Ontology
pub mod Review
