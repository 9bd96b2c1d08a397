-- ===== src/Profiles/Examples.antt =====
-- Concrete names and identities for crates/openwave-core/src/profiles.rs.
