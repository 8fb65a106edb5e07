-- ===== src/Identity.antt =====
-- src/identity: node identifiers. The definitions are in NodeIdentifier, the laws of prefixes and of
-- the ordering in the modules below it.
pub mod NodeIdentifier
