-- ===== src/Social/NameDatabase.antt =====
-- src/social/name_database.h and name_database.cpp: records that map node identifiers to
-- landmark-relative addresses, learnt from passing messages (`cache`) or from the sloppy group.
-- The data are in Record, the methods in Store and Read, the proofs in the other modules.
pub mod Record
pub mod Store
pub mod Read
pub mod Keys
pub mod Eviction
pub mod Invariant
pub mod Histories
pub mod Freshness
pub mod Gossip
pub mod Lookup
pub mod Diff
pub mod Stored
pub mod Examples
