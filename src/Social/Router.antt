-- ===== src/Social/Router.antt =====
-- src/social/compact_router.h and compact_router.cpp: the router, which puts the routing table, the name
-- database and the social identity together.
pub mod State
pub mod Route
pub mod Decision
pub mod Forward
pub mod Journey
pub mod Stages
pub mod Direct
pub mod Delegation
pub mod Associations
pub mod Export
pub mod Receive
pub mod Examples
