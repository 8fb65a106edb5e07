-- ===== src/Social.antt =====
-- src/social: addresses, routed messages, peers, the name database, the routing table, the router and the
-- sloppy groups.
pub mod Address
pub mod RoutedMessage
pub mod NameDatabase
pub mod RoutingTable
pub mod Peer
pub mod SocialIdentity
pub mod Router
pub mod SloppyGroup
