-- ===== src/Social/RoutingTable.antt =====
-- src/social/routing_table.h and routing_table.cpp: the routing information base of a node, the
-- selection of routes, the vports of its neighbours and its own addresses.
pub mod Entry
pub mod Table
pub mod Select
pub mod Import
pub mod Read
pub mod Routes
pub mod Selected
pub mod Routed
pub mod Kept
pub mod Admitted
pub mod Operations
pub mod Histories
pub mod Vports
pub mod Examples
