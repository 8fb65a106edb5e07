-- ===== src/Interplex.antt =====
-- src/interplex: contacts, and links between neighbours. The sockets under the links are not modelled.
pub mod Contact
pub mod Dispatcher
pub mod Link
pub mod LinkManager
