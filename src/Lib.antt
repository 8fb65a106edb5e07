-- ===== src/Lib.antt =====
-- A model of UNISPHERE, a social-path overlay network written in C++, and the theorems that hold of
-- it. Nodes are named by 160-bit identifiers and reach one another through landmarks: a routed
-- message carries a landmark-relative address, each node keeps a routing table of the paths that
-- its neighbours announce, and a name database that maps identifiers to addresses, which the
-- members of a sloppy group pass on to one another.
--
-- - Prelude and the modules below it: lists, Boolean tests and bytes over the native natural
--   numbers, integers, and ordered indices of a container.
-- - Identity/NodeIdentifier: src/identity/node_identifier.h and node_identifier.cpp. Bytes is about
--   strings of bytes, Order about comparison, Masked and Prefix about the prefixes that delimit a
--   sloppy group.
-- - Social/Address: src/social/address.h and address.cpp. `shift`, `size` and the comparison are
--   the methods of `LandmarkAddress`.
-- - Social/RoutedMessage: src/social/routed_message.h and routed_message.cpp. `originate` and
--   `of_message` are the two constructors; Hops is about forwarding, Wire about the translation to
--   a protocol message and back.
-- - Interplex/Contact: src/interplex/contact.h and contact.cpp. A public key is its bytes with the
--   identifier that the hash gives; Laws is about the protocol message. The hash, the size of a key
--   and the text of a host are parameters.
-- - Interplex/Dispatcher: src/interplex/message_dispatcher.cpp. `choose` is the loop of `send` on
--   fuel, one turn for each linklet and one more, which Turns shows to be enough.
-- - Interplex/Link: src/interplex/link.h and link.cpp. The parent holds the state, `setState`, the
--   removal of linklets and `close`, Connect what adds linklets, `send`, and the slots; Sound,
--   Histories and Delivery hold the properties.
-- - Interplex/LinkManager: src/interplex/link_manager.h and link_manager.cpp, the links of a node.
--   Managed and Calls are about the map of links and the counters.
-- - Social/Peer: src/social/peer.h and peer.cpp, the contact and the security associations of a
--   peer, with the limits in Limits.
-- - Social/SocialIdentity: src/social/social_identity.h and social_identity.cpp, the peers of a
--   node; Cache is about the cache of keys.
-- - Social/RoutingTable: src/social/routing_table.h and routing_table.cpp. Entry holds the entries
--   and the keys of the indices, Table the state, Select the selection of routes and local
--   addresses and the retractions, Import the method `import`, Read the queries. Routes and
--   Selected hold the lemmas, Routed the invariant, Kept, Admitted and Operations are about single
--   operations and Histories about sequences of calls; Vports is about the neighbours and the local
--   addresses.
-- - Social/NameDatabase: src/social/name_database.h and name_database.cpp. Record holds the state,
--   Store the operations that change it, Read those that do not; Keys and Eviction hold the lemmas,
--   and Invariant, Histories, Freshness, Gossip, Lookup, Diff and Stored the properties.
-- - Social/Router: src/social/compact_router.h and compact_router.cpp, which bind the other parts
--   together. State holds the state and the statistics, Route the method `route` in stages that
--   follow its text; Decision, Forward, Stages and Direct are about where a message goes, and
--   Journey about its way through any number of routers. Delegation is the validation of an
--   announcement, with Chains about its delegations and Passed about one that is passed on;
--   Associations holds `saRefresh` and what peers send of their associations, Export the
--   announcements, with their buffers, and the retractions, and Receive `messageReceived`, the
--   calls of the timers and the router's invariant. The signals that the routing table raises
--   during an operation are run after it (`perform`).
-- - Rpc: src/rpc. Engine is engine.hpp and call.hpp, the calls that wait for a response and the
--   requests of others; Groups is call_group.hpp. Counted and Once are about the handlers of a
--   call. The responses that wait in the strands of their calls are one queue, and a handler is
--   named by the number of its call.
-- - Social/SloppyGroup: src/social/sloppy_group.cpp. The parent holds the state and the peer views,
--   Exchange the records that are sent and received, Views and Announced the properties.
--
-- The name information base, a `boost::multi_index_container`, is the list of its records; an
-- ordered index of it is a parameter that lists the same elements in the order of its key, which is
-- all that is used of it. The two sizes that the routing table computes with `sqrt` and `log` of
-- doubles, the slots of the signals that filter, and the length of the group's prefix are
-- parameters too. The clock and the timestamp are arguments of the operations that read them. What
-- an operation tells others by a signal is returned as a list of effects. A mutex is held during
-- every operation, so a history of the database is a list of calls.
--
-- Numbers are natural numbers; fields of 8 bits wrap at 256 where the code lets them. Loops are
-- recursion on lists or on the number of bits of a byte; only the dispatcher of a link uses fuel.
--
-- Not modelled: sockets and threads, cryptographic keys, the encoding of protobuf messages,
-- printing and dumping, the testbed, and the code generated by the build.
pub mod Prelude
pub mod Identity
pub mod Interplex
pub mod Rpc
pub mod Social
