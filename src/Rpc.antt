-- ===== src/Rpc.antt =====
-- src/rpc: calls of remote procedures over a channel. What a handler does with a response is its caller's;
-- a handler is named by the number of its call.
pub mod Engine
pub mod Counted
pub mod Once
pub mod Groups
pub mod Examples
