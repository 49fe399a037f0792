-- ===== src/Rpc.antt =====
-- include/copilot/jsonrpc.hpp
pub mod Message
pub mod Pending
pub mod Client
pub mod Dispatch
