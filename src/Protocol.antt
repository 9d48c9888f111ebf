-- ===== src/Protocol.antt =====
-- src/protocol.rs: the NDJSON wire protocol.
pub mod Framing
pub mod Response
pub mod Dispatch
pub mod Serve
