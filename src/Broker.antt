-- ===== src/Broker.antt =====
-- src/broker: the daemon that serves one model to several connections.
pub mod Queue
pub mod Engine
pub mod Connection
pub mod Loader
