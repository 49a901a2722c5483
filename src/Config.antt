-- ===== src/Config.antt =====
-- packages/nacos-config/src
pub mod Auth
pub mod Client
pub mod GrpcProxy
pub mod HttpAgent
pub mod KeyedQueue
pub mod Recovery
pub mod Snapshot
pub mod Worker
pub mod ServerList
