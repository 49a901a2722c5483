-- ===== src/Common.antt =====
-- packages/nacos-common/src: what the configuration and the naming client share, the gRPC
-- connection, the client on top of it and the addresses of servers.
pub mod Connection
pub mod Transport
pub mod Address
