-- ===== src/Naming.antt =====
-- packages/nacos-naming/src
pub mod Names
pub mod Weight
pub mod HostReactor
pub mod PushReceiver
pub mod Proxy
pub mod Instance
pub mod GrpcProxy
pub mod BeatReactor
pub mod Client
pub mod Auth
