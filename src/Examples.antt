-- ===== src/Examples.antt =====
-- Concrete instances of the interfaces, and the theorems applied at concrete inputs.
pub mod Queues
pub mod Copies
pub mod Probes
pub mod Replays
pub mod Files
pub mod Servers
pub mod Names
pub mod Reactor
pub mod Proxies
pub mod Clients
pub mod Credentials
pub mod Agents
pub mod Connections
pub mod Registrations
pub mod Stores
pub mod Reads
pub mod Beats
pub mod Waits
pub mod Sockets
