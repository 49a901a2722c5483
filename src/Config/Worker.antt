-- ===== src/Config/Worker.antt =====
-- packages/nacos-config/src/client_worker.ts: `ClientWorker`, the configuration client over HTTP.
pub mod Probe
pub mod Env
pub mod Requests
pub mod Copies
pub mod Outages
pub mod Subscriptions
