-- ===== src/Lib.antt =====
-- A model of the Nacos SDK for Node.js: the configuration client (packages/nacos-config) and the
-- naming client (packages/nacos-naming), as functions and step relations, with their theorems.
--
-- How the program is put together. A `DataClient` (client.ts) reads, publishes and subscribes to
-- configurations, over gRPC or, by a `ClientWorker` (client_worker.ts) for each unit, over HTTP. Both
-- read through `readConfigWithFailover` (disaster_recovery.ts): a failover file that a user keeps,
-- else the server, else the local snapshot (snapshot.ts), inside a lock that is a key of a
-- `KeyedAsyncQueue` (keyed_queue.ts). HTTP requests go through `HttpAgent` (http_agent.ts), which takes
-- its servers from `ServerListManager` (server_list_mgr.ts) and its credentials from aliyun_auth.ts. A
-- naming client asks servers through `NamingProxy` (naming/proxy.ts), keeps the services that it
-- knows in `HostReactor` (naming/host_reactor.ts) and chooses hosts by weight (utils.ts). Over gRPC,
-- both clients use packages/nacos-common: a `GrpcConnection` (grpc/connection.ts) with a
-- `GrpcTransportClient` (grpc/transport_client.ts), below `GrpcConfigProxy` and `GrpcNamingProxy`,
-- which send again what they keep when the connection is back.
--
-- Which file models which part:
--   Prelude                 lists, texts, JavaScript's `Map` and `EventEmitter`, outcomes of promises
--   Common/Connection       packages/nacos-common/src/grpc/connection.ts: each frame that waits is
--                           kept, and an `Input` resumes it
--   Common/Transport        packages/nacos-common/src/grpc/transport_client.ts
--   Common/Address          packages/nacos-common/src/interface.ts: `parseServerAddress`
--   Config/KeyedQueue       packages/nacos-config/src/keyed_queue.ts; promises are numbered jobs
--   Config/Recovery         disaster_recovery.ts, over an interface of snapshots
--   Config/Snapshot         snapshot.ts, over an interface of file systems; Interface gives it to its
--                           clients, and Config/Client/Requests/Outages reads over it
--   Config/Worker           client_worker.ts: requests (Requests), subscriptions
--                           (Subscriptions), the probe of the long polling (Probe)
--   Config/ServerList       server_list_mgr.ts
--   Config/HttpAgent        http_agent.ts
--   Config/GrpcProxy        grpc_config_proxy.ts: requests and listen contexts over gRPC
--   Config/Client           client.ts: the subscriptions over gRPC, resumed at each `await`, and the
--                           reads, publications and removals (Requests)
--   Config/Auth             aliyun_auth.ts: the sources of credentials and their cache
--   Naming/Names            utils.ts and naming/service_info.ts: grouped names and keys
--   Naming/Weight           utils.ts: `chooseHostByWeight`; naming/client.ts: the filter of hosts
--   Naming/HostReactor      naming/host_reactor.ts and naming/service_info.ts; Waiters cuts
--                           `getServiceInfo` at its waits
--   Naming/PushReceiver     naming/push_receiver.ts: an `Input` is an event of the socket or a call
--   Naming/Proxy            naming/proxy.ts: `_callServer` and `_reqAPI`, and the calls (Requests)
--   Naming/Instance         naming/instance.ts
--   Naming/BeatReactor      naming/beat_reactor.ts: the rounds of heart beats
--   Naming/Client           naming/client.ts over the interface `NamingTransport`
--   Naming/Auth             aliyun_auth.ts of packages/nacos-naming
--   Naming/GrpcProxy        naming/grpc_proxy.ts: the calls (Calls) and what a reconnect sends
--   Examples                instances of the interfaces, and the theorems at concrete inputs
--
-- How code becomes definitions. A method is a function of the object's state, with the names of the
-- source. An error is a value (`Outcome`). What is called outside of these files is a parameter: the
-- file system, the HTTP client, JSON, clocks and random numbers; where a theorem relies on their
-- documented behaviour, it has named hypotheses (`SnapshotLaws`, `Lawful`, `Ticks`, `RandomInRange`),
-- and Examples has an instance of each. Where other code can run during an `await`, the method is cut
-- into steps there (Config/Client, Config/KeyedQueue, Common/Connection, Common/Transport,
-- Config/Worker/Subscriptions, Naming/BeatReactor, Naming/HostReactor/Waiters, Naming/PushReceiver);
-- elsewhere it is one run: in the timed updates of HostReactor, for one, no push and no `close` comes
-- during the request. What a listener of the gRPC client does in its callback is steps between the
-- rounds of the loop that calls the listeners. `SnapshotLaws` is about a disk that never fails; the
-- theorems on outages of the gRPC client do without it.
--
-- Fuel: the loop of `HttpAgent.request` runs until a time; fuel for each millisecond of the timeout and
-- one more is enough if a request takes at least a millisecond. The loops over servers have their
-- number of rounds from the source. Numbers are natural numbers: counters and times stay far below
-- 2^53, and weights are taken as whole numbers of some unit.
--
-- Not modelled: the payload codec, signatures, the loop of
-- the long polling, the periodic refresh of `ServerListManager`, logging, and the wrappers that only
-- delegate.
pub mod Prelude
pub mod Common
pub mod Config
pub mod Naming
pub mod Examples
