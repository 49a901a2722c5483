-- ===== src/Naming/Client.antt =====
-- packages/nacos-naming/src/naming/client.ts: `NacosNamingClient`, over the interface that its two
-- server proxies share (`NamingTransport` of packages/nacos-naming/src/interface.ts). A client over
-- HTTP has a `BeatReactor`, one over gRPC has none.
pub mod Beats
use nacos_sdk_nodejs.Prelude.{
  ℕ, Bool, true, false, Option, none, some, Text, Outcome, ok, err, codes, List, [], ◌∷◌,
  if◌then◌else◌,
}
use nacos_sdk_nodejs.Naming.Names.{get_grouped_name}
use nacos_sdk_nodejs.Naming.Instance.{InstanceOptions, Instance, new_instance, as_options}
use nacos_sdk_nodejs.Naming.BeatReactor.{BeatInfo, Reactor, add_beat_info, remove_beat_info}
use nacos_sdk_nodejs.Naming.BeatReactor

-- `NamingTransport`, over the state of the proxy and its errors
pub record NamingTransport (S E : Type 0) : Type 0 where
  pub register_service : Text → Text → InstanceOptions → S → Outcome E Text × S
  pub deregister_service : Text → InstanceOptions → S → Outcome E Text × S
  pub server_healthy : S → Bool × S
  pub close : S → S

pub record Client (S : Type 0) : Type 0 where
  pub server_proxy : S
  -- none over gRPC
  pub beat_reactor : Option Reactor

abbrev pub beat_of : Text → Instance → BeatInfo
beat_of name i = record {
  service_name = name;
  ip = i.ip;
  port = i.port;
  cluster = i.cluster_name;
  weight = i.weight;
  metadata = i.metadata;
}

-- the part of `registerInstance` that concerns the heart beats
unfoldable pub with_beat : Text → Instance → Option Reactor → Option Reactor
with_beat name i none = none
with_beat name i (some r) =
    if i.ephemeral then some (add_beat_info name (beat_of name i) r) else some r

unfoldable pub without_beat : Text → Instance → Option Reactor → Option Reactor
without_beat name i none = none
without_beat name i (some r) = some (remove_beat_info name i.ip i.port r)

module _ {S E : Type 0} (transport : NamingTransport S E) where
  -- the end of an asynchronous call: its error, or nothing
  abbrev pub ended : Outcome E Text × S → Option Reactor → Option E × Client S
  ended (ok t, s) b = (none, record { server_proxy = s; beat_reactor = b })
  ended (err e, s) b = (some e, record { server_proxy = s; beat_reactor = b })

  -- `registerInstance`: the heart beats start before the request, whatever comes of it
  unfoldable pub register_instance : Text → InstanceOptions → Text → Client S → Option E × Client S
  register_instance service_name options group_name c =
      let i = new_instance options in
      let name = get_grouped_name service_name group_name in
      ended (transport.register_service name group_name (as_options i) c.server_proxy)
        (with_beat name i c.beat_reactor)

  unfoldable pub deregister_instance :
      Text → InstanceOptions → Text → Client S → Option E × Client S
  deregister_instance service_name options group_name c =
      let i = new_instance options in
      let name = get_grouped_name service_name group_name in
      ended (transport.deregister_service name (as_options i) c.server_proxy)
        (without_beat name i c.beat_reactor)

  unfoldable pub get_server_status : Client S → Text × Client S
  get_server_status c =
      let (healthy, s) = transport.server_healthy c.server_proxy in
      (if healthy then codes "UP" else codes "DOWN", record c { server_proxy = s })

  abbrev pub close_beats : Option Reactor → Option Reactor
  close_beats none = none
  close_beats (some r) = some (BeatReactor.close r)

  -- `_close`, without the reactor of the hosts; it closes the connection, not the proxy
  unfoldable pub close : Client S → Client S
  close c = record c { beat_reactor = close_beats c.beat_reactor }
