-- ===== src/Naming/HostReactor.antt =====
-- packages/nacos-naming/src/naming/host_reactor.ts: `HostReactor`, the services that a naming client
-- knows, and naming/service_info.ts: the constructor of `ServiceInfo`. `JSON.parse`, `equals` and the
-- server proxy are parameters. A method runs between two `await`s; the reactor's events, calls of
-- listeners and timers are put on `events`.
pub mod Operations
pub mod Changes
pub mod Updates
pub mod Waiters
use nacos_sdk_nodejs.Prelude.{
  ℕ, suc, Bool, true, false, not, ◌&&◌, ◌||◌, Option, none, some, Text, Outcome, ok, err, codes,
  List, [], ◌∷◌, ◌++◌, filter, if◌then◌else◌, ◌==◌, leb, ltb, is_some, is_empty, get_or_else,
}
use nacos_sdk_nodejs.Prelude.Dict
use nacos_sdk_nodejs.Prelude.Emitter.{remove_last}
use nacos_sdk_nodejs.Prelude.Dict.{Dict}
use nacos_sdk_nodejs.Naming.Names.{get_key}

-- a parsed service; a field that is missing is none
pub record ServiceData (Host : Type 0) : Type 0 where
  pub name : Option Text
  pub dom : Option Text
  pub clusters : Option Text
  pub cache_millis : Option ℕ
  pub hosts : Option (List Host)
  pub last_ref_time : Option ℕ

pub record ServiceInfo (Host : Type 0) : Type 0 where
  pub name : Text
  pub clusters : Option Text
  pub cache_millis : ℕ
  pub hosts : List Host
  pub last_ref_time : ℕ

abbrev pub default_delay : ℕ
default_delay = 5000

-- `a || b` on optional texts and numbers
abbrev pub truthy_text : Option Text → Option Text → Option Text
truthy_text none b = b
truthy_text (some []) b = b
truthy_text (some (c ∷ cs)) b = some (c ∷ cs)

abbrev pub truthy_number : Option ℕ → ℕ → ℕ
truthy_number none d = d
truthy_number (some n) d = if n == 0 then d else n

pub record ReactorEnv : Type 1 where
  pub Host : Type 0
  pub Net : Type 0
  pub ProxyError : Type 0
  -- `host.ip + ':' + host.port`
  pub address : Host → Text
  -- the package `equals`
  pub equals : Host → Host → Bool
  -- none where `JSON.parse` throws
  pub parse : Text → Option (ServiceData Host)
  -- `serverProxy.queryList(serviceName, clusters, udpPort, false)`
  pub query_list : Net → Text → Text → ℕ → Outcome ProxyError Text × Net
  pub is_404 : ProxyError → Bool
  pub udp_port : ℕ

module _ (env : ReactorEnv) where
  open env use {Host, Net, ProxyError}

  -- the constructor of `ServiceInfo`
  unfoldable pub new_service_info : ServiceData Host → ServiceInfo Host
  new_service_info d = record {
    name = get_or_else [] (truthy_text d.name d.dom);
    clusters = d.clusters;
    cache_millis = truthy_number d.cache_millis default_delay;
    hosts = get_or_else [] d.hosts;
    last_ref_time = truthy_number d.last_ref_time 0;
  }

  abbrev pub has_hosts : List Host → Bool
  has_hosts [] = false
  has_hosts (_ ∷ _) = true

  -- `isValid`: an empty array of hosts is not
  abbrev pub is_valid : ServiceInfo Host → Bool
  is_valid s = has_hosts s.hosts

  unfoldable pub key_of : ServiceInfo Host → Text
  key_of s = get_key s.name s.clusters

  pub data Event : Type 0 where
    -- `this.emit(key + '_changed', hosts, serviceInfo)`
    changed : Text → List Host → Event
    call_listener : ℕ → List Host → Event
    -- `this.emit('error', err)`
    failed : ProxyError → Event
    bad_json : Event
    -- `setTimeout(() => this._doUpdate(…), delay)` for the key
    timer : Text → ℕ → Event

  pub record FutureTask : Type 0 where
    -- none is `Infinity`
    pub last_ref_time : Option ℕ

  pub record Reactor : Type 0 where
    pub service_info_map : Dict (ServiceInfo Host)
    pub updating_set : Dict (Unit {0})
    pub future_map : Dict FutureTask
    pub listeners : Dict (List ℕ)
    pub net : Net
    -- the last one first
    pub events : List Event

  abbrev pub push : Event → Reactor → Reactor
  push e r = record r { events = e ∷ r.events }

  abbrev pub store : ServiceInfo Host → Reactor → Reactor
  store s r = record r { service_info_map = Dict.set (key_of s) s r.service_info_map }

  -- the loops that fill `oldHostMap` and `newHostMap`
  unfoldable pub host_map_from : Dict Host → List Host → Dict Host
  host_map_from m [] = m
  host_map_from m (h ∷ hs) = host_map_from (Dict.set (env.address h) h m) hs

  abbrev pub host_map : List Host → Dict Host
  host_map hs = host_map_from [] hs

  -- the two tests of the loop over the new hosts
  unfoldable pub is_modified : Dict Host → Host → Bool
  is_modified old h = elim (Dict.get (env.address h) old) [
    | none ↦ false
    | some o ↦ not (env.equals h o)
  ]

  unfoldable pub is_new : Dict Host → Host → Bool
  is_new old h = not (Dict.has (env.address h) old)

  -- `remvHosts`
  unfoldable pub removed_from : Dict Host → Dict Host → List Host
  removed_from new [] = []
  removed_from new ((k, h) ∷ old) =
      let rest = removed_from new old in if Dict.has k new then rest else h ∷ rest

  abbrev pub no_entries : Dict Host → Bool
  no_entries [] = true
  no_entries (_ ∷ _) = false

  -- whether the hosts of a known service have changed, or there were none
  unfoldable pub is_changed : List Host → List Host → Bool
  unfolding is_modified is_new removed_from
  is_changed old new =
      let old_map = host_map old in
      let new_map = host_map new in
      has_hosts (filter (is_new old_map) new)
      || (has_hosts (removed_from new_map old_map)
          || (has_hosts (filter (is_modified old_map) new) || no_entries old_map))

  abbrev pub announce : ServiceInfo Host → Option (ServiceInfo Host) → Reactor → Reactor
  announce s none r = push (changed (key_of s) s.hosts) r
  announce s (some old) r =
      if is_changed old.hosts s.hosts then push (changed (key_of s) s.hosts) r else r

  -- `processServiceJSON`, once the text is parsed
  unfoldable pub process_service : ServiceInfo Host → Reactor → Option (ServiceInfo Host) × Reactor
  process_service s r =
      let old = Dict.get (key_of s) r.service_info_map in
      if is_valid s then (some s, announce s old (store s r)) else (old, r)

  -- `processServiceJSON`; none where it throws
  unfoldable pub process_service_json :
      Text → Reactor → Option (Option (ServiceInfo Host) × Reactor)
  process_service_json json r = elim (env.parse json) [
    | none ↦ none
    | some d ↦ some (process_service (new_service_info d) r)
  ]
