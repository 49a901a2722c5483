-- ===== src/Naming/HostReactor/Operations.antt =====
-- packages/nacos-naming/src/naming/host_reactor.ts: the subscriptions, the fetches and the timed updates
-- of `HostReactor`, and its close.
use nacos_sdk_nodejs.Prelude.{
  ℕ, Bool, true, Option, none, some, Text, Outcome, ok, err, codes, List, [], ◌∷◌, ◌++◌,
  if◌then◌else◌, leb, is_empty, get_or_else,
}
use nacos_sdk_nodejs.Prelude.Dict
use nacos_sdk_nodejs.Prelude.Emitter.{remove_last}
use nacos_sdk_nodejs.Prelude.Dict.{Dict}
use nacos_sdk_nodejs.Naming.Names.{get_key}
use nacos_sdk_nodejs.Naming.HostReactor.{
  ServiceInfo, ReactorEnv, call_listener, failed, bad_json, timer, FutureTask, Reactor,
  default_delay, push, process_service_json,
}

module _ (env : ReactorEnv) where
  open env use {Host, ProxyError}

  abbrev pub default_cluster : Text
  default_cluster = codes "DEFAULT"

  -- `_getKey`
  pub subscription_key : Text → Text → Text
  subscription_key service_name clusters =
      get_key service_name (some (if is_empty clusters then default_cluster else clusters))

  abbrev pub listeners_of : Reactor env → Text → List ℕ
  listeners_of r key = get_or_else [] (Dict.get key r.listeners)

  -- the branch of `updateServiceNow` that has a result, where the result may be the empty text
  abbrev pub take_result : Outcome ProxyError Text → Reactor env → Reactor env
  take_result (err e) r = if env.is_404 e then r else push env (failed e) r
  take_result (ok []) r = r
  take_result (ok (c ∷ cs)) r = elim (process_service_json env (c ∷ cs) r) [
    | none ↦ push env bad_json r
    | some (_, r') ↦ r'
  ]

  unfoldable pub update_service_now : Text → Text → Reactor env → Reactor env
  update_service_now service_name clusters r =
      let (o, net) = env.query_list r.net service_name clusters env.udp_port in
      take_result o (record r { net = net })

  unfoldable pub refresh_only : Text → Text → Reactor env → Reactor env
  refresh_only service_name clusters r =
      let (o, net) = env.query_list r.net service_name clusters env.udp_port in
      let r' = record r { net = net } in elim o [ ok _ ↦ r' | err e ↦ push env (failed e) r' ]

  -- `_scheduleUpdateIfAbsent`
  unfoldable pub schedule_update_if_absent : Text → Text → Reactor env → Reactor env
  schedule_update_if_absent service_name clusters r =
      let key = get_key service_name (some clusters) in
      if Dict.has key r.future_map
      then r
      else push env (timer key 1000)
          (record r { future_map = Dict.set key (record { last_ref_time = none }) r.future_map })

  -- `getServiceInfo` for a service that is not known yet: fetch it now
  unfoldable pub get_service_info_new : Text → Text → Reactor env → Reactor env
  unfolding schedule_update_if_absent
  get_service_info_new service_name clusters r =
      let key = get_key service_name (some clusters) in
      let empty : ServiceInfo Host = record {
        name = service_name;
        clusters = some clusters;
        cache_millis = default_delay;
        hosts = [];
        last_ref_time = 0;
      } in
      let waiting = record r {
        service_info_map = Dict.set key empty r.service_info_map;
        updating_set = Dict.set key tt r.updating_set;
      } in
      let fetched = update_service_now service_name clusters waiting in
      schedule_update_if_absent service_name clusters
        (record fetched { updating_set = Dict.delete key fetched.updating_set })

  -- `subscribe`: call back at once if the service is known, else fetch it. The listener is
  -- there before the answer to the fetch, which is awaited.
  unfoldable pub subscribe : Text → Text → ℕ → Reactor env → Reactor env
  subscribe service_name clusters l r =
      let key = subscription_key service_name clusters in
      let wanted = if is_empty clusters then default_cluster else clusters in
      let r' = record r { listeners = Dict.set key (listeners_of r key ++ l ∷ []) r.listeners } in
      elim (Dict.get key r.service_info_map) [
        | some s ↦ push env (call_listener l s.hosts) r'
        | none ↦ get_service_info_new service_name wanted r'
      ]

  abbrev without : Option ℕ → List ℕ → List ℕ
  without none ls = []
  without (some l) ls = remove_last l ls

  unfoldable pub un_subscribe : Text → Text → Option ℕ → Reactor env → Reactor env
  un_subscribe service_name clusters listener r =
      let key = subscription_key service_name clusters in
      record r { listeners = Dict.set key (without listener (listeners_of r key)) r.listeners }

  -- `lastRefTime <= task.lastRefTime`
  abbrev pub is_stale : ℕ → Option ℕ → Bool
  is_stale t none = true
  is_stale t (some limit) = leb t limit

  abbrev pub needs_update : Option (ServiceInfo Host) → FutureTask env → Bool
  needs_update none task = true
  needs_update (some s) task = is_stale s.last_ref_time task.last_ref_time

  abbrev pub next_task : Option (ServiceInfo Host) → FutureTask env → FutureTask env
  next_task none task = task
  next_task (some s) task = record { last_ref_time = some s.last_ref_time }

  abbrev pub next_delay : Option (ServiceInfo Host) → ℕ
  next_delay none = default_delay
  next_delay (some s) = s.cache_millis

  -- the end of `_doUpdate`: the next timer, if the task is still there
  unfoldable pub reschedule : Text → FutureTask env → Reactor env → Reactor env
  reschedule key task r =
      let s = Dict.get key r.service_info_map in
      if Dict.has key r.future_map
      then push env (timer key (next_delay s))
          (record r { future_map = Dict.set key (next_task s task) r.future_map })
      else r

  unfoldable pub do_update : Text → Text → Reactor env → Reactor env
  do_update service_name clusters r =
      let key = get_key service_name (some clusters) in
      elim (Dict.get key r.future_map) [
        | none ↦ r
        | some task ↦
            let fresh =
              if needs_update (Dict.get key r.service_info_map) task
              then update_service_now service_name clusters r
              else refresh_only service_name clusters r in
            reschedule key task fresh
      ]

  -- `removeAllListeners(key + '_changed')` for each service
  remove_all : Dict (ServiceInfo Host) → Dict (List ℕ) → Dict (List ℕ)
  remove_all [] ls = ls
  remove_all ((key, s) ∷ rest) ls = remove_all rest (Dict.delete key ls)

  -- `_close`: the timers are cleared, so what `events` holds of them does not happen
  unfoldable pub close : Reactor env → Reactor env
  unfolding remove_all
  close r = record r {
    service_info_map = [];
    updating_set = [];
    future_map = [];
    listeners = remove_all r.service_info_map r.listeners;
  }
