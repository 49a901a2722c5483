-- ===== src/Naming/HostReactor/Waiters.antt =====
-- packages/nacos-naming/src/naming/host_reactor.ts: `getServiceInfo` with its waits. A caller is a
-- number. The first call for a service fetches it; a call that comes meanwhile waits for the
-- service's event `changed` (`waitForEvent`), or until its timer runs.
pub mod Stranded
pub mod Woken
use nacos_sdk_nodejs.Prelude.{
  ℕ, Bool, true, false, not, ◌||◌, Option, none, some, Text, text_eq, List, [], ◌∷◌, ◌++◌, filter,
  if◌then◌else◌, ◌==◌, any,
}
use nacos_sdk_nodejs.Prelude.Dict
use nacos_sdk_nodejs.Naming.Names.{get_key}
use nacos_sdk_nodejs.Naming.HostReactor.{
  ReactorEnv, ServiceInfo, Reactor, Event, changed, call_listener, failed, bad_json, timer,
  default_delay,
}
use nacos_sdk_nodejs.Naming.HostReactor.Operations.{update_service_now, schedule_update_if_absent}

pub record Call : Type 0 where
  pub caller : ℕ
  pub service_name : Text
  pub clusters : Text

abbrev pub key_of_call : Call → Text
key_of_call f = get_key f.service_name (some f.clusters)

module _ (env : ReactorEnv) where
  open env use {Host}

  pub record Calls : Type 0 where
    pub reactor : Reactor env
    -- the calls that fetch, and those in `waitForEvent`
    pub fetching : List Call
    pub waiting : List Call
    -- how calls ended, the last one first: none is the error of the timer
    pub ended : List (ℕ × Option (Option (ServiceInfo Host)))

  -- the end of `getServiceInfo`
  unfoldable pub answer : Call → Calls → Calls
  answer f w =
      let r = schedule_update_if_absent env f.service_name f.clusters w.reactor in
      record w {
        reactor = r;
        ended = (f.caller, some (Dict.get (key_of_call f) r.service_info_map)) ∷ w.ended;
      }

  abbrev pub empty_service : Call → ServiceInfo Host
  empty_service f = record {
    name = f.service_name;
    clusters = some f.clusters;
    cache_millis = default_delay;
    hosts = [];
    last_ref_time = 0;
  }

  -- the branch of a service that is not known
  unfoldable pub begin_fetch : Call → Calls → Calls
  begin_fetch f w =
      let r = w.reactor in
      record w {
        reactor = record r {
          service_info_map = Dict.set (key_of_call f) (empty_service f) r.service_info_map;
          updating_set = Dict.set (key_of_call f) tt r.updating_set;
        };
        fetching = f ∷ w.fetching;
      }

  -- `getServiceInfo`, until it waits or ends
  unfoldable pub get_service_info : Call → Calls → Calls
  get_service_info f w =
      let key = key_of_call f in
      let waits = record w { waiting = f ∷ w.waiting } in
      let known = if Dict.has key w.reactor.updating_set then waits else answer f w in
      if Dict.has key w.reactor.service_info_map then known else begin_fetch f w

  -- whether the event that the key's waiters wait for is among some events
  unfoldable pub wakes : Text → List (Event env) → Bool
  wakes key [] = false
  wakes key (changed k hosts ∷ es) = text_eq k key || wakes key es
  wakes key (call_listener l hosts ∷ es) = wakes key es
  wakes key (failed e ∷ es) = wakes key es
  wakes key (bad_json ∷ es) = wakes key es
  wakes key (timer k d ∷ es) = wakes key es

  abbrev pub answer_all : List Call → Calls → Calls
  answer_all [] w = w
  answer_all (f ∷ fs) w = answer_all fs (answer f w)

  -- the calls whose event was emitted go on
  unfoldable pub wake : List (Event env) → Calls → Calls
  wake news w =
      answer_all (filter (λ f. wakes (key_of_call f) news) w.waiting)
        (record w { waiting = filter (λ f. not (wakes (key_of_call f) news)) w.waiting })

  -- the reactor after `await this.updateServiceNow(…)`, with the events of the update alone
  unfoldable pub updated : Call → Calls → Reactor env
  updated f w = update_service_now env f.service_name f.clusters (record w.reactor { events = [] })

  -- the fetch of a call ends: the events have let waiting calls go on before it does
  unfoldable pub fetch_done : Call → Calls → Calls
  fetch_done f w =
      let r = updated f w in
      let woken = wake r.events (record w {
        reactor = record r { events = r.events ++ w.reactor.events };
        fetching = filter (λ g. not (g.caller == f.caller)) w.fetching;
      }) in
      answer f (record woken {
        reactor = record woken.reactor {
          updating_set = Dict.delete (key_of_call f) woken.reactor.updating_set;
        };
      })

  -- the timer of `waitForEvent` runs for a caller
  unfoldable pub time_out : ℕ → Calls → Calls
  time_out c w =
      if any (λ f. f.caller == c) w.waiting
      then record w {
        waiting = filter (λ f. not (f.caller == c)) w.waiting;
        ended = (c, none) ∷ w.ended;
      }
      else w
