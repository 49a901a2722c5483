-- ===== src/Naming/HostReactor/Updates.antt =====
-- What an update stores, and when a timed update must not overwrite a pushed one.
use nacos_sdk_nodejs.Prelude.{
  ℕ, ◌≡◌, refl, inl, inr, Bool, true, false, ◌&&◌, Option, none, some, Text, ◌∷◌, arith,
  if◌then◌else◌, text_eq, leb, Outcome-cases,
}
use nacos_sdk_nodejs.Prelude.Dict
use nacos_sdk_nodejs.Prelude.Dict.{Dict, get-set}
use nacos_sdk_nodejs.Naming.Names.{get_key}
use nacos_sdk_nodejs.Naming.HostReactor.{
  ReactorEnv, ServiceInfo, Reactor, changed, timer, FutureTask, is_valid, key_of, is_changed,
  process_service,
}
use nacos_sdk_nodejs.Naming.HostReactor.Operations.{refresh_only, reschedule, do_update}

module _ (env : ReactorEnv) where
  -- whether a valid update is announced, by what was known of the service
  abbrev pub is_announced : Option (ServiceInfo env.Host) → ServiceInfo env.Host → Bool
  is_announced none s = true
  is_announced (some old) s = is_changed env old.hosts s.hosts

  -- What an update did to the reactor.
  pub record Stored (s : ServiceInfo env.Host) (r r' : Reactor env) : Type 0 where
    pub services :
        (k : Text)
        → Dict.get k r'.service_info_map ≡ (
            if is_valid env s && text_eq (key_of env s) k
            then some s
            else Dict.get k r.service_info_map)
    pub events : r'.events ≡ (
        if is_valid env s && is_announced (Dict.get (key_of env s) r.service_info_map) s
        then changed (key_of env s) s.hosts ∷ r.events
        else r.events)
    pub tasks : r'.future_map ≡ r.future_map

  -- An update with hosts replaces what is known under its own key alone, and is announced if the
  -- service was unknown or its hosts changed. An update without hosts changes and announces nothing.
  pub process_service-Stored :
      (s : ServiceInfo env.Host) (r : Reactor env) → Stored s r (process_service env s r).1
  unfolding process_service
  process_service-Stored s r = record {
    services = λ k. ground (arith, get-set (key_of env s) k s r.service_info_map);
    events = ground arith;
    tasks = ground arith;
  }

  refresh_only-keeps :
      (name clusters : Text) (r : Reactor env)
      → ((refresh_only env name clusters r).service_info_map ≡ r.service_info_map)
        × ((refresh_only env name clusters r).future_map ≡ r.future_map)
  unfolding refresh_only
  refresh_only-keeps name clusters r =
      elim (Outcome-cases (env.query_list r.net name clusters env.udp_port).0) [
        | inl (a, e) ↦ (rw (e, refresh_only), rw (e, refresh_only))
        | inr (a, e) ↦ (rw (e, refresh_only), rw (e, refresh_only))
      ]

  -- What the end of a timed update does when the service and its task are known.
  reschedule-known :
      (key : Text) (task : FutureTask env) (r : Reactor env) (s : ServiceInfo env.Host)
      → Dict.get key r.service_info_map ≡ some s
      → Dict.get key r.future_map ≡ some task
      → reschedule env key task r ≡ record r {
        events = timer key s.cache_millis ∷ r.events;
        future_map = Dict.set key (record { last_ref_time = some s.last_ref_time }) r.future_map;
      }
  unfolding reschedule
  reschedule-known key task r s g f = rw (g, f) refl

  do_update-late :
      (name clusters : Text) (r : Reactor env) (s : ServiceInfo env.Host) (t : ℕ)
      → Dict.get (get_key name (some clusters)) r.future_map
        ≡ some (record { last_ref_time = some t })
      → Dict.get (get_key name (some clusters)) r.service_info_map ≡ some s
      → leb s.last_ref_time t ≡ false
      → do_update env name clusters r
        ≡ reschedule env
            (get_key name (some clusters))
            (record { last_ref_time = some t })
            (refresh_only env name clusters r)
  unfolding do_update
  do_update-late name clusters r s t f g late = rw (f, do_update) (rw (g, late) refl)
