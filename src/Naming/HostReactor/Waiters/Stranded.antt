-- ===== src/Naming/HostReactor/Waiters/Stranded.antt =====
-- Which fetches end the calls that wait for them.
use nacos_sdk_nodejs.Prelude.{
  ℕ, ◌≡◌, refl, ap, ◌∙◌, true, false, not, some, Text, List, [], ◌∷◌, filter, Outcome, ok, err,
  arith, is_some,
}
use nacos_sdk_nodejs.Prelude.Dict
use nacos_sdk_nodejs.Naming.HostReactor.{
  ReactorEnv, ServiceData, Reactor, Event, is_valid, new_service_info, key_of, process_service,
  process_service_json,
}
use nacos_sdk_nodejs.Naming.HostReactor.Operations.{
  update_service_now, schedule_update_if_absent, take_result,
}
use nacos_sdk_nodejs.Naming.HostReactor.Waiters.{
  Call, Calls, key_of_call, answer, wakes, wake, updated, fetch_done,
}

module _ (env : ReactorEnv) where
  -- The server's answer gives no hosts: it says that the service is not found, or nothing, or it is a
  -- service without hosts.
  pub data IsEmptyAnswer : Outcome env.ProxyError Text → Type 0 where
    not_found : {e : env.ProxyError} → env.is_404 e ≡ true → IsEmptyAnswer (err e)
    no_text : IsEmptyAnswer (ok [])
    no_hosts :
        {c : ℕ} {cs : Text} {d : ServiceData env.Host}
        → env.parse (c ∷ cs) ≡ some d
        → is_valid env (new_service_info env d) ≡ false
        → IsEmptyAnswer (ok (c ∷ cs))

  json-events :
      (t : Text) (r : Reactor env) {d : ServiceData env.Host}
      → env.parse t ≡ some d
      → is_valid env (new_service_info env d) ≡ false
      → process_service_json env t r
        ≡ some (Dict.get (key_of env (new_service_info env d)) r.service_info_map, r)
  unfolding process_service_json process_service
  json-events t r p v = rw (p, process_service_json, v) refl

  take-events :
      (o : Outcome env.ProxyError Text) (r : Reactor env)
      → IsEmptyAnswer o
      → ((take_result env o r).events ≡ r.events)
        × ((take_result env o r).updating_set ≡ r.updating_set)
  take-events (err e) r (not_found h) = rw h (refl, refl)
  take-events (ok []) r no_text = (refl, refl)
  take-events (ok (c ∷ cs)) r (no_hosts p v) =
      rw (json-events (c ∷ cs) r p v, take_result) (refl, refl)

  updated-events :
      (f : Call) (w : Calls env)
      → IsEmptyAnswer (env.query_list w.reactor.net f.service_name f.clusters env.udp_port).0
      → (updated env f w).events ≡ []
  unfolding updated update_service_now
  updated-events f w h = (take-events _ _ h).0

  none_woken :
      (fs : List Call)
      → (filter (λ f. wakes env (key_of_call f) []) fs ≡ [])
        × (filter (λ f. not (wakes env (key_of_call f) [])) fs ≡ fs)
  unfolding wakes
  none_woken [] = (refl, refl)
  none_woken (f ∷ fs) = let h = none_woken fs in (h.0, ap (λ gs. f ∷ gs) h.1)

  schedule-updating :
      (s c : Text) (r : Reactor env)
      → (schedule_update_if_absent env s c r).updating_set ≡ r.updating_set
  unfolding schedule_update_if_absent
  schedule-updating s c r = ground arith

  -- events that wake no call end none
  wake_nothing :
      {news : List (Event env)} (w : Calls env)
      → news ≡ []
      → (wake env news w).waiting ≡ w.waiting × ((wake env news w).ended ≡ w.ended)
  unfolding wake
  wake_nothing w e = rw (e, (none_woken w.waiting).0, (none_woken w.waiting).1) (refl, refl)

  -- A fetch whose answer is that the service is not found, or no text, or a service without hosts
  -- ends the call that fetched, with the service that the map has then, and the service no longer
  -- counts as being updated. It ends no other call: all that wait, wait on.
  pub empty_answer_strands :
      (f : Call) (w : Calls env)
      → IsEmptyAnswer (env.query_list w.reactor.net f.service_name f.clusters env.udp_port).0
      → let u = fetch_done env f w in
        (u.waiting ≡ w.waiting)
        × (Dict.has (key_of_call f) u.reactor.updating_set ≡ false)
        × (u.ended
            ≡ (f.caller, some (Dict.get (key_of_call f) u.reactor.service_info_map)) ∷ w.ended)
  unfolding fetch_done answer
  empty_answer_strands f w h =
      let k = wake_nothing _ (updated-events f w h) in
      let known = (fetch_done env f w).reactor.service_info_map in
      (
        k.0,
        ap (λ u. Dict.has (key_of_call f) u) (schedule-updating f.service_name f.clusters _)
            ∙ ap is_some (Dict.get-delete_self (key_of_call f) _),
        ap (λ es. (f.caller, some (Dict.get (key_of_call f) known)) ∷ es) k.1,
      )
