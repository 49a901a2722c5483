-- ===== src/Examples/Waits.antt =====
-- Two calls for one service, at a server that says nothing, and at one that answers.
use mathlib.Core.List.{Mem, mem-cons_self}
use nacos_sdk_nodejs.Prelude.{
  sym, subst, true, ℕ, ◌≡◌, false, none, some, codes, ok, [], ◌∷◌, ◌==◌, text_eq, refl,
}
use nacos_sdk_nodejs.Prelude.Dict
use nacos_sdk_nodejs.Naming.Names.{get_key}
use nacos_sdk_nodejs.Naming.HostReactor.{
  ReactorEnv, is_changed, host_map_from, is_new, is_modified, removed_from, key_of,
  new_service_info, process_service, process_service_json,
}
use nacos_sdk_nodejs.Naming.HostReactor.Operations.{update_service_now}
use nacos_sdk_nodejs.Naming.HostReactor.Waiters.Woken.{waiting_is_answered}
use nacos_sdk_nodejs.Naming.HostReactor.Waiters.{
  Call, Calls, key_of_call, begin_fetch, get_service_info, fetch_done, wakes, updated,
}
use nacos_sdk_nodejs.Naming.HostReactor.Waiters.Stranded.{no_text, empty_answer_strands}

abbrev pub silent : ReactorEnv
silent = record {
  Host = ℕ;
  Net = Unit {0};
  ProxyError = Unit {0};
  address = λ h. h ∷ [];
  equals = λ h o. h == o;
  parse = λ t. none;
  query_list = λ n name clusters port. (ok [], n);
  is_404 = λ e. false;
  udp_port = 0;
}

abbrev call : ℕ → Call
call i = record { caller = i; service_name = codes "s"; clusters = codes "c" }

abbrev start : Calls silent
start = record {
  reactor = record {
    service_info_map = [];
    updating_set = [];
    future_map = [];
    listeners = [];
    net = tt;
    events = [];
  };
  fetching = [];
  waiting = [];
  ended = [];
}

-- the first call fetches, and the second one waits for it
abbrev both : Calls silent
both = get_service_info silent (call 1) (get_service_info silent (call 0) start)

empty_answer_strands_example :
    let u = fetch_done silent (call 0) both in
    (u.waiting ≡ both.waiting)
    × (Dict.has (key_of_call (call 0)) u.reactor.updating_set ≡ false)
    × (u.ended
        ≡ (0, some (Dict.get (key_of_call (call 0)) u.reactor.service_info_map)) ∷ both.ended)
empty_answer_strands_example = empty_answer_strands silent (call 0) both no_text

second_waits : ((both.fetching ≡ call 0 ∷ []) × (both.waiting ≡ call 1 ∷ []))
unfolding get_service_info begin_fetch Dict.get Dict.set text_eq get_key
second_waits = (refl, refl)

-- a server that answers with a host
abbrev serving : ReactorEnv
serving = record silent {
  parse = λ t. some (record {
    name = some (codes "s");
    dom = none;
    clusters = some (codes "c");
    cache_millis = none;
    hosts = some (7 ∷ []);
    last_ref_time = none;
  });
  query_list = λ n name clusters port. (ok (codes "{}"), n);
}

abbrev idle : Calls serving
idle = record {
  reactor = record {
    service_info_map = [];
    updating_set = [];
    future_map = [];
    listeners = [];
    net = tt;
    events = [];
  };
  fetching = [];
  waiting = [];
  ended = [];
}

abbrev two : Calls serving
two = get_service_info serving (call 1) (get_service_info serving (call 0) idle)

two_waiting : two.waiting ≡ call 1 ∷ []
unfolding get_service_info begin_fetch Dict.get Dict.set text_eq get_key
two_waiting = refl

event_comes : wakes serving (key_of_call (call 1)) (updated serving (call 0) two).events ≡ true
unfolding wakes updated get_service_info begin_fetch Dict.get Dict.set text_eq get_key
    update_service_now process_service_json process_service is_changed host_map_from is_new
    is_modified removed_from key_of new_service_info
event_comes = refl

waiting_is_answered_example :
    Mem
      (1, some (Dict.get (key_of_call (call 1)) (updated serving (call 0) two).service_info_map))
      (fetch_done serving (call 0) two).ended
waiting_is_answered_example =
    waiting_is_answered serving (call 0) (call 1) two
      (subst (λ cs. Mem (call 1) cs) (sym two_waiting) mem-cons_self) event_comes
