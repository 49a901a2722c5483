-- ===== src/Examples/Clients.antt =====
-- A gRPC client with one subscription.
use nacos_sdk_nodejs.Prelude.{
  ◌≡◌, refl, ap, true, false, none, some, Text, text_eq, codes, ok, [], ◌∷◌, arith,
}
use nacos_sdk_nodejs.Prelude.Dict
use nacos_sdk_nodejs.Config.Recovery.{ConfigReadResult, server}
use nacos_sdk_nodejs.Config.Client.{
  Client, FailoverState, fresh_state, resume, init_start, changed_fetched, is_active,
  notify_listeners, Loop, live, call_listener, next_listener,
}
use nacos_sdk_nodejs.Config.Client.Operations.{
  subscribe, un_subscribe, subscribes, runs, calls, Steps, done, next, requeue, enqueue, drop_key,
}
use nacos_sdk_nodejs.Prelude.Emitter.{has_listener}
use nacos_sdk_nodejs.Config.Client.Notices.{Told, Subscribed}
use nacos_sdk_nodejs.Config.Client.Lifecycle.{inactive_for_good}
use nacos_sdk_nodejs.Config.Client.Silence.{
  Never, is_detached_loop, called_is_registered, closed_is_silent,
}

abbrev Failure : Type 0
Failure = Text

abbrev md5 : Text → Text
md5 t = t

abbrev k : Text
k = codes "d@@g"

abbrev following : FailoverState
following = record fresh_state {
  use_failover = true;
  failover_version = some 1;
  content = some (codes "file");
}

abbrev with_state : FailoverState → Client Failure
with_state st = record {
  closed = false;
  subscribers = some ((k, 5 ∷ []) ∷ []);
  failover_state = (k, 0) ∷ [];
  heap = λ i. st;
  next = 1;
  watching = true;
  tasks = (k, init_start 0 5 ∷ []) ∷ [];
  loop = none;
  events = [];
}

abbrev open_client : Client Failure
open_client = with_state fresh_state

abbrev closed_client : Client Failure
closed_client = record open_client { closed = true }

abbrev from_server : ConfigReadResult
from_server = record { content = some (codes "v"); source = server }

-- the client before the answer of a push's read
abbrev reading : Client Failure
reading = record open_client { tasks = (k, changed_fetched 0 ∷ []) ∷ [] }

loop_starts :
    Steps md5 reading (requeue k [] (resume md5 k (changed_fetched 0) (ok from_server) reading))
unfolding Dict.get text_eq
loop_starts = next (runs k (changed_fetched 0) [] (ok from_server) reading refl refl) done

abbrev in_loop : Client Failure
in_loop = requeue k [] (resume md5 k (changed_fetched 0) (ok from_server) reading)

abbrev loop : Loop
loop = record { key = k; content = codes "v"; walk = live 0 }

looping : in_loop.loop ≡ some loop
unfolding resume notify_listeners Dict.get text_eq has_listener
looping = refl

called_is_registered_example :
    Told
      (Subscribed in_loop)
      in_loop.events
      (call_listener loop (next_listener loop in_loop) in_loop).events
called_is_registered_example =
    called_is_registered refl loop_starts (ap is_detached_loop looping) (calls loop in_loop looping)

closed_is_silent_example :
    Told {E = Failure} Never []
      (requeue k [] (resume md5 k (init_start 0 5) tt closed_client)).events
unfolding Dict.get text_eq
closed_is_silent_example =
    closed_is_silent (next (runs k (init_start 0 5) [] tt closed_client refl refl) done) refl refl

abbrev unsubscribed : Client Failure
unsubscribed = un_subscribe k none open_client

inactive_for_good_example : is_active k 0 (subscribe k 5 unsubscribed) ≡ false
unfolding un_subscribe drop_key enqueue Dict.get Dict.set Dict.delete text_eq
inactive_for_good_example =
    inactive_for_good {md5 = md5} k 0 (next (subscribes k 5 unsubscribed) done) (omega arith) refl
