-- ===== src/Config/Client/Operations.antt =====
-- packages/nacos-config/src/client.ts: `subscribe`, `unSubscribe` and `close` of `DataClient` over
-- gRPC, the push of the server and the timer of the failover files, and the runs of a client.
use nacos_sdk_nodejs.Prelude.{
  ℕ, zero, suc, text_eq, true, false, not, ◌&&◌, ◌≡◌, Option, none, some, Text, List, [], ◌∷◌, ◌++◌,
  if◌then◌else◌, ◌==◌, get_or_else,
}
use nacos_sdk_nodejs.Prelude.Dict
use nacos_sdk_nodejs.Prelude.Dict.{Dict}
use nacos_sdk_nodejs.Prelude.Emitter.{is_nil}
use nacos_sdk_nodejs.Config.Client.{
  Client, Pc, Answer, init_start, changed_start, check_start, remove_start, fresh_state,
  proxy_closed, lookup_listeners, resume, Loop, Walk, live, detached, listeners, next_listener,
  call_listener,
}

-- `listeners.splice(listeners.indexOf(listener), 1)`, where it is there
pub remove_first : ℕ → List ℕ → List ℕ
remove_first l [] = []
remove_first l (x ∷ xs) = if x == l then xs else x ∷ remove_first l xs

-- an array from an index on
abbrev pub drop_front : ℕ → List ℕ → List ℕ
drop_front zero xs = xs
drop_front (suc n) [] = []
drop_front (suc n) (x ∷ xs) = drop_front n xs

abbrev cleared : Option (Dict (List ℕ)) → Option (Dict (List ℕ))
cleared none = none
cleared (some d) = some []

-- a loop over the key's array, once the array is taken out of the map
abbrev pub detach_walk : List ℕ → Walk → Walk
detach_walk ls (live i) = detached (drop_front i ls)
detach_walk ls (detached xs) = detached xs

abbrev pub detach_if : Text → List ℕ → Option Loop → Option Loop
detach_if key ls none = none
detach_if key ls (some lp) =
    if text_eq lp.key key then some (record lp { walk = detach_walk ls lp.walk }) else some lp

module _ {E : Type 0} where
  -- `_grpcOpQueue.run(key, …)`
  unfoldable pub enqueue : Text → Pc → Client E → Client E
  enqueue key pc c = record c {
    tasks = Dict.set key (get_or_else [] (Dict.get key c.tasks) ++ pc ∷ []) c.tasks;
  }

  -- the state object of the key, made if the key has none
  unfoldable pub ensure_state : Text → Option ℕ → Client E → ℕ × Client E
  ensure_state key (some s) c = (s, c)
  ensure_state key none c = (
    c.next,
    record c {
      failover_state = Dict.set key c.next c.failover_state;
      heap = λ i. if i == c.next then fresh_state else c.heap i;
      next = suc c.next;
    },
  )

  unfoldable pub add_subscriber : Text → ℕ → Client E → Client E
  add_subscriber key l c = record c {
    subscribers = some (
        Dict.set key (lookup_listeners key c.subscribers ++ l ∷ []) (get_or_else [] c.subscribers));
    watching = true;
  }

  unfoldable pub subscribe : Text → ℕ → Client E → Client E
  subscribe key l c =
      let (s, c') = ensure_state key (Dict.get key c.failover_state) (add_subscriber key l c) in
      if c.closed then c else enqueue key (init_start s l) c'

  abbrev pub detach_all : Client E → Option Loop → Option Loop
  detach_all c none = none
  detach_all c (some lp) = some (record lp { walk = detach_walk (listeners lp.key c) lp.walk })

  -- no listener is left: forget the key, and queue the removal
  unfoldable pub drop_key : Text → List ℕ → Dict (List ℕ) → Client E → Client E
  drop_key key ls d c = enqueue key remove_start (record c {
    subscribers = some (Dict.delete key d);
    failover_state = Dict.delete key c.failover_state;
    watching = c.watching && not (is_nil (Dict.delete key d));
    loop = detach_if key ls c.loop;
  })

  abbrev pub after_removal : Text → Dict (List ℕ) → List ℕ → Client E → Client E
  after_removal key d [] c = drop_key key [] d c
  after_removal key d (l ∷ ls) c = record c { subscribers = some (Dict.set key (l ∷ ls) d) }

  abbrev pub un_subscribe_from : Text → Option ℕ → Option (Dict (List ℕ)) → Client E → Client E
  un_subscribe_from key listener none c = c
  un_subscribe_from key (some l) (some d) c =
      after_removal key d (remove_first l (get_or_else [] (Dict.get key d))) c
  un_subscribe_from key none (some d) c = drop_key key (get_or_else [] (Dict.get key d)) d c

  unfoldable pub un_subscribe : Text → Option ℕ → Client E → Client E
  un_subscribe key listener c = un_subscribe_from key listener c.subscribers c

  unfoldable pub close : Client E → Client E
  close c = if c.closed then c else record c {
    closed = true;
    watching = false;
    subscribers = cleared c.subscribers;
    failover_state = [];
    events = proxy_closed ∷ c.events;
    loop = detach_all c c.loop;
  }

  -- the rest of the key's operations after a run of the first
  abbrev pub requeue : Text → List Pc → Option Pc × Client E → Client E
  requeue key rest (none, c) = record c { tasks = Dict.set key rest c.tasks }
  requeue key rest (some pc, c) = record c { tasks = Dict.set key (pc ∷ rest) c.tasks }

  -- What can happen to a client, `md5` being the hash of its listeners' contents.
  pub data Step (md5 : Text → Text) : Client E → Client E → Type 0 where
    subscribes : (key : Text) (l : ℕ) (c : Client E) → Step md5 c (subscribe key l c)
    un_subscribes : (key : Text) (l : Option ℕ) (c : Client E) → Step md5 c (un_subscribe key l c)
    closes : (c : Client E) → Step md5 c (close c)
    -- the event `configChanged`
    pushed : (key : Text) (c : Client E) → Step md5 c (enqueue key changed_start c)
    -- a key's turn in `_checkGrpcLocalFailover`
    checks : (key : Text) (c : Client E) → Step md5 c (enqueue key check_start c)
    -- the running operation of a key, answered
    runs :
        (key : Text) (pc : Pc) (rest : List Pc) (a : Answer E pc) (c : Client E)
        → c.loop ≡ none
        → Dict.get key c.tasks ≡ some (pc ∷ rest)
        → Step md5 c (requeue key rest (resume md5 key pc a c))
    -- a round of the loop that runs
    calls :
        (lp : Loop) (c : Client E)
        → c.loop ≡ some lp
        → Step md5 c (call_listener lp (next_listener lp c) c)

  pub data Steps (md5 : Text → Text) : Client E → Client E → Type 0 where
    done : {c : Client E} → Steps md5 c c
    next : {c d e : Client E} → Step md5 c d → Steps md5 d e → Steps md5 c e
