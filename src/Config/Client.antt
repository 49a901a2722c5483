-- ===== src/Config/Client.antt =====
-- packages/nacos-config/src/client.ts: the subscriptions of `DataClient` over gRPC. A state object
-- is a place of the heap, so that its identity can be compared. An operation of a key's queue stops
-- at each `await`: `Pc` names the place, and `resume` runs it on with the answer. The queue
-- itself is Config/KeyedQueue.antt; here each key has its operations in order, and the first of
-- them runs. The loop of `_notifyGrpcListeners` over the array of a key is a part of the state, and
-- each of its rounds is a step, so that what a listener does in its callback is steps before the next
-- round. A call of a single listener needs no loop.
pub mod Operations
pub mod Notices
pub mod Frame
pub mod Lifecycle
pub mod Silence
pub mod Files
pub mod Requests
use nacos_sdk_nodejs.Prelude.{
  ℕ, suc, Bool, true, false, not, ◌&&◌, ◌||◌, ◌≡◌, Option, none, some, Text, text_eq, Outcome, ok,
  err, List, [], ◌∷◌, ◌++◌, get_elem?, if◌then◌else◌, ◌==◌, is_empty, get_or_else,
}
use nacos_sdk_nodejs.Prelude.Dict
use nacos_sdk_nodejs.Prelude.Dict.{Dict}
use nacos_sdk_nodejs.Prelude.Emitter.{has_listener, is_nil}
use nacos_sdk_nodejs.Config.Recovery.{
  ConfigReadResult, ConfigContentSource, failover, server, snapshot,
}

-- `GrpcFailoverState`
pub record FailoverState : Type 0 where
  pub use_failover : Bool
  pub failover_version : Option ℕ
  pub content : Option Text
  pub listener_registered : Bool
  pub listener_md5 : Option Text

abbrev pub fresh_state : FailoverState
fresh_state = record {
  use_failover = false;
  failover_version = none;
  content = none;
  listener_registered = false;
  listener_md5 = some [];
}

-- Where an operation of the queue stands: before its start, or at an `await`. The number is the state
-- object, the other number of an initialization its listener.
pub data Pc : Type 0 where
  -- `_initGrpcSubscription`
  init_start : ℕ → ℕ → Pc
  init_fetched : ℕ → ℕ → Pc
  init_mtime : ℕ → ℕ → Text → Pc
  init_read : ℕ → ℕ → Text → ℕ → Pc
  -- after the call of the listener, before the registration
  init_register : ℕ → Text → Pc
  init_added : ℕ → Pc
  -- `_onGrpcConfigChanged`
  changed_start : Pc
  changed_fetched : ℕ → Pc
  -- `_checkGrpcFailoverForKey`
  check_start : Pc
  check_added : ℕ → Pc
  check_mtime : ℕ → Pc
  check_recover : ℕ → Pc
  check_read : ℕ → ℕ → Pc
  -- the call of `removeListener`
  remove_start : Pc
  removing : Pc

-- what the awaited call answers
abbrev pub Answer : Type 0 → Pc → Type 0
Answer E (init_start s l) = Unit
Answer E (init_fetched s l) = Outcome E ConfigReadResult
Answer E (init_mtime s l content) = Option ℕ
Answer E (init_read s l content mtime) = Option Text
Answer E (init_register s content) = Unit
Answer E (init_added s) = Bool
Answer E changed_start = Unit
Answer E (changed_fetched s) = Outcome E ConfigReadResult
Answer E check_start = Unit
Answer E (check_added s) = Bool
Answer E (check_mtime s) = Option ℕ
Answer E (check_recover s) = Outcome E ConfigReadResult
Answer E (check_read s mtime) = Option Text
Answer E remove_start = Unit
Answer E removing = Unit

pub data ClientEvent (E : Type 0) : Type 0 where
  -- the call of a listener of the key
  notify : Text → ℕ → Text → ClientEvent E
  throw_error : E → ClientEvent E
  -- `addListener` and `removeListener` of the proxy, sent
  add_listener : Text → Text → ClientEvent E
  remove_listener : Text → ClientEvent E
  proxy_closed : ClientEvent E

-- What a loop over a key's array goes through: the array that is registered, from an index on, or
-- what was left of the array when it was taken out of the map, which nobody changes any more.
pub data Walk : Type 0 where
  live : ℕ → Walk
  detached : List ℕ → Walk

pub record Loop : Type 0 where
  pub key : Text
  pub content : Text
  pub walk : Walk

pub record Client (E : Type 0) : Type 0 where
  pub closed : Bool
  -- `_grpcSubscribers`, none before the first subscription
  pub subscribers : Option (Dict (List ℕ))
  -- `_grpcFailoverState`
  pub failover_state : Dict ℕ
  pub heap : ℕ → FailoverState
  pub next : ℕ
  pub watching : Bool
  -- the operations of each key, the running one first
  pub tasks : Dict (List Pc)
  -- the loop of `_notifyGrpcListeners` that runs
  pub loop : Option Loop
  -- the last one first
  pub events : List (ClientEvent E)

abbrev pub lookup_listeners : Text → Option (Dict (List ℕ)) → List ℕ
lookup_listeners key none = []
lookup_listeners key (some d) = get_or_else [] (Dict.get key d)

abbrev pub is_same : ℕ → Option ℕ → Bool
is_same s none = false
is_same s (some i) = i == s

abbrev pub content_text : ConfigReadResult → Text
content_text r = get_or_else [] r.content

abbrev pub same_content : Option Text → Text → Bool
same_content none t = false
same_content (some u) t = text_eq u t

abbrev pub listen_md5 : (Text → Text) → Text → Text
listen_md5 md5 content = if is_empty content then [] else md5 content

abbrev pub is_server : ConfigContentSource → Bool
is_server failover = false
is_server server = true
is_server snapshot = false

abbrev pub same_version : Option ℕ → ℕ → Bool
same_version none t = false
same_version (some u) t = u == t

abbrev pub advance : Walk → Walk
advance (live i) = live (suc i)
advance (detached []) = detached []
advance (detached (l ∷ ls)) = detached ls

module _ {E : Type 0} where
  abbrev pub push : ClientEvent E → Client E → Client E
  push e c = record c { events = e ∷ c.events }

  -- an assignment to fields of the state object
  abbrev pub assign : ℕ → FailoverState → Client E → Client E
  assign s st c = record c { heap = λ i. if i == s then st else c.heap i }

  abbrev pub listeners : Text → Client E → List ℕ
  listeners key c = lookup_listeners key c.subscribers

  -- `_isGrpcStateActive`
  abbrev pub is_active : Text → ℕ → Client E → Bool
  is_active key s c = not c.closed && is_same s (Dict.get key c.failover_state)

  -- `_hasGrpcListener`
  abbrev pub is_listening : Text → ℕ → Client E → Bool
  is_listening key l c = has_listener l (listeners key c)

  -- `_notifyGrpcListeners` over the key's array: begin the loop
  unfoldable pub notify_listeners : Text → Text → Client E → Client E
  notify_listeners key content c = record c {
    loop = some (record { key = key; content = content; walk = live 0 });
  }

  -- the listener that a loop calls next
  unfoldable pub next_listener : Loop → Client E → Option ℕ
  next_listener lp c = elim lp.walk [
    | live i ↦ get_elem? (listeners lp.key c) i
    | detached [] ↦ none
    | detached (l ∷ ls) ↦ some l
  ]

  -- one round of the loop, or its end
  abbrev pub call_listener : Loop → Option ℕ → Client E → Client E
  call_listener lp none c = record c { loop = none }
  call_listener lp (some l) c =
      push (notify lp.key l lp.content)
        (record c { loop = some (record lp { walk = advance lp.walk }) })

  abbrev pub set_content : ℕ → Text → Client E → Client E
  set_content s content c = assign s (record (c.heap s) { content = some content }) c

  -- set `state.content` and call the key's listeners
  abbrev pub commit : Text → ℕ → Text → Client E → Client E
  commit key s content c = notify_listeners key content (set_content s content c)

  -- `if (content !== state.content) { … }`
  abbrev pub commit_changed : Text → ℕ → Text → Client E → Client E
  commit_changed key s content c =
      if same_content (c.heap s).content content then c else commit key s content c

  -- set `state.content` and call one listener
  abbrev pub commit_one : Text → ℕ → ℕ → Text → Client E → Client E
  commit_one key s l content c = push (notify key l content) (set_content s content c)

  abbrev pub enter_failover : ℕ → ℕ → Client E → Client E
  enter_failover s mtime c =
      assign s (record (c.heap s) { use_failover = true; failover_version = some mtime }) c

  abbrev pub leave_failover : ℕ → Client E → Client E
  leave_failover s c =
      assign s (record (c.heap s) { use_failover = false; failover_version = none }) c

  -- `catch (err) { state.listenerRegistered = false; }`
  abbrev pub after_add : ℕ → Bool → Client E → Client E
  after_add s true c = c
  after_add s false c = assign s (record (c.heap s) { listener_registered = false }) c

  abbrev pub is_current : Text → ℕ → ℕ → Client E → Bool
  is_current key s l c = is_active key s c && is_listening key l c

  abbrev pub init_content : Text → ℕ → ℕ → Text → Client E → Client E
  init_content key s l [] c = c
  init_content key s l (x ∷ xs) c = commit_one key s l (x ∷ xs) c

  abbrev pub init_file : Text → ℕ → ℕ → ℕ → Option Text → Client E → Client E
  init_file key s l mtime none c = c
  init_file key s l mtime (some file) c =
      let entered = enter_failover s mtime c in
      if same_content (c.heap s).content file then entered else commit_one key s l file entered

  abbrev pub changed_first : Text → Option ℕ → Client E → Option Pc × Client E
  changed_first key none c = (none, c)
  changed_first key (some s) c =
      if c.closed || (is_nil (listeners key c) || (c.heap s).use_failover)
      then (none, c)
      else (some (changed_fetched s), c)

  -- the retry of `addListener`
  abbrev pub retry : Text → ℕ → Option Text → Client E → Option Pc × Client E
  retry key s none c = (some (check_mtime s), c)
  retry key s (some m) c = (
    some (check_added s),
    push (add_listener key m) (assign s (record (c.heap s) { listener_registered = true }) c),
  )

  abbrev pub check_first : Text → Option ℕ → Client E → Option Pc × Client E
  check_first key none c = (none, c)
  check_first key (some s) c =
      if c.closed || is_nil (listeners key c)
      then (none, c)
      else (if (c.heap s).listener_registered
          then (some (check_mtime s), c)
          else retry key s (c.heap s).listener_md5 c)

module _ {E : Type 0} (md5 : Text → Text) where
  -- the end of `_initGrpcSubscription`: register with the server, once
  abbrev pub register : Text → ℕ → Text → Client E → Option Pc × Client E
  register key s content c = if (c.heap s).listener_registered then (none, c) else (
    some (init_added s),
    push (add_listener key (listen_md5 md5 content)) (
        assign s
          (record (c.heap s) {
            listener_md5 = some (listen_md5 md5 content);
            listener_registered = true;
          })
          c),
  )

  -- one run of the key's operation, from where it stands to the next `await` or the end
  unfoldable pub resume : Text → (pc : Pc) → Answer E pc → Client E → Option Pc × Client E
  resume key (init_start s l) a c =
      if is_current key s l c then (some (init_fetched s l), c) else (none, c)
  resume key (init_fetched s l) (err e) c = (none, push (throw_error e) c)
  resume key (init_fetched s l) (ok r) c =
      if is_current key s l c
      then (some (init_mtime s l (content_text r)), init_content key s l (content_text r) c)
      else (none, c)
  resume key (init_mtime s l content) none c =
      if is_current key s l c then register key s content c else (none, c)
  resume key (init_mtime s l content) (some mtime) c =
      if is_current key s l c then (some (init_read s l content mtime), c) else (none, c)
  resume key (init_read s l content mtime) file c =
      if is_current key s l c
      then (some (init_register s content), init_file key s l mtime file c)
      else (none, c)
  resume key (init_register s content) a c = register key s content c
  resume key (init_added s) added c = (none, after_add s added c)
  resume key changed_start a c = changed_first key (Dict.get key c.failover_state) c
  resume key (changed_fetched s) (err e) c = (none, push (throw_error e) c)
  resume key (changed_fetched s) (ok r) c =
      if is_active key s c && (not (c.heap s).use_failover && not (is_nil (listeners key c)))
      then (none, commit key s (content_text r) c)
      else (none, c)
  resume key check_start a c = check_first key (Dict.get key c.failover_state) c
  resume key (check_added s) added c = (some (check_mtime s), after_add s added c)
  resume key (check_mtime s) none c =
      if is_active key s c && (c.heap s).use_failover
      then (some (check_recover s), c)
      else (none, c)
  resume key (check_mtime s) (some mtime) c =
      if is_active key s c
        && (not (c.heap s).use_failover || not (same_version (c.heap s).failover_version mtime))
      then (some (check_read s mtime), c)
      else (none, c)
  resume key (check_recover s) (err e) c = (none, push (throw_error e) c)
  resume key (check_recover s) (ok r) c =
      if is_active key s c && is_server r.source
      then (none, commit_changed key s (content_text r) (leave_failover s c))
      else (none, c)
  resume key (check_read s mtime) none c = (none, c)
  resume key (check_read s mtime) (some file) c =
      if is_active key s c
      then (none, commit_changed key s file (enter_failover s mtime c))
      else (none, c)
  resume key remove_start a c = (some removing, push (remove_listener key) c)
  resume key removing a c = (none, c)
