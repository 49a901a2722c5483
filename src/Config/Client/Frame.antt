-- ===== src/Config/Client/Frame.antt =====
-- What the operations of a key's queue leave alone.
use nacos_sdk_nodejs.Prelude.{
  ℕ, Bool, true, false, ◌||◌, ◌≡◌, refl, inl, inr, Option, none, some, Text, ok, err, [], ◌∷◌,
  if◌then◌else◌, Bool-cases,
}
use nacos_sdk_nodejs.Prelude.Dict
use nacos_sdk_nodejs.Prelude.Emitter.{is_nil}
use nacos_sdk_nodejs.Config.Client.{
  FailoverState, Pc, init_start, init_fetched, init_mtime, init_read, init_register, init_added,
  changed_start, changed_fetched, check_start, check_added, check_mtime, check_recover, check_read,
  remove_start, removing, Answer, ClientEvent, notify, throw_error, add_listener, remove_listener,
  Client, content_text, same_content, listen_md5, push, assign, listeners, notify_listeners, commit,
  commit_one, commit_changed, enter_failover, leave_failover, register, after_add, init_content,
  init_file, changed_first, check_first, retry, resume,
}

-- The subscriptions, the registered state objects and whether the client is closed.
pub record Same {E : Type 0} (c d : Client E) : Type 0 where
  pub closed : d.closed ≡ c.closed
  pub subscribers : d.subscribers ≡ c.subscribers
  pub failover_state : d.failover_state ≡ c.failover_state
  pub next : d.next ≡ c.next
  pub tasks : d.tasks ≡ c.tasks

module _ {E : Type 0} where
  same : (c : Client E) → Same c c
  same c = record {
    closed = refl;
    subscribers = refl;
    failover_state = refl;
    next = refl;
    tasks = refl;
  }

  if-Same :
      {c : Client E} (b : Bool) (x y : Option Pc × Client E)
      → Same c x.1
      → Same c y.1
      → Same c (if b then x else y).1
  if-Same true x y f g = f
  if-Same false x y f g = g

  assign-Same : (c d : Client E) (s : ℕ) (st : FailoverState) → Same c d → Same c (assign s st d)
  assign-Same c d s st h = record {
    closed = h.closed;
    subscribers = h.subscribers;
    failover_state = h.failover_state;
    next = h.next;
    tasks = h.tasks;
  }

  push-Same : (c d : Client E) (e : ClientEvent E) → Same c d → Same c (push e d)
  push-Same c d e h = record {
    closed = h.closed;
    subscribers = h.subscribers;
    failover_state = h.failover_state;
    next = h.next;
    tasks = h.tasks;
  }

  commit-Same :
      (c : Client E) (key : Text) (s : ℕ) (t : Text) (d : Client E)
      → Same c d
      → Same c (commit key s t d)
  unfolding notify_listeners
  commit-Same c key s t d h = record {
    closed = h.closed;
    subscribers = h.subscribers;
    failover_state = h.failover_state;
    next = h.next;
    tasks = h.tasks;
  }

  commit_changed-Same :
      (c : Client E) (key : Text) (s : ℕ) (t : Text) (d : Client E)
      → Same c d
      → Same c (commit_changed key s t d)
  commit_changed-Same c key s t d h = elim (Bool-cases (same_content (d.heap s).content t)) [
    | inl e ↦ rw e h
    | inr e ↦ rw e (commit-Same c key s t d h)
  ]

  commit_one-Same :
      (c : Client E) (key : Text) (s l : ℕ) (t : Text) (d : Client E)
      → Same c d
      → Same c (commit_one key s l t d)
  commit_one-Same c key s l t d h =
      push-Same c _ (notify key l t) (assign-Same c d s (record (d.heap s) { content = some t }) h)

  after_add-Same : (c : Client E) (s : ℕ) (b : Bool) → Same c (after_add s b c)
  after_add-Same c s true = same c
  after_add-Same c s false =
      assign-Same c c s (record (c.heap s) { listener_registered = false }) (same c)

  register-Same :
      (md5 : Text → Text) (c : Client E) (key : Text) (s : ℕ) (t : Text) (d : Client E)
      → Same c d
      → Same c (register md5 key s t d).1
  register-Same md5 c key s t d h = if-Same (d.heap s).listener_registered _ _ h (
      push-Same c _ (add_listener key (listen_md5 md5 t)) (
        assign-Same c d s
          (record (d.heap s) { listener_md5 = some (listen_md5 md5 t); listener_registered = true })
          h))

  init_content-Same :
      (c : Client E) (key : Text) (s l : ℕ) (t : Text) → Same c (init_content key s l t c)
  init_content-Same c key s l [] = same c
  init_content-Same c key s l (x ∷ xs) = commit_one-Same c key s l (x ∷ xs) c (same c)

  init_file-Same :
      (c : Client E) (key : Text) (s l mtime : ℕ) (file : Option Text)
      → Same c (init_file key s l mtime file c)
  init_file-Same c key s l mtime none = same c
  init_file-Same c key s l mtime (some file) =
      let st = record (c.heap s) { use_failover = true; failover_version = some mtime } in
      let h = assign-Same c c s st (same c) in
      elim (Bool-cases (same_content (c.heap s).content file)) [
        | inl e ↦ rw e h
        | inr e ↦ rw e (commit_one-Same c key s l file (enter_failover s mtime c) h)
      ]

  changed_first-Same : (c : Client E) (key : Text) (o : Option ℕ) → Same c (changed_first key o c).1
  changed_first-Same c key none = same c
  changed_first-Same c key (some s) = if-Same _ _ _ (same c) (same c)

  retry-Same : (c : Client E) (key : Text) (s : ℕ) (o : Option Text) → Same c (retry key s o c).1
  retry-Same c key s none = same c
  retry-Same c key s (some m) =
      push-Same c _ (add_listener key m)
        (assign-Same c c s (record (c.heap s) { listener_registered = true }) (same c))

  check_first-Same : (c : Client E) (key : Text) (o : Option ℕ) → Same c (check_first key o c).1
  check_first-Same c key none = same c
  check_first-Same c key (some s) =
      let retried = retry key s (c.heap s).listener_md5 c in
      let registered = (c.heap s).listener_registered in
      if-Same (c.closed || is_nil (listeners key c)) (none, c)
        (if registered then (some (check_mtime s), c) else retried) (same c)
        (if-Same registered (some (check_mtime s), c) retried (same c)
          (retry-Same c key s (c.heap s).listener_md5))

  -- No operation of a queue subscribes, unsubscribes, closes or replaces a state object.
  pub resume-Same :
      (md5 : Text → Text) (key : Text) (pc : Pc) (a : Answer E pc) (c : Client E)
      → Same c (resume md5 key pc a c).1
  unfolding resume
  resume-Same md5 key (init_start s l) a c = if-Same _ _ _ (same c) (same c)
  resume-Same md5 key (init_fetched s l) (err e) c = push-Same c c (throw_error e) (same c)
  resume-Same md5 key (init_fetched s l) (ok r) c =
      if-Same _ _ _ (init_content-Same c key s l (content_text r)) (same c)
  resume-Same md5 key (init_mtime s l t) none c =
      if-Same _ _ _ (register-Same md5 c key s t c (same c)) (same c)
  resume-Same md5 key (init_mtime s l t) (some mtime) c = if-Same _ _ _ (same c) (same c)
  resume-Same md5 key (init_read s l t mtime) file c =
      if-Same _ _ _ (init_file-Same c key s l mtime file) (same c)
  resume-Same md5 key (init_register s t) a c = register-Same md5 c key s t c (same c)
  resume-Same md5 key (init_added s) added c = after_add-Same c s added
  resume-Same md5 key changed_start a c = changed_first-Same c key (Dict.get key c.failover_state)
  resume-Same md5 key (changed_fetched s) (err e) c = push-Same c c (throw_error e) (same c)
  resume-Same md5 key (changed_fetched s) (ok r) c =
      if-Same _ _ _ (commit-Same c key s (content_text r) c (same c)) (same c)
  resume-Same md5 key check_start a c = check_first-Same c key (Dict.get key c.failover_state)
  resume-Same md5 key (check_added s) added c = after_add-Same c s added
  resume-Same md5 key (check_mtime s) none c = if-Same _ _ _ (same c) (same c)
  resume-Same md5 key (check_mtime s) (some mtime) c = if-Same _ _ _ (same c) (same c)
  resume-Same md5 key (check_recover s) (err e) c = push-Same c c (throw_error e) (same c)
  resume-Same md5 key (check_recover s) (ok r) c =
      if-Same _ _ _
        (commit_changed-Same c key s (content_text r) (leave_failover s c) (
          assign-Same c c s (record (c.heap s) { use_failover = false; failover_version = none })
            (same c)))
        (same c)
  resume-Same md5 key (check_read s mtime) none c = same c
  resume-Same md5 key (check_read s mtime) (some file) c =
      if-Same _ _ _
        (commit_changed-Same c key s file (enter_failover s mtime c) (
          assign-Same c c s
            (record (c.heap s) { use_failover = true; failover_version = some mtime }) (same c)))
        (same c)
  resume-Same md5 key remove_start a c = push-Same c c (remove_listener key) (same c)
  resume-Same md5 key removing a c = same c
