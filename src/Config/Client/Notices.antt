-- ===== src/Config/Client/Notices.antt =====
-- Which listeners the operations of a gRPC client call.
use nacos_sdk_nodejs.Prelude.{
  ℕ, Bool, true, false, not, ◌&&◌, ◌||◌, ◌≡◌, refl, ◌⊎◌, inl, inr, Option, none, some, Text, ok,
  err, List, [], ◌∷◌, if◌then◌else◌, arith, Bool-cases,
}
use nacos_sdk_nodejs.Prelude.Dict
use nacos_sdk_nodejs.Prelude.Emitter.{is_nil}
use nacos_sdk_nodejs.Config.Client.{
  Pc, init_start, init_fetched, init_mtime, init_read, init_added, changed_start, changed_fetched,
  check_start, check_added, check_mtime, check_recover, check_read, remove_start, removing, Answer,
  ClientEvent, notify, throw_error, add_listener, remove_listener, proxy_closed, Client,
  content_text, same_content, is_server, listeners, is_active, is_listening, notify_listeners,
  commit_one, commit_changed, Walk, live, detached, init_register, enter_failover, leave_failover,
  register, after_add, is_current, init_content, changed_first, check_first, retry, resume,
}

abbrev pub is_notice : {E : Type 0} → ClientEvent E → Bool
is_notice (notify k l t) = true
is_notice (throw_error e) = false
is_notice (add_listener k m) = false
is_notice (remove_listener k) = false
is_notice proxy_closed = false

-- Events on top of `base` whose notices all satisfy `P`.
pub data Told {E : Type 0} (P : Text → ℕ → Type 0) (base : List (ClientEvent E))
    : List (ClientEvent E) → Type 0 where
  start : Told P base base
  told :
      {k : Text} {l : ℕ} {es : List (ClientEvent E)} (t : Text)
      → P k l
      → Told P base es
      → Told P base (notify k l t ∷ es)
  other :
      {e : ClientEvent E} {es : List (ClientEvent E)}
      → is_notice e ≡ false
      → Told P base es
      → Told P base (e ∷ es)

-- The listener is registered for the key, and the client is open.
abbrev pub Subscribed : {E : Type 0} → Client E → Text → ℕ → Type 0
Subscribed c k l = (c.closed ≡ false) × (is_listening k l c ≡ true)

-- whether a loop goes through an array that was taken out of the map
abbrev pub is_detached : Walk → Bool
is_detached (live i) = false
is_detached (detached ls) = true

-- From one client to another, every listener called is registered in the first, which is open, and
-- a loop begins only if it is.
pub record Heard {E : Type 0} (b d : Client E) : Type 0 where
  pub heard : Told (Subscribed b) b.events d.events
  pub begins : (d.loop ≡ b.loop) ⊎ (b.closed ≡ false)

module _ {E : Type 0} {b : Client E} where
  if-Heard :
      (v : Bool) (x y : Option Pc × Client E)
      → (v ≡ true → Heard b x.1)
      → Heard b y.1
      → Heard b (if v then x else y).1
  if-Heard true x y f g = f refl
  if-Heard false x y f g = g

  commit_changed-Heard :
      (key : Text) (s : ℕ) (t : Text) (c : Client E)
      → b.closed ≡ false
      → Heard b c
      → Heard b (commit_changed key s t c)
  unfolding notify_listeners
  commit_changed-Heard key s t c q h = elim (Bool-cases (same_content (c.heap s).content t)) [
    | inl e ↦ rw e h
    | inr e ↦ rw e (record { heard = h.heard; begins = inr q })
  ]

  commit_one-Heard :
      (key : Text) (s l : ℕ) (t : Text) (c : Client E)
      → Subscribed b key l
      → Heard b c
      → Heard b (commit_one key s l t c)
  commit_one-Heard key s l t c p h = record { heard = told t p h.heard; begins = h.begins }

  after_add-Heard : (s : ℕ) (v : Bool) (c : Client E) → Heard b c → Heard b (after_add s v c)
  after_add-Heard s true c h = h
  after_add-Heard s false c h = record { heard = h.heard; begins = h.begins }

  register-Heard :
      (md5 : Text → Text) (key : Text) (s : ℕ) (t : Text) (c : Client E)
      → Heard b c
      → Heard b (register md5 key s t c).1
  register-Heard md5 key s t c h =
      if-Heard (c.heap s).listener_registered _ _ (λ e. h)
        (record { heard = other refl h.heard; begins = h.begins })

  changed_first-Heard :
      (key : Text) (i : Option ℕ) (c : Client E) → Heard b c → Heard b (changed_first key i c).1
  changed_first-Heard key none c h = h
  changed_first-Heard key (some s) c h = if-Heard _ _ _ (λ e. h) h

  retry-Heard :
      (key : Text) (s : ℕ) (m : Option Text) (c : Client E)
      → Heard b c
      → Heard b (retry key s m c).1
  retry-Heard key s none c h = h
  retry-Heard key s (some m) c h = (record { heard = other refl h.heard; begins = h.begins })

  check_first-Heard :
      (key : Text) (i : Option ℕ) (c : Client E) → Heard b c → Heard b (check_first key i c).1
  check_first-Heard key none c h = h
  check_first-Heard key (some s) c h =
      let retried = retry key s (c.heap s).listener_md5 c in
      let registered = (c.heap s).listener_registered in
      if-Heard (c.closed || is_nil (listeners key c)) (none, c)
        (if registered then (some (check_mtime s), c) else retried) (λ e. h)
        (if-Heard registered (some (check_mtime s), c) retried (λ e. h)
          (retry-Heard key s (c.heap s).listener_md5 c h))

still : {E : Type 0} (c : Client E) → Heard c c
still c = record { heard = start; begins = inl refl }

is_active-open :
    {E : Type 0} (key : Text) (s : ℕ) (c : Client E) → is_active key s c ≡ true → c.closed ≡ false
is_active-open key s c h = ground arith

only :
    {E : Type 0} (key : Text) (l : ℕ) (c : Client E) (s : ℕ)
    → is_current key s l c ≡ true
    → Subscribed c key l
only key l c s h = (ground arith, ground arith)

open_of :
    {E : Type 0} (key : Text) (c : Client E) (s : ℕ) (b : Bool)
    → (is_active key s c && b) ≡ true
    → c.closed ≡ false
open_of key c s b h = ground arith

-- The run of an operation itself calls at most a listener that is registered, in an open client, and
-- begins a loop only in an open client.
pub resume-Heard :
    {E : Type 0} (md5 : Text → Text) (key : Text) (pc : Pc) (a : Answer E pc) (c : Client E)
    → Heard c (resume md5 key pc a c).1
unfolding resume notify_listeners
resume-Heard md5 key (init_start s l) a c = if-Heard _ _ _ (λ e. (still c)) (still c)
resume-Heard md5 key (init_fetched s l) (err e) c = record {
  heard = other refl start;
  begins = inl refl;
}
resume-Heard md5 key (init_fetched s l) (ok r) c =
    if-Heard (is_current key s l c) _ _
      (λ e. init_content-Heard (content_text r) (only key l c s e)) (still c)
  where
    init_content-Heard : (t : Text) → Subscribed c key l → Heard c (init_content key s l t c)
    init_content-Heard [] p = still c
    init_content-Heard (x ∷ xs) p = commit_one-Heard key s l (x ∷ xs) c p (still c)
resume-Heard md5 key (init_mtime s l t) none c =
    if-Heard (is_current key s l c) _ _ (λ e. register-Heard md5 key s t c (still c)) (still c)
resume-Heard md5 key (init_mtime s l t) (some mtime) c = if-Heard _ _ _ (λ e. (still c)) (still c)
resume-Heard md5 key (init_read s l t mtime) none c =
    if-Heard (is_current key s l c) _ _ (λ e. (still c)) (still c)
resume-Heard md5 key (init_read s l t mtime) (some file) c =
    if-Heard (is_current key s l c) _ _
      (λ e. elim (Bool-cases (same_content (c.heap s).content file)) [
        | inl q ↦ rw q (record { heard = start; begins = inl refl })
        | inr q ↦ rw q (
            commit_one-Heard key s l file (enter_failover s mtime c) (only key l c s e)
              (record { heard = start; begins = inl refl }))
      ])
      (still c)
resume-Heard md5 key (init_register s t) a c = register-Heard md5 key s t c (still c)
resume-Heard md5 key (init_added s) added c = after_add-Heard s added c (still c)
resume-Heard md5 key changed_start a c =
    changed_first-Heard key (Dict.get key c.failover_state) c (still c)
resume-Heard md5 key (changed_fetched s) (err e) c = record {
  heard = other refl start;
  begins = inl refl;
}
resume-Heard md5 key (changed_fetched s) (ok r) c =
    if-Heard (is_active key s c && (not (c.heap s).use_failover && not (is_nil (listeners key c))))
      _ _ (λ e. record { heard = start; begins = inr (open_of key c s _ e) }) (still c)
resume-Heard md5 key check_start a c =
    check_first-Heard key (Dict.get key c.failover_state) c (still c)
resume-Heard md5 key (check_added s) added c = after_add-Heard s added c (still c)
resume-Heard md5 key (check_mtime s) none c = if-Heard _ _ _ (λ e. (still c)) (still c)
resume-Heard md5 key (check_mtime s) (some mtime) c = if-Heard _ _ _ (λ e. (still c)) (still c)
resume-Heard md5 key (check_recover s) (err e) c = record {
  heard = other refl start;
  begins = inl refl;
}
resume-Heard md5 key (check_recover s) (ok r) c =
    if-Heard (is_active key s c && is_server r.source) _ _
      (λ e.
        commit_changed-Heard key s (content_text r) (leave_failover s c) (open_of key c s _ e)
          (record { heard = start; begins = inl refl }))
      (still c)
resume-Heard md5 key (check_read s mtime) none c = still c
resume-Heard md5 key (check_read s mtime) (some file) c =
    if-Heard (is_active key s c) _ _
      (λ e.
        commit_changed-Heard key s file (enter_failover s mtime c) (is_active-open key s c e)
          (record { heard = start; begins = inl refl }))
      (still c)
resume-Heard md5 key remove_start a c = record { heard = other refl start; begins = inl refl }
resume-Heard md5 key removing a c = still c
