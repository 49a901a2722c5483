-- ===== src/Config/Client/Files.antt =====
-- Failover files, pushes and the registration of a gRPC subscription.
use nacos_sdk_nodejs.Prelude.{
  ℕ, Bool, true, false, not, ◌&&◌, ◌||◌, ◌≡◌, refl, ap, ◌∙◌, inl, inr, none, some, Text, ok, err,
  List, [], ◌∷◌, Outcome, if◌then◌else◌, ◌==◌, arith, Bool-cases, is_empty,
}
use nacos_sdk_nodejs.Prelude.Dict
use nacos_sdk_nodejs.Prelude.Emitter.{is_nil}
use nacos_sdk_nodejs.Config.Recovery.{ConfigReadResult}
use nacos_sdk_nodejs.Config.Client.{
  FailoverState, init_mtime, init_added, changed_start, changed_fetched, check_recover, ClientEvent,
  throw_error, add_listener, Client, content_text, same_content, is_server, assign, listeners,
  is_active, notify_listeners, commit, commit_changed, leave_failover, register, after_add,
  is_current, resume,
}

-- the error that an awaited read ended with, on top of other events
abbrev pub reported : {E A : Type 0} → Outcome E A → List (ClientEvent E) → List (ClientEvent E)
reported (ok a) es = es
reported (err e) es = throw_error e ∷ es

if-true {ℓ} : {A : Type ℓ} (b : Bool) (x y : A) → b ≡ true → (if b then x else y) ≡ x
if-true b x y e = rw e refl

if-false {ℓ} : {A : Type ℓ} (b : Bool) (x y : A) → b ≡ false → (if b then x else y) ≡ y
if-false b x y e = rw e refl

module _ {E : Type 0} where
  assigned : (s : ℕ) (st : FailoverState) (c : Client E) → (assign s st c).heap s ≡ st
  assigned s st c = if-true (s == s) st (c.heap s) (ground arith)

  after_add-failed :
      (s : ℕ) (c : Client E) → ((after_add s false c).heap s).listener_registered ≡ false
  after_add-failed s c =
      ap (λ st. st.listener_registered)
        (assigned s (record (c.heap s) { listener_registered = false }) c)

  -- The calls of listeners leave the mode of the subscription.
  commit_changed-mode :
      (key : Text) (s : ℕ) (t : Text) (c : Client E)
      → ((commit_changed key s t c).heap s).use_failover ≡ (c.heap s).use_failover
  unfolding notify_listeners
  commit_changed-mode key s t c = elim (Bool-cases (same_content (c.heap s).content t)) [
    | inl e ↦ rw e refl
    | inr e ↦
        rw e (ap (λ st. st.use_failover) (assigned s (record (c.heap s) { content = some t }) c))
  ]

module _ {E : Type 0} (md5 : Text → Text) where
  -- While the key follows a failover file, a push of the server neither starts a read nor, where the
  -- read was under way, changes anything: at most its error is reported.
  push_ignored_in_failover :
      (key : Text) (s : ℕ) (r : Outcome E ConfigReadResult) (c : Client E)
      → Dict.get key c.failover_state ≡ some s
      → (c.heap s).use_failover ≡ true
      → (resume md5 key changed_start tt c ≡ (none, c))
        × (resume md5 key (changed_fetched s) r c
            ≡ (none, record c { events = reported r c.events }))
  unfolding resume
  push_ignored_in_failover key s (err x) c g u = (
    rw g (
        if-true (c.closed || (is_nil (listeners key c) || (c.heap s).use_failover)) (none, c)
          (some (changed_fetched s), c) (ground arith)),
    refl,
  )
  push_ignored_in_failover key s (ok r) c g u = (
    rw g (
        if-true (c.closed || (is_nil (listeners key c) || (c.heap s).use_failover)) (none, c)
          (some (changed_fetched s), c) (ground arith)),
    if-false (is_active key s c && (not (c.heap s).use_failover && not (is_nil (listeners key c))))
        (none, commit key s (content_text r) c) (none, c) (ground arith),
  )

  -- The first read of an open subscription without a failover file ends in one registration, with
  -- the hash of the content that was read, or the empty text if it is empty; it fails without
  -- leaving the subscription registered, so that a later check tries again.
  first_read_registers :
      (key : Text) (s l : ℕ) (content : Text) (c : Client E)
      → is_current key s l c ≡ true
      → (c.heap s).listener_registered ≡ false
      → ((resume md5 key (init_mtime s l content) none c).0 ≡ some (init_added s))
        × ((resume md5 key (init_mtime s l content) none c).1.events
            ≡ add_listener key (if is_empty content then [] else md5 content) ∷ c.events)
        × ((((resume md5 key
                  (init_added s)
                  false
                  (resume md5 key (init_mtime s l content) none c).1).1
                ).heap
              s).listener_registered
            ≡ false)
  unfolding resume
  first_read_registers key s l content c e u =
      let done =
        if-true (is_current key s l c) (register md5 key s content c) (none, c) e
        ∙ if-false _ _ _ u in
      (
        ap (λ x. x.0) done,
        ap (λ x. x.1.events) done,
        after_add-failed s (resume md5 key (init_mtime s l content) none c).1,
      )

  -- Back from a failover file, a subscription leaves the file's content only for an answer of the
  -- server; with any other source it changes nothing, and its next check tries again.
  recovers_from_server :
      (key : Text) (s : ℕ) (r : ConfigReadResult) (c : Client E)
      → is_active key s c ≡ true
      → ((((resume md5 key (check_recover s) (ok r) c).1).heap s).use_failover
          ≡ (if is_server r.source then false else (c.heap s).use_failover))
        × (is_server r.source ≡ false → (resume md5 key (check_recover s) (ok r) c) ≡ (none, c))
  unfolding resume
  recovers_from_server key s r c e = elim (Bool-cases (is_server r.source)) [
    | inl v ↦ (
      rw (e, v)
          (commit_changed-mode key s (content_text r) (leave_failover s c)
            ∙ ap (λ st. st.use_failover) (assigned s _ c)),
      λ w. absurd cc,
    )
    | inr v ↦ (rw (e, v) refl, λ w. rw (e, v) refl)
  ]
