-- ===== src/Config/Client/Lifecycle.antt =====
-- The life of a subscription over gRPC: a forgotten state object does not come back.
use nacos_sdk_nodejs.Prelude.{
  ℕ, ◌<◌, Bool, true, false, ◌≡◌, refl, ◌∙◌, Option, none, some, Text, List, [], ◌∷◌, if◌then◌else◌,
  arith,
}
use nacos_sdk_nodejs.Prelude.Dict
use nacos_sdk_nodejs.Prelude.Dict.{Dict, get-set, get-delete}
use nacos_sdk_nodejs.Config.Client.{
  Client, Loop, call_listener, next_listener, Pc, is_active, resume, init_start, changed_start,
  check_start,
}
use nacos_sdk_nodejs.Config.Client.Operations.{
  Step, subscribes, un_subscribes, closes, pushed, checks, runs, Steps, done, next, subscribe,
  un_subscribe, un_subscribe_from, after_removal, close, requeue, enqueue, drop_key, ensure_state,
  add_subscriber, calls,
}
use nacos_sdk_nodejs.Config.Client.Frame.{Same, resume-Same}

module _ {E : Type 0} where
  -- what a step does to a state object's registration
  pub record Moves (c d : Client E) : Type 0 where
    pub stays_closed : c.closed ≡ true → d.closed ≡ true
    pub grows : (s : ℕ) → s < c.next → s < d.next
    pub stays_inactive :
        (key : Text) (s : ℕ) → s < c.next → is_active key s c ≡ false → is_active key s d ≡ false

  enqueue-Moves : (k : Text) (pc : Pc) (c d : Client E) → Moves c d → Moves c (enqueue k pc d)
  unfolding enqueue
  enqueue-Moves k pc c d m = record {
    stays_closed = m.stays_closed;
    grows = m.grows;
    stays_inactive = m.stays_inactive;
  }

  still : (c : Client E) → Moves c c
  still c = record { stays_closed = λ h. h; grows = λ s h. h; stays_inactive = λ key s l h. h }

  if-Moves :
      (c : Client E) (b : Bool) (x y : Client E)
      → Moves c x
      → Moves c y
      → Moves c (if b then x else y)
  if-Moves c true x y f g = f
  if-Moves c false x y f g = g

  ensure-Moves :
      (k : Text) (l : ℕ) (c : Client E) (o : Option ℕ)
      → Dict.get k c.failover_state ≡ o
      → Moves c (ensure_state k o (add_subscriber k l c)).1
  unfolding ensure_state add_subscriber
  ensure-Moves k l c (some i) e = record {
    stays_closed = λ h. h;
    grows = λ s h. h;
    stays_inactive = λ key s l h. h;
  }
  ensure-Moves k l c none e = record {
    stays_closed = λ h. h;
    grows = λ s h. omega arith;
    stays_inactive = λ key s l h. ground (arith, get-set k key c.next c.failover_state);
  }

  subscribe-Moves : (k : Text) (l : ℕ) (c : Client E) → Moves c (subscribe k l c)
  unfolding subscribe
  subscribe-Moves k l c =
      if-Moves c c.closed _ _ (still c)
        (enqueue-Moves k (init_start _ l) c _ (ensure-Moves k l c _ refl))

  drop_key-Moves :
      (k : Text) (xs : List ℕ) (d : Dict (List ℕ)) (c : Client E) → Moves c (drop_key k xs d c)
  unfolding drop_key enqueue
  drop_key-Moves k xs d c = record {
    stays_closed = λ h. h;
    grows = λ s h. h;
    stays_inactive = λ key s l h. ground (arith, get-delete k key c.failover_state);
  }

  after_removal-Moves :
      (k : Text) (d : Dict (List ℕ)) (ls : List ℕ) (c : Client E) → Moves c (after_removal k d ls c)
  after_removal-Moves k d [] c = drop_key-Moves k [] d c
  after_removal-Moves k d (l ∷ ls) c = record {
    stays_closed = λ h. h;
    grows = λ s h. h;
    stays_inactive = λ key s l h. h;
  }

  un_subscribe-Moves :
      (k : Text) (l : Option ℕ) (o : Option (Dict (List ℕ))) (c : Client E)
      → Moves c (un_subscribe_from k l o c)
  un_subscribe-Moves k l none c = record {
    stays_closed = λ h. h;
    grows = λ s h. h;
    stays_inactive = λ key s l h. h;
  }
  un_subscribe-Moves k none (some d) c = drop_key-Moves k _ d c
  un_subscribe-Moves k (some l) (some d) c = after_removal-Moves k d _ c

  close-Moves : (c : Client E) → Moves c (close c)
  unfolding close
  close-Moves c = record {
    stays_closed = λ h. ground arith;
    grows = λ s h. ground arith;
    stays_inactive = λ key s l h. ground arith;
  }

  requeue-Moves :
      (key : Text) (rest : List Pc) (c : Client E) (x : Option Pc × Client E)
      → Same c x.1
      → Moves c (requeue key rest x)
  requeue-Moves key rest c (none, d) h = record {
    stays_closed = λ e. h.closed ∙ e;
    grows = λ s l. rw h.next l;
    stays_inactive = λ k s l e. rw (h.closed, h.failover_state) e;
  }
  requeue-Moves key rest c (some pc, d) h = record {
    stays_closed = λ e. h.closed ∙ e;
    grows = λ s l. rw h.next l;
    stays_inactive = λ k s l e. rw (h.closed, h.failover_state) e;
  }

  call-Moves : (lp : Loop) (n : Option ℕ) (c : Client E) → Moves c (call_listener lp n c)
  call-Moves lp none c = record {
    stays_closed = λ h. h;
    grows = λ s h. h;
    stays_inactive = λ key s l h. h;
  }
  call-Moves lp (some l) c = record {
    stays_closed = λ h. h;
    grows = λ s h. h;
    stays_inactive = λ key s l h. h;
  }

  pub Step-Moves : {md5 : Text → Text} {c d : Client E} → Step md5 c d → Moves c d
  unfolding un_subscribe
  Step-Moves (subscribes k l c) = subscribe-Moves k l c
  Step-Moves (un_subscribes k l c) = un_subscribe-Moves k l c.subscribers c
  Step-Moves (closes c) = close-Moves c
  Step-Moves (pushed k c) = enqueue-Moves k changed_start c c (still c)
  Step-Moves (checks k c) = enqueue-Moves k check_start c c (still c)
  Step-Moves {md5} (runs k pc rest a c n e) =
      requeue-Moves k rest c (resume md5 k pc a c) (resume-Same md5 k pc a c)
  Step-Moves (calls lp c e) = call-Moves lp (next_listener lp c) c

  -- A state object that is not the registered one of an open client never is again, whatever is
  -- subscribed, unsubscribed, pushed or run afterwards.
  pub inactive_for_good :
      {md5 : Text → Text} {c d : Client E} (key : Text) (s : ℕ)
      → Steps md5 c d
      → s < c.next
      → is_active key s c ≡ false
      → is_active key s d ≡ false
  inactive_for_good key s done l e = e
  inactive_for_good key s (next x xs) l e =
      let m = Step-Moves x in inactive_for_good key s xs (m.grows s l) (m.stays_inactive key s l e)
