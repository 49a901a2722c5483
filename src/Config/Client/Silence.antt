-- ===== src/Config/Client/Silence.antt =====
-- The calls of listeners over whole runs of a gRPC client, with what a listener does in its callback.
use nacos_sdk_nodejs.Prelude.{
  ℕ, zero, suc, Bool, true, false, not, ◌≡◌, refl, subst, sym, ◌∙◌, ap, ◌⊎◌, inl, inr, Option, none,
  some, Text, List, [], ◌∷◌, if◌then◌else◌, get_or_else, arith, get_elem?,
}
use nacos_sdk_nodejs.Prelude.Dict
use nacos_sdk_nodejs.Prelude.Dict.{Dict}
use nacos_sdk_nodejs.Prelude.Emitter.{has_listener}
use nacos_sdk_nodejs.Config.Client.{
  Client, ClientEvent, Pc, resume, Loop, Walk, live, detached, next_listener, call_listener,
  listeners, init_start, changed_start, check_start,
}
use nacos_sdk_nodejs.Config.Client.Operations.{
  Step, subscribes, un_subscribes, closes, pushed, checks, runs, calls, Steps, done, next,
  subscribe, un_subscribe, un_subscribe_from, remove_first, after_removal, close, requeue, enqueue,
  drop_key, ensure_state, add_subscriber, detach_if, detach_all,
}
use nacos_sdk_nodejs.Config.Client.Frame.{resume-Same}
use nacos_sdk_nodejs.Config.Client.Lifecycle.{Step-Moves}
use nacos_sdk_nodejs.Config.Client.Notices.{
  Told, start, told, other, Subscribed, Heard, is_detached, resume-Heard,
}

abbrev pub Never : Text → ℕ → Type 0
Never k l = true ≡ false

-- whether a loop runs through a registered array, or through one that was taken out of the map
abbrev pub is_live_loop : Option Loop → Bool
is_live_loop none = false
is_live_loop (some lp) = not (is_detached lp.walk)

abbrev pub is_detached_loop : Option Loop → Bool
is_detached_loop none = false
is_detached_loop (some lp) = is_detached lp.walk

-- an element of a list is among it
has-get_elem? : (ls : List ℕ) (i l : ℕ) → get_elem? ls i ≡ some l → has_listener l ls ≡ true
unfolding has_listener
has-get_elem? [] i l h = absurd cc
has-get_elem? (x ∷ xs) zero l h = ground (arith, h)
has-get_elem? (x ∷ xs) (suc i) l h = ground (arith, has-get_elem? xs i l h)

-- A loop that is live after its key was dropped was live before.
live_before :
    (k : Text) (xs : List ℕ) (o : Option Loop)
    → is_live_loop (detach_if k xs o) ≡ true
    → is_live_loop o ≡ true
live_before k xs none h = h
live_before k xs (some lp) h = ground (arith, h)

none_after : (k : Text) (xs : List ℕ) (o : Option Loop) → o ≡ none → detach_if k xs o ≡ none
none_after k xs none h = refl
none_after k xs (some lp) h = absurd cc

true-ne : true ≡ false → ⊥
true-ne h = cc

module _ {E : Type 0} where
  -- A loop through a registered array runs in an open client only.
  abbrev pub Sound : Client E → Type 0
  Sound c = is_live_loop c.loop ≡ true → c.closed ≡ false

  -- what a step makes of the loop
  record Turns (c d : Client E) : Type 0 where
    keeps : Sound c → Sound d
    stays : c.closed ≡ true → c.loop ≡ none → d.loop ≡ none
    heard : Sound c → is_detached_loop c.loop ≡ false → Told (Subscribed c) c.events d.events

  Told-map :
      {P Q : Text → ℕ → Type 0} {base es : List (ClientEvent E)}
      → ((k : Text) (l : ℕ) → P k l → Q k l)
      → Told P base es
      → Told Q base es
  Told-map f start = start
  Told-map f (told {k} {l} t p h) = told t (f k l p) (Told-map f h)
  Told-map f (other q h) = other q (Told-map f h)

  Told-append :
      {P : Text → ℕ → Type 0} {a b es : List (ClientEvent E)}
      → Told P a b
      → Told P b es
      → Told P a es
  Told-append f start = f
  Told-append f (told t p h) = told t p (Told-append f h)
  Told-append f (other q h) = other q (Told-append f h)

  -- a step that leaves the loop, and calls no listener
  same_loop :
      (c d : Client E)
      → d.loop ≡ c.loop
      → d.closed ≡ c.closed
      → Told (Subscribed c) c.events d.events
      → Turns c d
  same_loop c d e f t = record {
    keeps = λ s h. f ∙ s (ap is_live_loop (sym e) ∙ h);
    stays = λ h n. e ∙ n;
    heard = λ s h. t;
  }

  enqueue-Turns : (k : Text) (pc : Pc) (c : Client E) → Turns c (enqueue k pc c)
  unfolding enqueue
  enqueue-Turns k pc c = same_loop c _ refl refl start

  added-Turns :
      (k : Text) (l : ℕ) (pc : ℕ → Pc) (c : Client E) (o : Option ℕ)
      → let x = ensure_state k o (add_subscriber k l c) in Turns c (enqueue k (pc x.0) x.1)
  unfolding ensure_state add_subscriber enqueue
  added-Turns k l pc c none = same_loop c _ refl refl start
  added-Turns k l pc c (some s) = same_loop c _ refl refl start

  if-Turns :
      (c : Client E) (v : Bool) (x y : Client E)
      → Turns c x
      → (v ≡ false → Turns c y)
      → Turns c (if v then x else y)
  if-Turns c true x y f g = f
  if-Turns c false x y f g = g refl

  subscribe-Turns : (k : Text) (l : ℕ) (c : Client E) → Turns c (subscribe k l c)
  unfolding subscribe
  subscribe-Turns k l c =
      if-Turns c c.closed _ _ (same_loop c c refl refl start)
        (λ h. added-Turns k l (λ s. init_start s l) c (Dict.get k c.failover_state))

  drop_key-Turns :
      (k : Text) (xs : List ℕ) (d : Dict (List ℕ)) (c : Client E) → Turns c (drop_key k xs d c)
  unfolding drop_key enqueue
  drop_key-Turns k xs d c = record {
    keeps = λ s h. s (live_before k xs c.loop h);
    stays = λ h n. none_after k xs c.loop n;
    heard = λ s h. start;
  }

  un_subscribe-Turns :
      (k : Text) (l : Option ℕ) (o : Option (Dict (List ℕ))) (c : Client E)
      → Turns c (un_subscribe_from k l o c)
  un_subscribe-Turns k l none c = same_loop c c refl refl start
  un_subscribe-Turns k none (some d) c = drop_key-Turns k _ d c
  un_subscribe-Turns k (some l) (some d) c =
      removal-Turns (remove_first l (get_or_else [] (Dict.get k d)))
    where
      removal-Turns : (ls : List ℕ) → Turns c (after_removal k d ls c)
      removal-Turns [] = drop_key-Turns k [] d c
      removal-Turns (x ∷ xs) = same_loop c _ refl refl start

  all_detached : (c : Client E) (o : Option Loop) → is_live_loop (detach_all c o) ≡ false
  all_detached c none = refl
  all_detached c (some lp) = elim lp.walk [ live i ↦ ground arith | detached xs ↦ ground arith ]

  close-Turns : (c : Client E) → Turns c (close c)
  unfolding close
  close-Turns c = if-Turns c c.closed _ _ (same_loop c c refl refl start) (λ v. record {
    keeps = λ s h. absurd (ground (arith, h, all_detached c c.loop));
    stays = λ h n. absurd (ground (arith, v, h));
    heard = λ s h. other refl start;
  })

  -- a run of an operation, where no loop runs
  ran-Turns :
      (c d e : Client E)
      → c.loop ≡ none
      → d.closed ≡ c.closed
      → Heard c d
      → e.loop ≡ d.loop
      → e.closed ≡ d.closed
      → e.events ≡ d.events
      → Turns c e
  ran-Turns c d e n q h l m v = record {
    keeps = λ s x. m ∙ q ∙ begun h.begins (ap is_live_loop (sym l) ∙ x);
    stays = λ x y. l ∙ not_begun h.begins x;
    heard = λ s x. subst (λ es. Told (Subscribed c) c.events es) (sym v) h.heard;
  }
    where
      begun : (d.loop ≡ c.loop) ⊎ (c.closed ≡ false) → is_live_loop d.loop ≡ true → c.closed ≡ false
      begun (inl a) x = absurd (true-ne (sym x ∙ ap is_live_loop (a ∙ n)))
      begun (inr b) x = b

      not_begun : (d.loop ≡ c.loop) ⊎ (c.closed ≡ false) → c.closed ≡ true → d.loop ≡ none
      not_begun (inl a) x = a ∙ n
      not_begun (inr b) x = absurd (true-ne (sym x ∙ b))

  requeue-Turns :
      (k : Text) (rest : List Pc) (c : Client E) (x : Option Pc × Client E)
      → c.loop ≡ none
      → x.1.closed ≡ c.closed
      → Heard c x.1
      → Turns c (requeue k rest x)
  requeue-Turns k rest c (none, d) n q h = ran-Turns c d _ n q h refl refl refl
  requeue-Turns k rest c (some pc, d) n q h = ran-Turns c d _ n q h refl refl refl

  -- a round through a registered array calls one of the key's listeners
  round-Turns :
      (key content : Text) (w : Walk) (c : Client E) (m : Option ℕ)
      → let lp : Loop = record { key = key; content = content; walk = w } in
        c.loop ≡ some lp → next_listener lp c ≡ m → Turns c (call_listener lp m c)
  unfolding next_listener
  round-Turns key content w c none e f = record {
    keeps = λ s h. absurd cc;
    stays = λ x n. refl;
    heard = λ s x. start;
  }
  round-Turns key content (live i) c (some l) e f = record {
    keeps = λ s h. s (ap is_live_loop e);
    stays = λ x n. absurd cc;
    heard =
        λ s x. told content (s (ap is_live_loop e), has-get_elem? (listeners key c) i l f) start;
  }
  round-Turns key content (detached []) c (some l) e f = absurd cc
  round-Turns key content (detached (y ∷ ys)) c (some l) e f = record {
    keeps = λ s h. absurd cc;
    stays = λ x n. absurd cc;
    heard = λ s x. absurd (true-ne (sym (ap is_detached_loop e) ∙ x));
  }

  Step-Turns : {md5 : Text → Text} {c d : Client E} → Step md5 c d → Turns c d
  unfolding un_subscribe
  Step-Turns (subscribes k l c) = subscribe-Turns k l c
  Step-Turns (un_subscribes k l c) = un_subscribe-Turns k l c.subscribers c
  Step-Turns (closes c) = close-Turns c
  Step-Turns (pushed k c) = enqueue-Turns k changed_start c
  Step-Turns (checks k c) = enqueue-Turns k check_start c
  Step-Turns {md5} (runs k pc rest a c n e) =
      requeue-Turns k rest c (resume md5 k pc a c) n (resume-Same md5 k pc a c).closed
        (resume-Heard md5 k pc a c)
  Step-Turns (calls lp c e) = round-Turns lp.key lp.content lp.walk c (next_listener lp c) e refl

  Steps-Sound : {md5 : Text → Text} {c d : Client E} → Steps md5 c d → Sound c → Sound d
  Steps-Sound done s = s
  Steps-Sound (next x xs) s = Steps-Sound xs ((Step-Turns x).keeps s)

  idle-Sound : (c : Client E) → c.loop ≡ none → Sound c
  idle-Sound c n h = absurd (true-ne (sym h ∙ ap is_live_loop n))

  -- In every state that a client without a running loop can come to, whatever the listeners do in their
  -- callbacks: where the next step calls a listener, the listener is registered for its key at that
  -- moment and the client is open, unless the loop goes through an array that a `close` or an
  -- unsubscription during the loop has taken out of the map.
  pub called_is_registered :
      {md5 : Text → Text} {b c d : Client E}
      → b.loop ≡ none
      → Steps md5 b c
      → is_detached_loop c.loop ≡ false
      → Step md5 c d
      → Told (Subscribed c) c.events d.events
  called_is_registered {b = b} n xs u x = (Step-Turns x).heard (Steps-Sound xs (idle-Sound b n)) u

  -- After a client over gRPC is closed, and the loop over listeners that was running then, if any,
  -- has ended, no listener is ever called, whatever was queued or awaited.
  pub closed_is_silent :
      {md5 : Text → Text} {c d : Client E}
      → Steps md5 c d
      → c.closed ≡ true
      → c.loop ≡ none
      → Told Never c.events d.events
  closed_is_silent done h n = start
  closed_is_silent {c = c} (next x xs) h n =
      let t = Step-Turns x in
      Told-append
        (Told-map (λ k l p. sym h ∙ p.0) (t.heard (idle-Sound c n) (ap is_detached_loop n)))
        (closed_is_silent xs ((Step-Moves x).stays_closed h) (t.stays h n))
