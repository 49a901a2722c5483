-- ===== src/Config/Worker/Subscriptions/Delivery.antt =====
-- What every run of operations keeps: a key is polled exactly while somebody listens, and what an
-- item holds is what was emitted last from it.
use nacos_sdk_nodejs.Prelude.{
  ℕ, suc, ◌<◌, ◌≡◌, refl, sym, ap, subst, ◌∙◌, inl, inr, Bool, true, false, not, Option, none, some,
  Text, Outcome, ok, err, List, [], ◌∷◌, ◌++◌, ◌==◌, arith, if◌then◌else◌, text_eq, text_eq_iff,
  is_some, get_or_else, Option-cases, Bool-cases, ◌&&◌,
}
use nacos_sdk_nodejs.Prelude.Tests.{if_elim}
use nacos_sdk_nodejs.Prelude.Dict
use nacos_sdk_nodejs.Prelude.Emitter.{is_nil, remove_last}
use nacos_sdk_nodejs.Prelude.Dict.{get-set, get-delete}
use nacos_sdk_nodejs.Config.Worker.Env.{Env, format_key}
use nacos_sdk_nodejs.Config.Worker.Subscriptions.{
  Worker, Item, fresh_item, Queued, emit, call_listener, emit_error, sync_and_poll, SyncResult,
  Check, at_mtime, at_content, init, listeners_of, get_md5_string, subscribe, un_subscribe,
  sync_one, sync_configs, set_item, add_item, begin_check, with_mtime, with_content,
  check_failover_of, close, step, run, Op, subscribes, un_subscribes, syncs, checks, mtime_read,
  content_read, closes, without, same_md5, accept, load_failover, follow_file, same_version,
}

abbrev is_emit : {E : Type 0} → Queued E → Bool
is_emit (emit i k c) = true
is_emit (call_listener l c) = false
is_emit (emit_error e) = false
is_emit (sync_and_poll d g) = false

is_nil-append : (ls : List ℕ) (l : ℕ) → is_nil (ls ++ l ∷ []) ≡ false
is_nil-append [] l = refl
is_nil-append (x ∷ xs) l = refl

-- the key and the item of a check
abbrev pub held_by : Option Check → Option (Text × ℕ)
held_by none = none
held_by (some (at_mtime k i)) = some (k, i)
held_by (some (at_content k i m)) = some (k, i)

module _ (env : Env) where
  -- the key and the content that were emitted last from an item
  unfoldable pub last_emit : ℕ → List (Queued env.HttpError) → Option (Text × Option Text)
  last_emit i [] = none
  last_emit i (emit j k c ∷ q) = if j == i then some (k, c) else last_emit i q
  last_emit i (call_listener l c ∷ q) = last_emit i q
  last_emit i (emit_error e ∷ q) = last_emit i q
  last_emit i (sync_and_poll d g ∷ q) = last_emit i q

  -- A key has an item exactly if it has a listener.
  abbrev pub PairedAt : Worker env → Text → Type 0
  PairedAt w k = is_some (Dict.get k w.subscriptions) ≡ not (is_nil (listeners_of env w k))

  -- the key of an item
  abbrev pub key_of : Item → Text
  key_of item = format_key env item.data_id item.group

  -- An item is in use, and it is of a key.
  abbrev pub IsOf : Worker env → ℕ → Text → Type 0
  IsOf w i k = (i < w.next) × (key_of (w.heap i) ≡ k)

  -- If an item has an md5, it is the md5 of its content, and its content is what was emitted last from
  -- it, for its key.
  abbrev pub Told : List (Queued env.HttpError) → ℕ → Item → Type 0
  Told q i item =
      (m : Text)
      → item.md5 ≡ some m
      → (last_emit i q ≡ some (key_of item, item.content)) × (get_md5_string env item.content ≡ m)

  pub record Inv (w : Worker env) : Type 0 where
    pub paired : (k : Text) → PairedAt w k
    pub known : (k : Text) (i : ℕ) → Dict.get k w.subscriptions ≡ some i → IsOf w i k
    pub checked : (k : Text) (i : ℕ) → held_by w.checking ≡ some (k, i) → IsOf w i k
    pub told : (i : ℕ) → Told w.queued i (w.heap i)

  init-Inv : Inv (init env)
  unfolding Dict.get
  init-Inv = record {
    paired = λ k. refl;
    known = λ k i h. cc;
    checked = λ k i h. cc;
    told = λ i m h. cc;
  }

  -- what holds of every item after an assignment to one
  assigned :
      (P : ℕ → Item → Type 0) (w : Worker env) (i : ℕ) (new : Item)
      → P i new
      → ((j : ℕ) → (j == i) ≡ false → P j (w.heap j))
      → (j : ℕ) → P j ((set_item env i new w).heap j)
  assigned P w i new h f j =
      if_elim (P j) (j == i) new (w.heap j)
        (λ e. let x : i ≡ j = ground (arith, e) in subst (λ n. P n new) x h) (f j)

  -- An assignment to an item of a key: nothing is emitted where its md5 and content stay, else its
  -- new content is.
  module _ (w : Worker env) (key : Text) (i : ℕ) (new : Item) (v : Inv w) (o : IsOf w i key)
      (same : key_of new ≡ key_of (w.heap i)) where
    still-IsOf : (j : ℕ) (k : Text) → IsOf w j k → IsOf (set_item env i new w) j k
    still-IsOf j k h = (
      h.0,
      assigned (λ n x. key_of (w.heap n) ≡ k → key_of x ≡ k) w i new (λ e. same ∙ e) (λ n u e. e) j
          h.1,
    )

    quiet-Inv :
        new.md5 ≡ (w.heap i).md5 → new.content ≡ (w.heap i).content → Inv (set_item env i new w)
    quiet-Inv p q = record {
      paired = v.paired;
      known = λ k j h. still-IsOf j k (v.known k j h);
      checked = λ k j h. still-IsOf j k (v.checked k j h);
      told =
          assigned (Told w.queued) w i new
            (λ m h.
              let t = v.told i m (sym p ∙ h) in (rw (q, same) t.0, ap (get_md5_string env) q ∙ t.1))
            (λ j u. v.told j);
    }

    loud-Inv :
        new.md5 ≡ some (get_md5_string env new.content)
        → Inv (record (set_item env i new w) { queued = emit i key new.content ∷ w.queued })
    unfolding last_emit
    loud-Inv p = record {
      paired = v.paired;
      known = λ k j h. still-IsOf j k (v.known k j h);
      checked = λ k j h. still-IsOf j k (v.checked k j h);
      told =
          assigned (Told (emit i key new.content ∷ w.queued)) w i new
            (λ m h. (ground (arith, same, o.1), ground (arith, p, h)))
            (λ j u m h. let t = v.told j m h in (ground (arith, u, t.0), t.1));
    }

  -- A change of the queue that emits nothing for a key
  noted-Inv :
      (w : Worker env) (q : Queued env.HttpError)
      → is_emit q ≡ false
      → Inv w
      → Inv (record w { queued = q ∷ w.queued })
  unfolding last_emit
  noted-Inv w (emit i k c) e v = absurd cc
  noted-Inv w (call_listener l c) e v = record {
    paired = v.paired;
    known = v.known;
    checked = v.checked;
    told = v.told;
  }
  noted-Inv w (emit_error x) e v = record {
    paired = v.paired;
    known = v.known;
    checked = v.checked;
    told = v.told;
  }
  noted-Inv w (sync_and_poll d g) e v = record {
    paired = v.paired;
    known = v.known;
    checked = v.checked;
    told = v.told;
  }

  checking-Inv :
      (w : Worker env) (c : Option Check)
      → Inv w
      → ((k : Text) (i : ℕ) → held_by c ≡ some (k, i) → IsOf w i k)
      → Inv (record w { checking = c })
  checking-Inv w c v f = record { paired = v.paired; known = v.known; checked = f; told = v.told }

  accept-Inv :
      (w : Worker env) (key : Text) (i : ℕ) (o : Outcome env.HttpError (Option Text))
      → Inv w
      → IsOf w i key
      → Inv (accept env w key i o)
  accept-Inv w key i (err e) v h = noted-Inv w (emit_error e) refl v
  accept-Inv w key i (ok c) v h =
      elim (Bool-cases (same_md5 env (w.heap i).md5 (get_md5_string env c))) [
        | inl s ↦ rw s v
        | inr n ↦ rw n (
            loud-Inv w key i (record (w.heap i) { md5 = some (get_md5_string env c); content = c })
              v h refl refl)
      ]

  sync_one-Inv : (w : Worker env) (r : SyncResult env.HttpError) → Inv w → Inv (sync_one env w r)
  unfolding sync_one
  sync_one-Inv w r v =
      let key = format_key env r.data_id r.group in
      elim (Option-cases (Dict.get key w.subscriptions)) [
        | inl n ↦ rw (n, sync_one) v
        | inr (i, h) ↦ rw (h, sync_one) (accept-Inv w key i r.result v (v.known key i h))
      ]

  sync_configs-Inv :
      (w : Worker env) (rs : List (SyncResult env.HttpError)) → Inv w → Inv (sync_configs env w rs)
  unfolding sync_configs
  sync_configs-Inv w [] v = v
  sync_configs-Inv w (r ∷ rs) v = sync_configs-Inv (sync_one env w r) rs (sync_one-Inv w r v)

  load_failover-Inv :
      (w : Worker env) (key : Text) (i t : ℕ) (c : Option Text)
      → Inv w
      → IsOf w i key
      → Inv (load_failover env w key i t c)
  load_failover-Inv w key i t none v h = v
  load_failover-Inv w key i t (some c) v h =
      let pinned : Item = record (w.heap i) { use_failover = true; failover_version = some t } in
      elim (Bool-cases (same_md5 env (w.heap i).md5 (env.md5 c))) [
        | inl s ↦ rw s (quiet-Inv w key i pinned v h refl refl refl)
        | inr n ↦ rw n (
            loud-Inv w key i (record pinned { md5 = some (env.md5 c); content = some c }) v h refl
              refl)
      ]

  held-IsOf :
      (w : Worker env) (key : Text) (i : ℕ) (k : Text) (j : ℕ)
      → ◌≡◌ {A = Option (Text × ℕ)} (some (key, i)) (some (k, j))
      → IsOf w i key
      → IsOf w j k
  held-IsOf w key i k j e h =
      let first : Text × ℕ = (key, i) in
      subst (λ (x : Text × ℕ). IsOf w x.1 x.0) (ap (λ o. get_or_else first o) e) h

  follow_file-Inv :
      (w : Worker env) (key : Text) (i : ℕ) (t : Option ℕ)
      → Inv w
      → IsOf w i key
      → Inv (follow_file env w key i t)
  follow_file-Inv w key i none v h = elim (Bool-cases (w.heap i).use_failover) [
    | inl s ↦ rw s (
        quiet-Inv w key i (record (w.heap i) { use_failover = false; failover_version = none }) v h
          refl refl refl)
    | inr n ↦ rw n v
  ]
  follow_file-Inv w key i (some t) v h =
      elim (Bool-cases
        ((w.heap i).use_failover && same_version env (w.heap i).failover_version t)) [
          | inl s ↦ rw s v
          | inr n ↦
              rw n
                (checking-Inv w (some (at_content key i t)) v (λ k j e. held-IsOf w key i k j e h))
        ]

  nheld-IsOf : (w : Worker env) → Inv w → Inv (record w { checking = none })
  nheld-IsOf w v = checking-Inv w none v (λ k i h. cc)

  begin-Inv :
      (w : Worker env) (key : Text) (o : Option ℕ) (c : Option Check)
      → Inv w
      → Dict.get key w.subscriptions ≡ o
      → Inv (begin_check env w key o c)
  begin-Inv w key none c v h = v
  begin-Inv w key (some i) (some c) v h = v
  begin-Inv w key (some i) none v h =
      checking-Inv w (some (at_mtime key i)) v (λ k j e. held-IsOf w key i k j e (v.known key i h))

  mtime-Inv :
      (w : Worker env) (t : Option ℕ) (c : Option Check)
      → Inv w
      → w.checking ≡ c
      → Inv (with_mtime env w t c)
  mtime-Inv w t none v h = v
  mtime-Inv w t (some (at_mtime k i)) v h =
      follow_file-Inv (record w { checking = none }) k i t (nheld-IsOf w v)
        (v.checked k i (ap held_by h))
  mtime-Inv w t (some (at_content k i m)) v h = v

  content-Inv :
      (w : Worker env) (t : Option Text) (c : Option Check)
      → Inv w
      → w.checking ≡ c
      → Inv (with_content env w t c)
  content-Inv w t none v h = v
  content-Inv w t (some (at_mtime k i)) v h = v
  content-Inv w t (some (at_content k i m)) v h =
      load_failover-Inv (record w { checking = none }) k i m t (nheld-IsOf w v)
        (v.checked k i (ap held_by h))

  without-nil : (l : Option ℕ) (ls : List ℕ) → is_nil ls ≡ true → is_nil (without env l ls) ≡ true
  unfolding remove_last
  without-nil none ls h = refl
  without-nil (some l) [] h = refl
  without-nil (some l) (x ∷ xs) h = cc

  un_subscribe-Inv :
      (w : Worker env) (d g : Text) (l : Option ℕ) → Inv w → Inv (un_subscribe env w d g l)
  unfolding un_subscribe
  un_subscribe-Inv w d g l v =
      let key = format_key env d g in
      let left = without env l (listeners_of env w key) in
      record {
        paired = λ k. ground (
          arith,
          v.paired k,
          text_eq_iff key k,
          get-set key k left w.listeners,
          v.paired key,
          without-nil l (listeners_of env w key),
          get-delete key k w.subscriptions,
        );
        known = λ k i h. v.known k i (ground (arith, h, get-delete key k w.subscriptions));
        checked = v.checked;
        told = v.told;
      }

  -- a key that has an item gets one more listener
  listened-Inv :
      (w : Worker env) (key : Text) (l i : ℕ)
      → Inv w
      → Dict.get key w.subscriptions ≡ some i
      → Inv (record w { listeners = Dict.set key (listeners_of env w key ++ l ∷ []) w.listeners })
  listened-Inv w key l i v h = record {
    paired = λ k. ground (
      arith,
      h,
      v.paired k,
      is_nil-append (listeners_of env w key) l,
      text_eq_iff key k,
      get-set key k (listeners_of env w key ++ l ∷ []) w.listeners,
    );
    known = v.known;
    checked = v.checked;
    told = v.told;
  }

  -- an item in use is not the next one
  old-IsOf :
      (w : Worker env) (new : Item) (i : ℕ) (k : Text)
      → IsOf w i k
      → (i < suc w.next) × (key_of ((set_item env w.next new w).heap i) ≡ k)
  old-IsOf w new i k h = (
    let l = h.0 in omega arith,
    if_elim (λ x. key_of x ≡ k) (i == w.next) new (w.heap i)
        (λ e. let l = h.0 in absurd (ground arith)) (λ e. h.1),
  )

  at_next :
      (w : Worker env) (new : Item) (k : Text)
      → key_of new ≡ k
      → key_of ((set_item env w.next new w).heap w.next) ≡ k
  at_next w new k h =
      if_elim (λ x. key_of x ≡ k) (w.next == w.next) new (w.heap w.next) (λ e. h)
        (λ e. absurd (ground arith))

  fresh-Inv :
      (w : Worker env) (d g : Text) (l : ℕ)
      → Inv w
      → let key = format_key env d g in
        Dict.get key w.subscriptions ≡ none
        → Inv (record (set_item env w.next (fresh_item d g) w) {
          subscriptions = Dict.set key w.next w.subscriptions;
          next = suc w.next;
          listeners = Dict.set key (listeners_of env w key ++ l ∷ []) w.listeners;
          queued = sync_and_poll d g ∷ w.queued;
        })
  unfolding last_emit
  fresh-Inv w d g l v h =
      let key = format_key env d g in
      let new = fresh_item d g in
      record {
        paired = λ k. ground (
          arith,
          v.paired k,
          is_nil-append (listeners_of env w key) l,
          text_eq_iff key k,
          get-set key k (listeners_of env w key ++ l ∷ []) w.listeners,
          get-set key k w.next w.subscriptions,
        );
        known = λ k i e. elim (Bool-cases (text_eq key k)) [
          | inl t ↦
              let f : w.next ≡ i = ground (arith, e, t, get-set key k w.next w.subscriptions) in
              subst (λ n. (n < suc w.next) × (key_of ((set_item env w.next new w).heap n) ≡ k)) f
                (omega arith, at_next w new k ((text_eq_iff key k).0 t))
          | inr t ↦
              old-IsOf w new i k
                (v.known k i (ground (arith, e, t, get-set key k w.next w.subscriptions)))
        ];
        checked = λ k i e. old-IsOf w new i k (v.checked k i e);
        told =
            assigned (Told (sync_and_poll d g ∷ w.queued)) w w.next new (λ m e. cc)
              (λ j u. v.told j);
      }

  subscribe-Inv : (w : Worker env) (d g : Text) (l : ℕ) → Inv w → Inv (subscribe env w d g l)
  unfolding subscribe
  subscribe-Inv w d g l v =
      let key = format_key env d g in
      elim (Option-cases (Dict.get key w.subscriptions)) [
        | inl n ↦ rw (n, subscribe) (fresh-Inv w d g l v n)
        | inr (i, h) ↦ rw (h, subscribe) (added i (listened-Inv w key l i v h))
      ]
    where
      added :
          (i : ℕ)
          → Inv (record w {
            listeners =
                Dict.set
                  (format_key env d g)
                  (listeners_of env w (format_key env d g) ++ l ∷ [])
                  w.listeners;
          })
          → Inv (
              add_item env
                (record w {
                  listeners =
                      Dict.set
                        (format_key env d g)
                        (listeners_of env w (format_key env d g) ++ l ∷ [])
                        w.listeners;
                })
                (format_key env d g)
                d
                g
                (some i)
                l)
      added i u = elim (Bool-cases (is_some (w.heap i).md5)) [
        | inl e ↦ rw e (noted-Inv _ (call_listener l (w.heap i).content) refl u)
        | inr e ↦ rw e u
      ]

  step-Inv : (w : Worker env) (o : Op env) → Inv w → Inv (step env w o)
  unfolding step close check_failover_of Dict.get
  step-Inv w (subscribes d g l) v = subscribe-Inv w d g l v
  step-Inv w (un_subscribes d g l) v = un_subscribe-Inv w d g l v
  step-Inv w (syncs rs) v = sync_configs-Inv w rs v
  step-Inv w (checks key) v = begin-Inv w key (Dict.get key w.subscriptions) w.checking v refl
  step-Inv w (mtime_read t) v = mtime-Inv w t w.checking v refl
  step-Inv w (content_read t) v = content-Inv w t w.checking v refl
  step-Inv w closes v = record {
    paired = λ k. refl;
    known = λ k i h. cc;
    checked = v.checked;
    told = v.told;
  }

  run_from-Inv : (w : Worker env) (os : List (Op env)) → Inv w → Inv (run env w os)
  unfolding run
  run_from-Inv w [] v = v
  run_from-Inv w (o ∷ os) v = run_from-Inv (step env w o) os (step-Inv w o v)

  -- After any subscriptions, removals, reads, checks of failover files and a close, in any order, also
  -- between the two reads of a check: a key has an item exactly if it has a listener, the item is of
  -- that key, and an item with an md5, registered or not, has the md5 of its content, which is the
  -- content that was emitted last from the item, for its key.
  pub run-Inv : (os : List (Op env)) → Inv (run env (init env) os)
  run-Inv os = run_from-Inv (init env) os init-Inv
