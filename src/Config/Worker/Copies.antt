-- ===== src/Config/Worker/Copies.antt =====
-- The two local copies of a configuration over HTTP, under its encoded and its legacy key, and what
-- reads and removals leave of them.
use nacos_sdk_nodejs.Prelude.{
  ◌≡◌, refl, ◌∙◌, ap, inl, inr, Option, none, some, Text, [], ◌∷◌, arith, text_eq_refl, text_eq_iff,
  Option-cases,
}
use nacos_sdk_nodejs.Config.Recovery.Laws.{SnapshotLaws}
use nacos_sdk_nodejs.Config.Recovery.Priority.{Consistent}
use nacos_sdk_nodejs.Config.Worker.Env.{Env, get_snapshot_key_encoded, get_snapshot_key_legacy}
use nacos_sdk_nodejs.Config.Worker.Requests.{World, get_snapshot, clear_snapshot, http_hooks}

-- the first of two values that is there
abbrev pub first : Option Text → Option Text → Option Text
first none o = o
first (some t) o = some t

module _ (env : Env) (l : SnapshotLaws env.snapshot) (data_id group : Text) where
  open env use {snapshot as store}

  abbrev key : Text
  key = get_snapshot_key_encoded env data_id group

  abbrev legacy : Text
  legacy = get_snapshot_key_legacy env data_id group

  -- what `getSnapshot` finds
  abbrev pub held : World env → Option Text
  held w = first (store.get w.files key).0 (store.get w.files legacy).0

  abbrev pub pinned : World env → Option Text
  pinned w = (store.get_failover w.files key).0

  pub get_snapshot-held : (w : World env) → (get_snapshot env data_id group w).0 ≡ held w
  unfolding get_snapshot
  get_snapshot-held w = ground (arith, l.get-get w.files key legacy)

  save_migrated :
      (s : env.Store) (v : Text)
      → (store.get s key).0 ≡ none
      → (store.get s legacy).0 ≡ some v
      → first (store.get (store.save s key v) key).0 (store.get (store.save s key v) legacy).0
        ≡ some v
  save_migrated s [] a b = ground (
    arith,
    l.get-save_empty s key key,
    l.get-save_empty s key legacy,
    text_eq_refl key,
    text_eq_iff key legacy,
    ap (λ (t : Text). (store.get s t).0) {x = key} {y = legacy},
  )
  save_migrated s (c ∷ cs) a b =
      ground (arith, l.get-save s key (c ∷ cs) key refl, text_eq_refl key)

  -- A migration does not change what the fallback reads.
  pub get_snapshot_keeps_held : (w : World env) → held (get_snapshot env data_id group w).1 ≡ held w
  unfolding get_snapshot
  get_snapshot_keeps_held w =
      let s = w.files in
      let s1 = (store.get s key).1 in
      let s2 = (store.get s1 legacy).1 in
      let facts : (_ : (store.get s1 key).0 ≡ (store.get s key).0) × ((store.get s1 legacy).0
            ≡ (store.get s legacy).0)
          × ((store.get s2 key).0 ≡ (store.get s1 key).0)
          × ((store.get s2 legacy).0 ≡ (store.get s1 legacy).0) =
        (
          l.get-get s key key,
          l.get-get s key legacy,
          l.get-get s1 legacy key,
          l.get-get s1 legacy legacy,
        ) in
      elim (Option-cases (store.get s1 legacy).0) [
        | inl n ↦ ground (arith, facts)
        | inr (v, e) ↦ ground (arith, facts, save_migrated s2 v)
      ]

  pub get_snapshot_keeps_pinned :
      (w : World env) → pinned (get_snapshot env data_id group w).1 ≡ pinned w
  unfolding get_snapshot
  get_snapshot_keeps_pinned w =
      let s = w.files in
      let s1 = (store.get s key).1 in
      let s2 = (store.get s1 legacy).1 in
      let facts : (_ : (store.get_failover s1 key).0 ≡ (store.get_failover s key).0)
          × ((store.get_failover s2 key).0 ≡ (store.get_failover s1 key).0) =
        (l.get_failover-get s key key, l.get_failover-get s1 legacy key) in
      elim (Option-cases (store.get s1 legacy).0) [
        | inl n ↦ ground (arith, facts)
        | inr (v, e) ↦ ground (arith, facts, l.get_failover-save s2 key v key)
      ]

  pub clear_snapshot-held : (w : World env) → held (clear_snapshot env data_id group w) ≡ none
  unfolding clear_snapshot
  clear_snapshot-held w =
      let s1 = store.delete w.files key in
      ground (
        arith,
        l.get-delete w.files key key,
        l.get-delete s1 legacy key,
        l.get-delete s1 legacy legacy,
        text_eq_refl key,
        text_eq_refl legacy,
      )

  -- The HTTP hooks keep the promises that the recovery relies on.
  unfoldable pub http-Consistent : Consistent (http_hooks env data_id group)
  unfolding http_hooks clear_snapshot
  http-Consistent = record {
    held = held;
    pinned = pinned;
    reads_pinned = λ w. refl;
    failover-held =
        λ w. rw (l.get-get_failover w.files key key, l.get-get_failover w.files key legacy);
    failover-pinned = λ w. l.get_failover-get_failover w.files key key;
    fetch-held = λ w. refl;
    fetch-pinned = λ w. refl;
    reads_held = get_snapshot-held;
    fallback-held = get_snapshot_keeps_held;
    fallback-pinned = get_snapshot_keeps_pinned;
    report-held = λ e w. refl;
    report-pinned = λ e w. refl;
    clear-held = clear_snapshot-held;
    clear-pinned = λ w.
        l.get_failover-delete (store.delete w.files key) legacy key
        ∙ l.get_failover-delete w.files key key;
    save-held = λ w t h. rw (l.get-save w.files key t key h, text_eq_refl key);
    save-pinned = λ w t. l.get_failover-save w.files key t key;
  }
