-- ===== src/Naming/HostReactor/Changes.antt =====
-- When a service update is announced, and what it leaves in the map.
use nacos_sdk_nodejs.Prelude.{
  ◌↔◌, ◌≡◌, refl, inl, inr, true, false, some, Text, List, [], ◌∷◌, arith, filter, All, text_eq_iff,
  text_eq_refl, Option-cases,
}
use nacos_sdk_nodejs.Prelude.Dict
use nacos_sdk_nodejs.Prelude.Dict.{Dict, get-set, get-set_self}
use nacos_sdk_nodejs.Naming.HostReactor.{
  ReactorEnv, has_hosts, host_map, is_modified, is_new, removed_from, no_entries, is_changed,
}

module _ (env : ReactorEnv) where
  open env use {Host}

  -- Nothing changed between two lists of hosts: each new host equals the last old host of its
  -- address, each old address is still there, and there were old hosts.
  pub record Unchanged (old new : List Host) : Type 0 where
    pub same :
        All
          (λ h.
            (o : Host) × (Dict.get (env.address h) (host_map env old) ≡ some o)
            × (env.equals h o ≡ true))
          new
    pub kept :
        (k : Text) → Dict.has k (host_map env old) ≡ true → Dict.has k (host_map env new) ≡ true
    pub any_old : no_entries env (host_map env old) ≡ false

  same-All :
      (old : Dict Host) (new : List Host)
      → has_hosts env (filter (is_new env old) new) ≡ false
      → has_hosts env (filter (is_modified env old) new) ≡ false
      → All
          (λ h. (o : Host) × (Dict.get (env.address h) old ≡ some o) × (env.equals h o ≡ true))
          new
  unfolding is_new is_modified
  same-All old [] a b = tt
  same-All old (h ∷ hs) a b = elim (Option-cases (Dict.get (env.address h) old)) [
    | inl n ↦ absurd (ground (arith, n))
    | inr (o, e) ↦
        ((o, e, ground (arith, e)), same-All old hs (ground (arith, e)) (ground (arith, e)))
  ]

  none_removed :
      (new old : Dict Host)
      → has_hosts env (removed_from env new old) ≡ false
      → (k : Text) → Dict.has k old ≡ true
      → Dict.has k new ≡ true
  unfolding removed_from Dict.get
  none_removed new [] h k e = cc
  none_removed new ((j, o) ∷ old) h k e =
      ground (arith, text_eq_iff j k, none_removed new old (ground arith) k)

  -- Where an update is not announced, nothing changed.
  is_changed-Unchanged : (old new : List Host) → is_changed env old new ≡ false → Unchanged old new
  unfolding is_changed
  is_changed-Unchanged old new h = record {
    same = same-All (host_map env old) new (ground arith) (ground arith);
    kept = none_removed (host_map env new) (host_map env old) (ground arith);
    any_old = ground arith;
  }

  not_new :
      (old : Dict Host) (new : List Host)
      → All
          (λ h. (o : Host) × (Dict.get (env.address h) old ≡ some o) × (env.equals h o ≡ true))
          new
      → (has_hosts env (filter (is_new env old) new) ≡ false)
        × (has_hosts env (filter (is_modified env old) new) ≡ false)
  unfolding is_new is_modified
  not_new old [] a = (refl, refl)
  not_new old (h ∷ hs) ((o, e, q), a) =
      let r = not_new old hs a in (ground (arith, e, q, r), ground (arith, e, q, r))

  keys_kept :
      (new old : Dict Host)
      → ((k : Text) → Dict.has k old ≡ true → Dict.has k new ≡ true)
      → has_hosts env (removed_from env new old) ≡ false
  unfolding removed_from Dict.get
  keys_kept new [] f = refl
  keys_kept new ((j, o) ∷ old) f =
      ground (arith, f j, text_eq_refl j, keys_kept new old (λ k e. f k (ground (arith, e))))

  -- Where nothing changed, an update is not announced.
  Unchanged-is_changed : (old new : List Host) → Unchanged old new → is_changed env old new ≡ false
  unfolding is_changed
  Unchanged-is_changed old new u =
      let n = not_new (host_map env old) new u.same in
      let k = keys_kept (host_map env new) (host_map env old) u.kept in
      ground (arith, n, k, u.any_old)

  -- An update counts as unchanged exactly when each new host equals the last known host of its
  -- address, each known address is still there, and some host was known.
  pub is_changed_iff : (old new : List Host) → (is_changed env old new ≡ false) ↔ Unchanged old new
  is_changed_iff old new = (is_changed-Unchanged old new, Unchanged-is_changed old new)
