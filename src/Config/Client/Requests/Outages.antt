-- ===== src/Config/Client/Requests/Outages.antt =====
-- What a `DataClient` over gRPC with a `Snapshot` returns while the server is down, on a disk where
-- writes and deletions may fail.
use nacos_sdk_nodejs.Prelude.{
  ◌≡◌, refl, ◌∙◌, ap, true, Option, none, some, Text, Outcome, ok, err, ◌⊎◌, inl, inr, [], ◌∷◌,
  arith, get_or_else,
}
use nacos_sdk_nodejs.Config.Recovery.{read_config_with_failover}
use nacos_sdk_nodejs.Config.Recovery.Priority.{kept}
use nacos_sdk_nodejs.Config.Snapshot.{
  FileSystem, Snapshot, ErrorName, snapshot_write_error, snapshot_delete_error,
}
use nacos_sdk_nodejs.Config.Snapshot
use nacos_sdk_nodejs.Config.Snapshot.Atomic.{
  Lawful, written, unchanged, save-Saved, removed, failed, save_empty-Removed,
}
use nacos_sdk_nodejs.Config.Snapshot.Interface.{store_of, get-get_failover}
use nacos_sdk_nodejs.Config.GrpcProxy
use nacos_sdk_nodejs.Config.Client.Requests.{
  ClientEnv, ClientError, proxy_failed, Error, World, check_parameters, get_snapshot_key,
  grpc_hooks, get_config, remove,
}

-- a client whose `snapshot` is the program's own, over a file system
abbrev pub on_disk : FileSystem → Text → ClientEnv → ClientEnv
on_disk fs dir env = record env { Store = Snapshot fs; snapshot = store_of fs dir }

module _ (fs : FileSystem) (dir : Text) (settings : ClientEnv) (data_id group : Text) where
  abbrev pub env : ClientEnv
  env = on_disk fs dir settings

  abbrev key : Text
  key = get_snapshot_key env data_id group

  -- what a read of the local snapshot finds, and one of the failover file that a user keeps
  abbrev pub held : World env → Option Text
  held w = (Snapshot.get fs w.files key).0

  abbrev pub pinned : World env → Option Text
  pinned w = (Snapshot.get_failover fs w.files key).0

  -- the server's answer to a read in a world
  abbrev pub server_answer : World env → Outcome (Error env) (Option Text)
  server_answer w = (GrpcProxy.get_config env.grpc data_id group env.namespace w.proxy).0

  -- the world after a read
  abbrev pub read_then : World env → World env
  read_then w = (get_config env data_id group w).1

  abbrev pub from_kept : Error env → Option Text → Outcome (ClientError (Error env)) Text
  from_kept e none = err (proxy_failed e)
  from_kept e (some t) = ok t

  -- One error was emitted between two states of the snapshot.
  abbrev pub Emitted : Snapshot fs → Snapshot fs → Type 0
  Emitted s s' = (n : ErrorName) × (e : fs.FsError) × (s'.emitted ≡ (n, e) ∷ s.emitted)

  -- the snapshot once the failover file was looked for
  abbrev pub looked : World env → Snapshot fs
  looked w = (Snapshot.get_failover fs w.files key).1

  -- A read while the server is down returns the local snapshot, or throws the server's error.
  read_down :
      (w : World env) (e : Error env)
      → check_parameters data_id group ≡ true
      → pinned w ≡ none
      → server_answer w ≡ err e
      → (get_config env data_id group w).0 ≡ from_kept e (held w)
  unfolding get_config read_config_with_failover grpc_hooks store_of
  read_down w e v p a = let h = get-get_failover fs w.files key key in ground (arith, v, p, a, h)

  -- The local snapshot after a read that the server answered.
  answered :
      (w : World env) (o : Option Text)
      → check_parameters data_id group ≡ true
      → pinned w ≡ none
      → server_answer w ≡ ok o
      → (read_then w).files ≡ Snapshot.save fs (looked w) key (get_or_else [] o)
  unfolding get_config read_config_with_failover grpc_hooks store_of Snapshot.save
  answered w none v p a = ground (arith, v, p, a)
  answered w (some t) v p a = ground (arith, v, p, a)

  save-Kept :
      (l : Lawful fs) (s : Snapshot fs) (o : Option Text)
      → ((Snapshot.get fs (Snapshot.save fs s key (get_or_else [] o)) key).0 ≡ kept o)
        ⊎ Emitted s (Snapshot.save fs s key (get_or_else [] o))
  save-Kept l s none = elim (save_empty-Removed fs l s key) [
    | removed h e ↦ inl h
    | failed x e ↦ inr (snapshot_delete_error, x, e)
  ]
  save-Kept l s (some []) = elim (save_empty-Removed fs l s key) [
    | removed h e ↦ inl h
    | failed x e ↦ inr (snapshot_delete_error, x, e)
  ]
  save-Kept l s (some (c ∷ cs)) = elim (save-Saved fs l s key (c ∷ cs) refl) [
    | written h e ↦ inl h
    | unchanged x h e ↦ inr (snapshot_write_error, x, e)
  ]

  -- Over gRPC with the program's own snapshots on a file system that behaves as documented, whatever
  -- call of it fails, with valid names and no failover file at both reads: after a read that the server
  -- answered, either the snapshot has emitted an error while it stored the answer, or a read while the
  -- server is down returns the text of the answer, and throws the server's error where the answer was
  -- that there is no configuration, or the empty text.
  pub outage_after_answer :
      Lawful fs
      → (w : World env) (o : Option Text) (e : Error env) → check_parameters data_id group ≡ true
      → pinned w ≡ none
      → server_answer w ≡ ok o
      → pinned (read_then w) ≡ none
      → server_answer (read_then w) ≡ err e
      → ((get_config env data_id group (read_then w)).0 ≡ from_kept e (kept o))
        ⊎ Emitted (looked w) (read_then w).files
  outage_after_answer l w o e v p a q b =
      let f = answered w o v p a in
      elim (save-Kept l (looked w) o) [
        | inl h ↦ inl (
            read_down (read_then w) e v q b
            ∙ ap (from_kept e) (ap (λ s. (Snapshot.get fs s key).0) f ∙ h))
        | inr (n, x, h) ↦ inr (n, x, ap (λ (s : Snapshot fs). s.emitted) f ∙ h)
      ]

  removed_files :
      (w : World env)
      → check_parameters data_id group ≡ true
      → (remove env data_id group w).0 ≡ ok true
      → (remove env data_id group w).1.files ≡ Snapshot.save fs w.files key []
  unfolding remove store_of Snapshot.save
  removed_files w v r = ground (arith, v, r)

  -- Over gRPC with the program's own snapshots on a file system that behaves as documented, with valid
  -- names: after a removal that the server confirmed, either the snapshot has emitted an error while it
  -- deleted its copy, or a read with no failover file while the server is down throws the server's
  -- error.
  pub removed_stays_removed :
      Lawful fs
      → (w : World env) (e : Error env) → check_parameters data_id group ≡ true
      → (remove env data_id group w).0 ≡ ok true
      → let u = (remove env data_id group w).1 in
        pinned u ≡ none
        → server_answer u ≡ err e
        → ((get_config env data_id group u).0 ≡ err (proxy_failed e)) ⊎ Emitted w.files u.files
  removed_stays_removed l w e v r p a =
      let f = removed_files w v r in
      elim (save-Kept l w.files none) [
        | inl h ↦ inl (
            read_down (remove env data_id group w).1 e v p a
            ∙ ap (from_kept e) (ap (λ s. (Snapshot.get fs s key).0) f ∙ h))
        | inr (n, x, h) ↦ inr (n, x, ap (λ (s : Snapshot fs). s.emitted) f ∙ h)
      ]
