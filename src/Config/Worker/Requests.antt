-- ===== src/Config/Worker/Requests.antt =====
-- packages/nacos-config/src/client_worker.ts: reading, publishing and removing a configuration.
use nacos_sdk_nodejs.Prelude.{
  ℕ, ◌+◌, Bool, true, false, ◌&&◌, ◌||◌, Option, none, some, Text, Outcome, ok, err, codes, List,
  [], ◌∷◌, map, if◌then◌else◌, is_empty, ◌==◌, leb, text_eq,
}
use nacos_sdk_nodejs.Config.Recovery.{
  SnapshotStore, DisasterRecoveryHooks, ConfigReadResult, read_config_with_failover,
}
use nacos_sdk_nodejs.Config.Worker.Env.{
  Env, HttpRequest, configs_path, get_snapshot_key_encoded, get_snapshot_key_legacy,
}

-- `UnitOptions`
pub record UnitOptions : Type 0 where
  pub type : Option Text
  pub cas_md5 : Text

-- `casMd5` compares as the letters `A` to `Z` do under the flag `i` of a regular expression.
abbrev to_lower : ℕ → ℕ
to_lower c = if leb b'A' c && leb c b'Z' then c + 32 else c

pub starts_with : Text → Text → Bool
starts_with [] s = true
starts_with (p ∷ ps) [] = false
starts_with (p ∷ ps) (c ∷ cs) = p == c && starts_with ps cs

pub includes : Text → Text → Bool
unfolding starts_with
includes p [] = starts_with p []
includes p (c ∷ cs) = starts_with p (c ∷ cs) || includes p cs

pub ends_with : Text → Text → Bool
ends_with p [] = text_eq p []
ends_with p (c ∷ cs) = text_eq p (c ∷ cs) || ends_with p cs

module _ (env : Env) where
  open env use {Store, Net, HttpError, snapshot as store}

  pub record World : Type 0 where
    pub files : Store
    pub net : Net
    -- the errors given to `_error`, the last one first
    pub reported : List HttpError

  -- `this.snapshot`, in the whole world
  abbrev pub in_world : SnapshotStore World
  in_world = record {
    cache_dir = store.cache_dir;
    get = λ w k. let (o, s) = store.get w.files k in (o, record w { files = s });
    save = λ w k v. record w { files = store.save w.files k v };
    delete = λ w k. record w { files = store.delete w.files k };
    get_failover = λ w k. let (o, s) = store.get_failover w.files k in (o, record w { files = s });
  }

  abbrev pub call : World → HttpRequest → Outcome HttpError (Option Text) × World
  call w r = let (o, net) = env.request w.net r in (o, record w { net = net })

  -- `getSnapshot`: the encoded path, else the legacy path, whose content is written to the encoded
  -- one. (`Snapshot.save` does not throw; the `catch` around it only logs.)
  abbrev migrate : Text → Option Text × World → Option Text × World
  migrate key (none, w) = (none, w)
  migrate key (some content, w) = (some content, in_world.save w key content)

  abbrev fall_back : Text → Text → Option Text × World → Option Text × World
  fall_back key legacy (none, w) = migrate key (in_world.get w legacy)
  fall_back key legacy (some content, w) = (some content, w)

  unfoldable pub get_snapshot : Text → Text → World → Option Text × World
  get_snapshot data_id group w =
      let key = get_snapshot_key_encoded env data_id group in
      let legacy = get_snapshot_key_legacy env data_id group in
      fall_back key legacy (in_world.get w key)

  unfoldable pub get_request : Text → Text → HttpRequest
  get_request data_id group = record {
    path = configs_path;
    method = codes "GET";
    encode = false;
    data_as_query_string = false;
    fields =
        (codes "dataId", some data_id)
        ∷ (codes "group", some group)
        ∷ (codes "tenant", env.namespace)
        ∷ [];
    headers = [];
  }

  -- both representations of a key, the legacy one too
  unfoldable pub clear_snapshot : Text → Text → World → World
  clear_snapshot data_id group w =
      in_world.delete (in_world.delete w (get_snapshot_key_encoded env data_id group))
        (get_snapshot_key_legacy env data_id group)

  -- the hooks that `getConfig` hands over
  unfoldable pub http_hooks : Text → Text → DisasterRecoveryHooks HttpError World
  http_hooks data_id group = record {
    snapshot_key = get_snapshot_key_encoded env data_id group;
    snapshot = in_world;
    fetch_from_server = λ w. call w (get_request data_id group);
    read_snapshot_fallback = get_snapshot data_id group;
    on_server_error = λ e w. record w { reported = e ∷ w.reported };
    clear_snapshot = clear_snapshot data_id group;
  }

  abbrev pub content_of :
      Outcome HttpError ConfigReadResult × World → Outcome HttpError (Option Text) × World
  content_of (ok r, w) = (ok r.content, w)
  content_of (err e, w) = (err e, w)

  unfoldable pub get_config : Text → Text → World → Outcome HttpError (Option Text) × World
  unfolding http_hooks
  get_config data_id group w = content_of (read_config_with_failover (http_hooks data_id group) w)

  unfoldable pub publish_request : Text → Text → Text → UnitOptions → HttpRequest
  publish_request data_id group content options = record {
    path = configs_path;
    method = codes "POST";
    encode = true;
    data_as_query_string = false;
    fields =
        (codes "dataId", some data_id)
        ∷ (codes "group", some group)
        ∷ (codes "content", some content)
        ∷ (codes "tenant", env.namespace)
        ∷ (codes "type", options.type)
        ∷ (codes "appName", env.app_name)
        ∷ [];
    headers = if is_empty options.cas_md5 then [] else (codes "casMd5", options.cas_md5) ∷ [];
  }

  abbrev always_true : Outcome HttpError (Option Text) × World → Outcome HttpError Bool × World
  always_true (ok _, w) = (ok true, w)
  always_true (err e, w) = (err e, w)

  unfoldable pub publish_single :
      Text → Text → Text → UnitOptions → World → Outcome HttpError Bool × World
  publish_single data_id group content options w =
      always_true (call w (publish_request data_id group content options))

  -- an error that stands for a failed comparison of `casMd5`
  unfoldable pub is_cas_conflict : HttpError → Bool
  unfolding ends_with includes
  is_cas_conflict e =
      ends_with (codes "ServerConflictError") (env.error_name e)
      || includes (codes "cas publish fail") (map to_lower (env.error_body e))

  abbrev absorb : Outcome HttpError Bool × World → Outcome HttpError Bool × World
  absorb (ok b, w) = (ok b, w)
  absorb (err e, w) = if is_cas_conflict e then (ok false, w) else (err e, w)

  unfoldable pub publish_config_cas :
      Text → Text → Text → Text → UnitOptions → World → Outcome HttpError Bool × World
  publish_config_cas data_id group content cas_md5 options w =
      absorb (publish_single data_id group content (record options { cas_md5 = cas_md5 }) w)

  unfoldable pub remove_request : Text → Text → HttpRequest
  remove_request data_id group = record {
    path = configs_path;
    method = codes "DELETE";
    encode = false;
    data_as_query_string = true;
    fields =
        (codes "dataId", some data_id)
        ∷ (codes "group", some group)
        ∷ (codes "tenant", env.namespace)
        ∷ [];
    headers = [];
  }

  abbrev after_remove :
      Text → Text → Outcome HttpError (Option Text) × World → Outcome HttpError Bool × World
  after_remove data_id group (ok _, w) = (ok true, clear_snapshot data_id group w)
  after_remove data_id group (err e, w) = (err e, w)

  -- `remove`, inside the lock of the snapshot key
  unfoldable pub remove : Text → Text → World → Outcome HttpError Bool × World
  remove data_id group w = after_remove data_id group (call w (remove_request data_id group))
