-- ===== src/Config/Client/Requests.antt =====
-- packages/nacos-config/src/client.ts: reading, publishing and removing a configuration with a
-- `DataClient` over gRPC, and packages/nacos-config/src/utils.ts: `isValid` and `checkParameters`.
-- What runs inside the lock of the snapshot key is one run of state passing.
pub mod Outages
use nacos_sdk_nodejs.Prelude.{
  ℕ, Bool, true, false, ◌&&◌, ◌||◌, not, Option, none, some, Text, Outcome, ok, err, codes, List,
  [], ◌∷◌, if◌then◌else◌, ◌==◌, leb, all, is_empty, get_or_else, or_text,
}
use nacos_sdk_nodejs.Config.Recovery.{
  SnapshotStore, DisasterRecoveryHooks, ConfigReadResult, read_config_with_failover,
}
use nacos_sdk_nodejs.Config.GrpcProxy
use nacos_sdk_nodejs.Config.GrpcProxy.{GrpcEnv, Proxy, ProxyError}

pub record ClientEnv : Type 1 where
  pub Store : Type 0
  pub snapshot : SnapshotStore Store
  -- the transport and the namespace of the `GrpcConfigProxy`
  pub grpc : GrpcEnv
  -- the client's own settings
  pub namespace : Option Text
  pub unit : Option Text
  -- `path.join` and `encodeURIComponent`
  pub join : List Text → Text
  pub encode_uri : Text → Text

-- a character that `REG_VALID_CHAR` admits
unfoldable pub is_valid_char : ℕ → Bool
is_valid_char c =
    (leb b'a' c && leb c b'z')
    || ((leb b'0' c && leb c b'9')
        || ((leb b'A' c && leb c b'Z') || (c == b'_' || (c == b'.' || (c == b'-' || c == b':')))))

-- `isValid`
unfoldable pub is_valid : Text → Bool
is_valid s = not (is_empty s) && all is_valid_char s

-- `checkParameters` of one dataId and a group, without a datumId; it throws where this is false
unfoldable pub check_parameters : Text → Text → Bool
check_parameters data_id group = is_valid data_id && is_valid group

pub data ClientError (E : Type 0) : Type 0 where
  invalid_parameter : ClientError E
  no_cas_md5 : ClientError E
  proxy_failed : E → ClientError E

-- `s || d` for a setting that may be missing
abbrev or_setting : Option Text → Text → Text
or_setting none d = d
or_setting (some s) d = or_text s d

module _ (env : ClientEnv) where
  open env use {Store, grpc, snapshot as store}

  abbrev pub Error : Type 0
  Error = ProxyError grpc.Fault

  pub record World : Type 0 where
    pub files : Store
    pub proxy : Proxy grpc
    -- the errors given to `throwError`, the last one first
    pub reported : List Error

  -- `this.snapshot`, in the whole world
  abbrev pub in_world : SnapshotStore World
  in_world = record {
    cache_dir = store.cache_dir;
    get = λ w k. let (o, s) = store.get w.files k in (o, record w { files = s });
    save = λ w k v. record w { files = store.save w.files k v };
    delete = λ w k. record w { files = store.delete w.files k };
    get_failover = λ w k. let (o, s) = store.get_failover w.files k in (o, record w { files = s });
  }

  -- `this._grpcConfigProxy`, in the whole world
  abbrev pub with_proxy :
      {A : Type 0} → World → Outcome Error A × Proxy grpc → Outcome Error A × World
  with_proxy w (o, p) = (o, record w { proxy = p })

  -- `_getSnapshotKey`
  unfoldable pub get_snapshot_key : Text → Text → Text
  get_snapshot_key data_id group = env.join (
      codes "config"
      ∷ env.encode_uri (or_setting env.unit (codes "CURRENT_UNIT"))
      ∷ env.encode_uri (or_setting env.namespace (codes "default_tenant"))
      ∷ env.encode_uri group
      ∷ env.encode_uri data_id
      ∷ [])

  -- the hooks of `_getConfigWithCache`
  unfoldable pub grpc_hooks : Text → Text → DisasterRecoveryHooks Error World
  grpc_hooks data_id group =
      let key = get_snapshot_key data_id group in
      record {
        snapshot_key = key;
        snapshot = in_world;
        fetch_from_server =
            λ w. with_proxy w (GrpcProxy.get_config grpc data_id group env.namespace w.proxy);
        read_snapshot_fallback = λ w. in_world.get w key;
        on_server_error = λ e w. record w { reported = e ∷ w.reported };
        clear_snapshot = λ w. in_world.delete w key;
      }

  -- `result.content === null ? '' : result.content`
  abbrev pub text_of :
      Outcome Error ConfigReadResult × World → Outcome (ClientError Error) Text × World
  text_of (ok r, w) = (ok (get_or_else [] r.content), w)
  text_of (err e, w) = (err (proxy_failed e), w)

  unfoldable pub get_config : Text → Text → World → Outcome (ClientError Error) Text × World
  get_config data_id group w =
      let read = text_of (read_config_with_failover (grpc_hooks data_id group) w) in
      if check_parameters data_id group then read else (err invalid_parameter, w)

  abbrev pub as_client_error :
      {A : Type 0} → Outcome Error A × World → Outcome (ClientError Error) A × World
  as_client_error (ok a, w) = (ok a, w)
  as_client_error (err e, w) = (err (proxy_failed e), w)

  unfoldable pub publish_single :
      Text → Text → Text → Option Text → World → Outcome (ClientError Error) Bool × World
  publish_single data_id group content type_ w =
      let done = as_client_error (
        with_proxy w (
          GrpcProxy.publish_single grpc data_id group env.namespace content (get_or_else [] type_)
            [] w.proxy)) in
      if check_parameters data_id group then done else (err invalid_parameter, w)

  unfoldable pub publish_config_cas :
      Text → Text → Text → Text → Option Text → World → Outcome (ClientError Error) Bool × World
  publish_config_cas data_id group content cas_md5 type_ w =
      let done = as_client_error (
        with_proxy w (
          GrpcProxy.publish_single grpc data_id group env.namespace content (get_or_else [] type_)
            cas_md5 w.proxy)) in
      if check_parameters data_id group
      then if is_empty cas_md5 then (err no_cas_md5, w) else done
      else (err invalid_parameter, w)

  -- only the server's `true` clears the local copy
  abbrev pub after_remove :
      Text → Outcome Error Bool × World → Outcome (ClientError Error) Bool × World
  after_remove key (err e, w) = (err (proxy_failed e), w)
  after_remove key (ok false, w) = (ok false, w)
  after_remove key (ok true, w) = (ok true, in_world.delete w key)

  unfoldable pub remove : Text → Text → World → Outcome (ClientError Error) Bool × World
  remove data_id group w =
      let done =
        after_remove (get_snapshot_key data_id group)
          (with_proxy w (GrpcProxy.remove grpc data_id group env.namespace w.proxy)) in
      if check_parameters data_id group then done else (err invalid_parameter, w)
