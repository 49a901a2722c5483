-- ===== src/Config/Worker/Env.antt =====
-- packages/nacos-config/src/client_worker.ts: what a `ClientWorker` works with, and its keys.
use nacos_sdk_nodejs.Prelude.{
  Bool, Option, none, some, Text, Outcome, codes, List, [], ◌∷◌, ◌++◌, or_text,
}
use nacos_sdk_nodejs.Config.Recovery.{SnapshotStore}

-- The request options of `HttpAgent.request`; a value that is `undefined` is none.
pub record HttpRequest : Type 0 where
  pub path : Text
  pub method : Text
  pub encode : Bool
  pub data_as_query_string : Bool
  pub fields : List (Text × Option Text)
  pub headers : List (Text × Text)

-- The configuration of a worker, and what it calls: `HttpAgent`, `ISnapshot`, `path.join`,
-- `encodeURIComponent`, `decodeURIComponent` (none where it throws) and `getMD5String` of a text.
pub record Env : Type 1 where
  pub Store : Type 0
  pub Net : Type 0
  pub HttpError : Type 0
  pub error_name : HttpError → Text
  pub error_body : HttpError → Text
  pub snapshot : SnapshotStore Store
  pub request : Net → HttpRequest → Outcome HttpError (Option Text) × Net
  pub join : List Text → Text
  pub encode_uri : Text → Text
  pub decode_uri : Text → Option Text
  pub md5 : Text → Text
  pub unit : Text
  pub namespace : Option Text
  pub app_name : Option Text

-- `apiRoutePath`
abbrev pub configs_path : Text
configs_path = codes "/v1/cs/configs"

abbrev pub listener_path : Text
listener_path = codes "/v1/cs/configs/listener"

-- `s || d` for a text that may be `undefined`
abbrev pub or_default : Option Text → Text → Text
or_default none d = d
or_default (some s) d = or_text s d

module _ (env : Env) where
  open env use {unit, namespace, encode_uri, join}

  pub format_key : Text → Text → Text
  format_key data_id group = data_id ++ (codes "@" ++ (group ++ (codes "@" ++ unit)))

  unfoldable pub get_snapshot_key_encoded : Text → Text → Text
  get_snapshot_key_encoded data_id group =
      let tenant = or_default namespace (codes "default_tenant") in
      join (
        codes "config"
        ∷ encode_uri unit
        ∷ encode_uri tenant
        ∷ encode_uri group
        ∷ encode_uri data_id
        ∷ [])

  unfoldable pub get_snapshot_key_legacy : Text → Text → Text
  get_snapshot_key_legacy data_id group =
      let tenant = or_default namespace (codes "default_tenant") in
      join (codes "config" ∷ unit ∷ tenant ∷ group ∷ data_id ∷ [])
