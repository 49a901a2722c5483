-- ===== src/Config/GrpcProxy.antt =====
-- packages/nacos-config/src/grpc_config_proxy.ts: `GrpcConfigProxy`, the requests of the
-- configuration client over gRPC and the contexts it listens to. The transport is a parameter.
pub mod Replay
use nacos_sdk_nodejs.Prelude.{
  ℕ, Bool, true, false, Option, none, some, Text, Outcome, ok, err, codes, List, [], ◌∷◌, ◌++◌,
  if◌then◌else◌, ◌==◌, is_empty, or_text, get_or_else,
}
use nacos_sdk_nodejs.Prelude.Dict
use nacos_sdk_nodejs.Prelude.Dict.{Dict}

pub record ListenContext : Type 0 where
  pub data_id : Text
  pub group : Text
  pub tenant : Text
  pub md5 : Text

-- what is sent, with its type; an option that is not given is the empty text
pub data Request : Type 0 where
  config_query : Text → Text → Text → Request
  config_publish : Text → Text → Text → Text → Text → Text → Request
  config_remove : Text → Text → Text → Request
  config_batch_listen : Bool → List ListenContext → Request

pub record Response : Type 0 where
  pub result_code : Option ℕ
  pub error_code : Option ℕ
  pub content : Option Text
  pub message : Text

pub data ProxyError (Fault : Type 0) : Type 0 where
  transport_failed : Fault → ProxyError Fault
  get_failed : Option ℕ → Option ℕ → Text → ProxyError Fault
  -- a property of a response that is `null`
  no_response : ProxyError Fault

pub record GrpcEnv : Type 1 where
  pub Net : Type 0
  pub Fault : Type 0
  -- `transportClient.request(request, type)`; a response may be `null`
  pub request : Request → Net → Outcome Fault (Option Response) × Net
  -- `options.namespace || 'public'`
  pub namespace : Text

abbrev pub is_code : Option ℕ → ℕ → Bool
is_code none n = false
is_code (some m) n = m == n

abbrev pub listen_key : Text → Text → Text → Text
listen_key data_id group tenant = data_id ++ (codes "@@" ++ (group ++ (codes "@@" ++ tenant)))

abbrev pub values : Dict ListenContext → List ListenContext
values [] = []
values ((k, c) ∷ d) = c ∷ values d

module _ (env : GrpcEnv) where
  open env use {Net, Fault}

  pub record Proxy : Type 0 where
    pub listen_contexts : Dict ListenContext
    pub net : Net
    -- the requests sent and the events `configChanged` emitted, the last ones first
    pub sent : List Request
    pub emitted : List (Text × Text × Text)

  -- `tenant != null ? tenant : this._namespace`
  abbrev pub resolve_tenant : Option Text → Text
  resolve_tenant t = get_or_else env.namespace t

  abbrev pub send : Request → Proxy → Outcome Fault (Option Response) × Proxy
  send r p = let (o, net) = env.request r p.net in (o, record p { net = net; sent = r ∷ p.sent })

  abbrev pub other_code : Option Response → Outcome (ProxyError Fault) (Option Text)
  other_code none = err (get_failed none none (codes "unknown error"))
  other_code (some r) =
      if is_code r.error_code 300
      then ok none
      else err (get_failed r.result_code r.error_code (or_text r.message (codes "unknown error")))

  abbrev pub judge_get :
      Outcome Fault (Option Response) × Proxy → Outcome (ProxyError Fault) (Option Text) × Proxy
  judge_get (err e, p) = (err (transport_failed e), p)
  judge_get (ok none, p) = (other_code none, p)
  judge_get (ok (some r), p) =
      if is_code r.result_code 200
      then (ok (some (get_or_else [] r.content)), p)
      else (other_code (some r), p)

  -- `getConfig`; the value none is `null`
  unfoldable pub get_config :
      Text → Text → Option Text → Proxy → Outcome (ProxyError Fault) (Option Text) × Proxy
  get_config data_id group tenant p =
      judge_get (send (config_query data_id group (resolve_tenant tenant)) p)

  abbrev pub judge_done :
      Outcome Fault (Option Response) × Proxy → Outcome (ProxyError Fault) Bool × Proxy
  judge_done (err e, p) = (err (transport_failed e), p)
  judge_done (ok none, p) = (err no_response, p)
  judge_done (ok (some r), p) = (ok (is_code r.result_code 200), p)

  unfoldable pub publish_single :
      Text
      → Text
      → Option Text
      → Text
      → Text
      → Text
      → Proxy
      → Outcome (ProxyError Fault) Bool × Proxy
  publish_single data_id group tenant content type_ cas_md5 p =
      judge_done
        (send (config_publish data_id group (resolve_tenant tenant) content type_ cas_md5) p)

  unfoldable pub remove :
      Text → Text → Option Text → Proxy → Outcome (ProxyError Fault) Bool × Proxy
  remove data_id group tenant p =
      judge_done (send (config_remove data_id group (resolve_tenant tenant)) p)

  abbrev pub thrown : Outcome Fault (Option Response) → Option Fault
  thrown (ok r) = none
  thrown (err e) = some e

  -- `_sendBatchListen`, and the error it throws
  unfoldable pub send_batch_listen : List ListenContext → Bool → Proxy → Option Fault × Proxy
  send_batch_listen [] listen p = (none, p)
  send_batch_listen (c ∷ cs) listen p =
      let (o, p') = send (config_batch_listen listen (c ∷ cs)) p in (thrown o, p')

  -- `addListener`, and the error it throws
  unfoldable pub add_listener : Text → Text → Text → Option Text → Proxy → Option Fault × Proxy
  add_listener data_id group md5 tenant p =
      let t = resolve_tenant tenant in
      let ctx : ListenContext = record {
        data_id = data_id;
        group = group;
        tenant = t;
        md5 = md5;
      } in
      send_batch_listen (ctx ∷ []) true
        (record p { listen_contexts = Dict.set (listen_key data_id group t) ctx p.listen_contexts })

  abbrev pub drop_context : Text → Option ListenContext → Proxy → Proxy
  drop_context key none p = p
  drop_context key (some ctx) p =
      (send_batch_listen (ctx ∷ []) false
        (record p { listen_contexts = Dict.delete key p.listen_contexts })).1

  -- `removeListener`: an error of the request is not thrown again
  unfoldable pub remove_listener : Text → Text → Option Text → Proxy → Proxy
  remove_listener data_id group tenant p =
      let key = listen_key data_id group (resolve_tenant tenant) in
      drop_context key (Dict.get key p.listen_contexts) p

  -- `_onReconnect`
  unfoldable pub on_reconnect : Proxy → Proxy
  on_reconnect p = (send_batch_listen (values p.listen_contexts) true p).1

  -- `_onConfigChangeNotify`, with the fields `tenant` and `namespace` of the push
  unfoldable pub on_config_change_notify : Text → Text → Text → Text → Proxy → Proxy
  on_config_change_notify data_id group tenant namespace p = record p {
    emitted = (data_id, group, or_text tenant (or_text namespace env.namespace)) ∷ p.emitted;
  }

  unfoldable pub close : Proxy → Proxy
  close p = record p { listen_contexts = [] }
