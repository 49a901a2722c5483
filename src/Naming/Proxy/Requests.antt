-- ===== src/Naming/Proxy/Requests.antt =====
-- packages/nacos-naming/src/naming/proxy.ts: the calls of `NamingProxy`, each of which makes one request
-- of `_reqAPI`, its constructor and the refresh of the servers from the endpoint.
use nacos_sdk_nodejs.Prelude.{
  ℕ, ◌+◌, Bool, true, false, ◌&&◌, Option, none, some, Text, Outcome, ok, err, codes, List, [], ◌∷◌,
  ◌++◌, map, if◌then◌else◌, ◌==◌, ltb, get_or_else, text_eq,
}
use nacos_sdk_nodejs.Prelude.Dict.{Dict}
use nacos_sdk_nodejs.Prelude.Emitter.{is_nil}
use nacos_sdk_nodejs.Prelude.Numbers.{decimal}
use nacos_sdk_nodejs.Common.Address.{Port, port_number, parse_server_address}
use nacos_sdk_nodejs.Naming.Instance.{InstanceOptions}
use nacos_sdk_nodejs.Naming.Proxy.{ProxyEnv, HttpResult, ReqError, req_api}
use nacos_sdk_nodejs.Naming.Names.{push_first}

pub record ServiceListResult : Type 0 where
  pub count : ℕ
  pub names : List Text

-- what the calls use besides the HTTP client
pub record CallsEnv : Type 1 where
  pub proxy : ProxyEnv
  -- `httpclient.request(url, { method: 'GET', … })` for the endpoint
  pub get : proxy.Net → Text → Outcome proxy.HttpError HttpResult × proxy.Net
  pub now : proxy.Net → ℕ
  pub endpoint : Option Text
  pub refresh_interval : ℕ
  pub local_ip : Text
  -- `JSON.stringify` of metadata and of a beat, given by its service name
  pub stringify_metadata : Dict Text → Text
  -- the field `status` of a JSON text; none where it is missing or the text is no JSON
  pub status_of : Text → Option Text
  -- the field `clientBeatInterval` of a JSON text, where it is truthy
  pub interval_of : Text → Option ℕ
  -- the fields `count` and `doms`; none where `JSON.parse` throws
  pub list_of : Text → Option ServiceListResult

abbrev pub default_port : Port
default_port = port_number 8848

abbrev pub port_text : Port → Text
port_text p = if p.is_negative then b'-' ∷ decimal p.size else decimal p.size

abbrev pub bool_text : Bool → Text
bool_text b = if b then codes "true" else codes "false"

-- an address of the list, with its port
unfoldable pub normal_address : Text → Text
normal_address addr =
    let parsed = parse_server_address addr default_port in
    parsed.host ++ (b':' ∷ port_text parsed.port)

-- `content.split('\r\n')`
unfoldable pub split_lines : Text → List Text
split_lines [] = [] ∷ []
split_lines (c ∷ []) = (c ∷ []) ∷ []
split_lines (c ∷ e ∷ s) = elim (c == 13 && e == 10) [
  | true ↦ [] ∷ split_lines s
  | false ↦ push_first c (split_lines (e ∷ s))
]

abbrev pub single : List Text → Option Text
single [] = none
single (s ∷ []) = some s
single (s ∷ t ∷ ss) = none

module _ (env : CallsEnv) where
  open env use {proxy}

  pub record NamingProxy : Type 0 where
    pub server_list : List Text
    pub nacos_domain : Option Text
    pub servers_from_endpoint : List Text
    pub last_srv_ref_time : ℕ
    pub closed : Bool
    pub net : proxy.Net
    -- the requests to the endpoint, counted
    pub fetches : ℕ

  -- the constructor, over the list of servers, which a text is split into before
  unfoldable pub new_proxy : List Text → proxy.Net → NamingProxy
  new_proxy raw net =
      let servers = map normal_address raw in
      record {
        server_list = servers;
        nacos_domain = single servers;
        servers_from_endpoint = [];
        last_srv_ref_time = 0;
        closed = false;
        net = net;
        fetches = 0;
      }

  -- `_getServerListFromEndpoint`; none where it throws
  abbrev pub endpoint_servers : Outcome proxy.HttpError HttpResult → Option (List Text)
  endpoint_servers (err e) = none
  endpoint_servers (ok r) = if r.status == 200 then some (split_lines r.body) else none

  abbrev pub take_servers : Option (List Text) → NamingProxy → NamingProxy
  take_servers none p = p
  take_servers (some list) p = record p {
    servers_from_endpoint = list;
    last_srv_ref_time = env.now p.net;
  }

  abbrev pub endpoint_url : Text
  endpoint_url =
      codes "http://" ++ (get_or_else (codes "null") env.endpoint ++ codes "/nacos/serverlist")

  unfoldable pub fetch_servers : NamingProxy → NamingProxy
  fetch_servers p =
      let (o, net) = env.get p.net endpoint_url in
      take_servers (endpoint_servers o) (record p { net = net; fetches = p.fetches + 1 })

  -- `Date.now() - lastSrvRefTime < vipSrvRefInterMillis`
  abbrev pub is_recent : NamingProxy → Bool
  is_recent p = ltb (env.now p.net) (p.last_srv_ref_time + env.refresh_interval)

  -- `_refreshSrvIfNeed`; the list that an answer gives is never empty
  unfoldable pub refresh_srv_if_need : NamingProxy → NamingProxy
  refresh_srv_if_need p =
      let fetched = fetch_servers p in
      if is_nil p.server_list then (if is_recent p then p else fetched) else p

  unfoldable pub init : NamingProxy → NamingProxy
  init p = elim env.endpoint [ none ↦ p | some e ↦ refresh_srv_if_need p ]

  -- a round of `_refreshLoop`, once its pause is over
  unfoldable pub refresh_loop : NamingProxy → NamingProxy
  refresh_loop p = let fresh = refresh_srv_if_need p in if p.closed then p else fresh

  unfoldable pub close : NamingProxy → NamingProxy
  close p = record p { closed = true }

  abbrev pub Result : Type 0 → Type 0
  Result A = Outcome ReqError A × NamingProxy

  -- `_reqAPI` over the proxy's own servers
  unfoldable pub call_api : Text → Text → List (Text × Text) → NamingProxy → Result Text
  call_api api method params p =
      let (o, q) =
        req_api proxy p.server_list p.servers_from_endpoint p.nacos_domain api params method
          p.net in
      (o, record p { net = q.net })

  abbrev pub instance_url : Text
  instance_url = codes "/nacos/v1/ns/instance"

  -- The parameter `namespaceId` of the source's lists is the one that `_callServer` sets. An
  -- instance has all its fields here (it is an `Instance`).
  unfoldable pub register_service : Text → Text → InstanceOptions → NamingProxy → Result Text
  register_service service_name group_name i p =
      call_api instance_url (codes "POST")
        ((codes "serviceName", service_name)
          ∷ (codes "groupName", group_name)
          ∷ (codes "clusterName", get_or_else [] i.cluster_name)
          ∷ (codes "ip", i.ip)
          ∷ (codes "port", decimal i.port)
          ∷ (codes "weight", decimal (get_or_else 0 i.weight))
          ∷ (codes "enable", bool_text (get_or_else false i.enabled))
          ∷ (codes "healthy", bool_text (get_or_else false i.healthy))
          ∷ (codes "ephemeral", bool_text (get_or_else false i.ephemeral))
          ∷ (codes "metadata", env.stringify_metadata (get_or_else [] i.metadata))
          ∷ [])
        p

  unfoldable pub deregister_service : Text → InstanceOptions → NamingProxy → Result Text
  deregister_service service_name i p =
      call_api instance_url (codes "DELETE")
        ((codes "serviceName", service_name)
          ∷ (codes "clusterName", get_or_else [] i.cluster_name)
          ∷ (codes "ip", i.ip)
          ∷ (codes "port", decimal i.port)
          ∷ (codes "ephemeral", bool_text (get_or_else true i.ephemeral))
          ∷ [])
        p

  unfoldable pub query_list : Text → Text → ℕ → Bool → NamingProxy → Result Text
  query_list service_name clusters udp_port healthy_only p =
      call_api (codes "/nacos/v1/ns/instance/list") (codes "GET")
        ((codes "serviceName", service_name)
          ∷ (codes "clusters", clusters)
          ∷ (codes "udpPort", decimal udp_port)
          ∷ (codes "clientIP", env.local_ip)
          ∷ (codes "healthyOnly", bool_text healthy_only)
          ∷ [])
        p

  abbrev pub is_up : Option Text → Bool
  is_up none = false
  is_up (some s) = text_eq s (codes "UP")

  abbrev pub judge_health : Result Text → Bool × NamingProxy
  judge_health (err e, p) = (false, p)
  judge_health (ok str, p) = (is_up (env.status_of str), p)

  unfoldable pub server_healthy : NamingProxy → Bool × NamingProxy
  server_healthy p =
      judge_health (call_api (codes "/nacos/v1/ns/operator/metrics") (codes "GET") [] p)

  -- `DEFAULT_DELAY`
  abbrev pub default_delay : ℕ
  default_delay = 5000

  abbrev pub beat_interval : Result Text → ℕ × NamingProxy
  beat_interval (err e, p) = (default_delay, p)
  beat_interval (ok str, p) = (get_or_else default_delay (env.interval_of str), p)

  -- `sendBeat`, given the beat's JSON text and its service: it never throws
  unfoldable pub send_beat : Text → Text → NamingProxy → ℕ × NamingProxy
  send_beat beat service_name p = beat_interval (
      call_api (codes "/nacos/v1/ns/instance/beat") (codes "PUT")
        ((codes "beat", beat) ∷ (codes "serviceName", service_name) ∷ []) p)

  unfoldable pub get_service_list :
      ℕ → ℕ → Option Text → NamingProxy → Outcome ReqError (Option ServiceListResult) × NamingProxy
  get_service_list page_no page_size group_name p =
      let (o, q) =
        call_api (codes "/nacos/v1/ns/service/list") (codes "GET")
          ((codes "pageNo", decimal page_no)
            ∷ (codes "pageSize", decimal page_size)
            ∷ (codes "groupName", get_or_else [] group_name)
            ∷ [])
          p in
      (listed o, q)
    where
      listed : Outcome ReqError Text → Outcome ReqError (Option ServiceListResult)
      listed (err e) = err e
      listed (ok t) = ok (env.list_of t)
