-- ===== src/Naming/Proxy.antt =====
-- packages/nacos-naming/src/naming/proxy.ts: `NamingProxy`, the naming requests over HTTP. The call
-- of one server (`_callServer`) sends the request through the HTTP client, a parameter, and judges
-- the status; `_reqAPI` goes round the servers.
pub mod Rounds
pub mod Requests
pub mod Refresh
use nacos_sdk_nodejs.Prelude.{
  ℕ, zero, suc, ◌+◌, ◌-◌, ◌%◌, Bool, true, false, ◌&&◌, ◌||◌, Option, none, some, Text, Outcome, ok,
  err, codes, List, [], ◌∷◌, ◌++◌, length, get_elem?, if◌then◌else◌, ◌==◌, is_empty, get_or_else,
  ltb,
}

pub record HttpResult : Type 0 where
  pub status : ℕ
  pub body : Text

pub record ProxyEnv : Type 1 where
  pub Net : Type 0
  pub HttpError : Type 0
  -- `httpclient.request(url, { method, data, … })`, with the signature of `_checkSignature`
  pub request : Net → Text → Text → List (Text × Text) → Outcome HttpError HttpResult × Net
  -- `utility.random(size)`
  pub random : Net → ℕ → ℕ
  pub ssl : Bool
  pub username : Text
  pub password : Text
  pub namespace : Text

pub data CallError (HttpError : Type 0) : Type 0 where
  client_error : HttpError → CallError HttpError
  -- `NacosException`, with the status
  nacos_exception : ℕ → CallError HttpError

pub data ReqError : Type 0 where
  no_server_available : ReqError
  -- after all servers, or the domain three times
  all_tried : List Text → ReqError

-- `addr.includes(':')`
unfoldable pub includes_colon : Text → Bool
includes_colon [] = false
includes_colon (c ∷ cs) = c == b':' || includes_colon cs

abbrev pub with_port : Text → Text
with_port addr = if includes_colon addr then addr else addr ++ codes ":8848"

module _ (env : ProxyEnv) where
  open env use {Net, HttpError}

  -- the net, and the servers that were called and failed, the last one first
  pub record Proxy : Type 0 where
    pub net : Net
    pub failed : List Text

  abbrev judge : Outcome HttpError HttpResult → Outcome (CallError HttpError) Text
  judge (err e) = err (client_error e)
  judge (ok r) =
      if r.status == 200
      then ok r.body
      else (if r.status == 304 then ok [] else err (nacos_exception r.status))

  abbrev full_params : List (Text × Text) → List (Text × Text)
  full_params params =
      let named = params ++ (codes "namespaceId", env.namespace) ∷ [] in
      if is_empty env.username || is_empty env.password
      then named
      else named ++ ((codes "username", env.username) ∷ (codes "password", env.password) ∷ [])

  -- `_callServer`
  unfoldable pub call_server :
      Net → Text → Text → Text → List (Text × Text) → Outcome (CallError HttpError) Text × Net
  call_server net addr method api params =
      let url =
        (if env.ssl then codes "https://" else codes "http://") ++ (with_port addr ++ api) in
      let (o, net') = env.request net url method (full_params params) in (judge o, net')

  -- one round of a loop: return, or note the failure and go on
  abbrev pub settle :
      Text
      → Outcome (CallError HttpError) Text × Net
      → List Text
      → (Proxy → Outcome ReqError Text × Proxy)
      → Outcome ReqError Text × Proxy
  settle server (ok body, net) failed rest = (ok body, record { net = net; failed = failed })
  settle server (err e, net) failed rest = rest (record { net = net; failed = server ∷ failed })

  abbrev pub server_at : List Text → ℕ → Text
  server_at servers i = get_or_else [] (get_elem? servers i)

  -- `for (let i = 0; i < size; i++)`, with `rounds` rounds left
  unfoldable pub try_servers :
      (call : Net → Text → Outcome (CallError HttpError) Text × Net) (servers : List Text)
      → ℕ
      → ℕ
      → Proxy
      → Outcome ReqError Text × Proxy
  try_servers call servers zero index p = (err (all_tried servers), p)
  try_servers call servers (suc rounds) index p =
      let server = server_at servers index in
      settle server (call p.net server) p.failed
        (λ q. try_servers call servers rounds ((index + 1) % length servers) q)

  -- the loop over the one domain
  unfoldable pub try_domain :
      (call : Net → Text → Outcome (CallError HttpError) Text × Net) (domain : Text)
      → ℕ
      → Proxy
      → Outcome ReqError Text × Proxy
  try_domain call domain zero p = (err (all_tried (domain ∷ [])), p)
  try_domain call domain (suc rounds) p =
      settle domain (call p.net domain) p.failed (λ q. try_domain call domain rounds q)

  abbrev pub choose_servers : List Text → List Text → List Text
  choose_servers [] from_endpoint = from_endpoint
  choose_servers (s ∷ ss) from_endpoint = s ∷ ss

  abbrev go :
      Text
      → Text
      → List (Text × Text)
      → List Text
      → Option Text
      → Net
      → Outcome ReqError Text × Proxy
  go api method params [] none net = (err no_server_available, record { net = net; failed = [] })
  go api method params [] (some domain) net =
      try_domain (λ n server. call_server n server method api params) domain 3
        (record { net = net; failed = [] })
  go api method params (s ∷ ss) domain net =
      try_servers (λ n server. call_server n server method api params) (s ∷ ss) (length (s ∷ ss))
        (env.random net (length (s ∷ ss))) (record { net = net; failed = [] })

  -- `_reqAPI`, over the configured servers, those of the endpoint and the domain
  unfoldable pub req_api :
      List Text
      → List Text
      → Option Text
      → Text
      → List (Text × Text)
      → Text
      → Net
      → Outcome ReqError Text × Proxy
  req_api server_list from_endpoint domain api params method net =
      go api method params (choose_servers server_list from_endpoint) domain net
