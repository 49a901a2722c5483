-- ===== src/Config/HttpAgent.antt =====
-- packages/nacos-config/src/http_agent.ts: `HttpAgent.request`, the HTTP requests of the
-- configuration client. The server list, the HTTP client, the clock, `encodingParams` and the
-- decoding of the response are parameters. The loop `do … while (Date.now() < endTime)` runs on fuel.
-- The headers that are signed with credentials are a parameter too.
pub mod Retries
use nacos_sdk_nodejs.Prelude.{
  ℕ, zero, suc, ◌+◌, ◌-◌, Bool, true, false, ◌&&◌, ◌||◌, Option, none, some, Text, codes, Outcome,
  ok, err, List, [], ◌∷◌, ◌++◌, if◌then◌else◌, ◌==◌, ltb, is_empty, or_text,
}

pub record HttpResponse : Type 0 where
  pub status : ℕ
  pub body : Text

-- what can be thrown
pub data HttpError (Fault : Type 0) : Type 0 where
  -- an error of the HTTP client, with the method and URL added
  fault : Fault → Text → HttpError Fault
  -- an error of the server list, not caught
  no_server : Fault → HttpError Fault
  server_conflict : HttpError Fault
  server_response : ℕ → Text → Text → HttpError Fault

pub record AgentEnv : Type 1 where
  -- the server list and the network
  pub Net : Type 0
  pub Fault : Type 0
  pub Data : Type 0
  -- `err.code === dns.NOTFOUND`
  pub is_dns_not_found : Fault → Bool
  pub get_current_server_addr : Text → Net → Outcome Fault Text × Net
  pub update_current_server : Text → Net → Outcome Fault (Unit {0}) × Net
  -- `httpclient.request(url, { method, data, headers, … })`
  pub request : Text → Text → Data → List (Text × Text) → Net → Outcome Fault HttpResponse × Net
  -- `Date.now()`
  pub now : Net → ℕ
  pub encoding_params : Data → Data
  -- `data.username = …; data.password = …`
  pub add_login : Text → Text → Data → Data
  -- `buildConfigAuthHeaders` of the resolved credentials; the resolution can fail
  pub auth_headers : Data → Net → Outcome Fault (List (Text × Text)) × Net
  -- `decodeRes` of the configuration, or `decodeResData`, which may throw
  pub decode : HttpResponse → Text → Outcome Fault Text
  pub username : Text
  pub password : Text
  pub identity_key : Text
  pub identity_value : Text
  pub unit : Text
  pub request_timeout : ℕ
  pub ssl : Bool
  pub server_port : Text
  pub context_path : Text

-- an empty text stands for an option that is `undefined`
pub record Options (Data : Type 0) : Type 0 where
  pub unit : Text
  pub encode : Bool
  pub method : Text
  pub body : Data
  pub timeout : Option ℕ
  pub headers : List (Text × Text)

-- `/:/.test(server)`
pub has_colon : Text → Bool
has_colon [] = false
has_colon (c ∷ cs) = c == b':' || has_colon cs

module _ (env : AgentEnv) where
  open env use {Net, Fault, Data}

  -- `getRequestUrl`
  pub get_request_url : Text → Text
  get_request_url server =
      let scheme = if env.ssl then codes "https://" else codes "http://" in
      let host = if has_colon server then server else server ++ (codes ":" ++ env.server_port) in
      scheme ++ (host ++ (codes "/" ++ or_text env.context_path (codes "nacos")))

  -- what one request comes to: the value, a throw, or an error to retry after
  pub data Verdict : Type 0 where
    returns : Option Text → Verdict
    throws : HttpError Fault → Verdict
    retries : HttpError Fault → Verdict

  -- the `catch` block: an error of the name service is thrown
  abbrev pub caught : Text → Text → Fault → Verdict
  caught url method e =
      if env.is_dns_not_found e
      then throws (fault e url)
      else retries (fault e (method ++ (codes " " ++ url)))

  abbrev pub decoded : Text → Text → Outcome Fault Text → Verdict
  decoded url method (ok text) = returns (some text)
  decoded url method (err e) = caught url method e

  unfoldable pub judge : Text → Text → Outcome Fault HttpResponse → Verdict
  judge url method (ok res) =
      if res.status == 200
      then decoded url method (env.decode res method)
      else (if res.status == 404
          then returns none
          else (if res.status == 409
              then retries server_conflict
              else retries (server_response res.status url res.body)))
  judge url method (err e) = caught url method e

  -- the state, and the servers that were asked, the last one first
  pub record Agent : Type 0 where
    pub net : Net
    pub asked : List Text

  abbrev pub Result : Type 0
  Result = Option (Outcome (HttpError Fault) (Option Text)) × Agent

  -- one request to the current server
  unfoldable pub ask : Text → Text → Text → Data → List (Text × Text) → Agent → Verdict × Agent
  ask server path method body headers a =
      let url = get_request_url server ++ path in
      let (o, net) = env.request url method body headers a.net in
      (judge url method o, record { net = net; asked = server ∷ a.asked })

  abbrev pub update : Text → Agent → Outcome Fault (Unit {0}) × Agent
  update unit a = let (o, net) = env.update_current_server unit a.net in (o, record a { net = net })

  abbrev pub current_server : Text → Agent → Outcome Fault Text × Agent
  current_server unit a =
      let (o, net) = env.get_current_server_addr unit a.net in (o, record a { net = net })

  -- the end of a round: the next server, and another round before the end time
  abbrev pub next_round :
      ℕ → HttpError Fault → Outcome Fault (Unit {0}) × Agent → (Agent → Result) → Result
  next_round end_time e (err x, a) again = (some (err (no_server x)), a)
  next_round end_time e (ok u, a) again =
      if ltb (env.now a.net) end_time then again a else (some (err e), a)

  abbrev pub after_ask : Text → ℕ → Verdict × Agent → (Agent → Result) → Result
  after_ask unit end_time (returns v, a) again = (some (ok v), a)
  after_ask unit end_time (throws e, a) again = (some (err e), a)
  after_ask unit end_time (retries e, a) again = next_round end_time e (update unit a) again

  abbrev pub with_server : Outcome Fault Text × Agent → (Text → Agent → Result) → Result
  with_server (err e, a) f = (some (err (no_server e)), a)
  with_server (ok server, a) f = f server a

  -- the loop; none where the fuel does not do
  unfoldable pub loop : ℕ → Text → ℕ → Text → Text → Data → List (Text × Text) → Agent → Result
  loop zero unit end_time path method body headers a = (none, a)
  loop (suc fuel) unit end_time path method body headers a =
      with_server (current_server unit a) (λ server b.
        after_ask unit end_time (ask server path method body headers b)
          (λ c. loop fuel unit end_time path method body headers c))

  abbrev timeout_of : Option ℕ → ℕ
  timeout_of none = env.request_timeout
  timeout_of (some t) = t

  abbrev pub login : Data → Data
  login body =
      if is_empty env.username || is_empty env.password
      then body
      else env.add_login env.username env.password body

  abbrev identity : List (Text × Text)
  identity = if is_empty env.identity_key then [] else (env.identity_key, env.identity_value) ∷ []

  -- `request`; the login is put into the data before its encoding
  unfoldable pub request : ℕ → Text → Options Data → Net → Result
  request fuel path o net =
      let body = login o.body in
      let (signed, net') = env.auth_headers body net in
      elim signed [
        | err e ↦ (some (err (no_server e)), record { net = net'; asked = [] })
        | ok signature ↦
            loop fuel (or_text o.unit env.unit) (env.now net + timeout_of o.timeout) path
              (or_text o.method (codes "GET")) (if o.encode then env.encoding_params body else body)
              (o.headers ++ (signature ++ identity)) (record { net = net'; asked = [] })
      ]
