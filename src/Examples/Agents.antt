-- ===== src/Examples/Agents.antt =====
-- A server list with one server, which is down, and a clock that counts the requests.
use nacos_sdk_nodejs.Prelude.{ℕ, ◌+◌, refl, false, some, codes, ok, err, [], arith}
use nacos_sdk_nodejs.Config.HttpAgent.{AgentEnv, Options, request}
use nacos_sdk_nodejs.Config.HttpAgent.Retries.{Ticks, Ends, request-Ends}

abbrev env : AgentEnv
env = record {
  Net = ℕ;
  Fault = Unit {0};
  Data = Unit {0};
  is_dns_not_found = λ e. false;
  get_current_server_addr = λ unit n. (ok (codes "a"), n);
  update_current_server = λ unit n. (ok tt, n);
  request = λ url method body headers n. (err tt, n + 1);
  now = λ n. n;
  encoding_params = λ b. b;
  add_login = λ u p b. b;
  auth_headers = λ b n. (ok [], n);
  decode = λ r m. ok r.body;
  username = [];
  password = [];
  identity_key = [];
  identity_value = [];
  unit = codes "u";
  request_timeout = 5;
  ssl = false;
  server_port = codes "8848";
  context_path = [];
}

env-Ticks : Ticks env
env-Ticks = record {
  server = λ unit net. omega arith;
  update = λ unit net. omega arith;
  sign = λ b net. omega arith;
  request = λ url method b headers net. omega arith;
}

abbrev options : Options env.Data
options = record {
  unit = [];
  encode = false;
  method = [];
  body = tt;
  timeout = some 3;
  headers = [];
}

request-Ends_example : Ends env 4 (request env 4 (codes "/x") options 0)
request-Ends_example = request-Ends env env-Ticks (codes "/x") options 3 0 refl
