-- ===== src/Examples/Beats.antt =====
-- A naming client over HTTP whose server is down, and its options for Alibaba Cloud.
use nacos_sdk_nodejs.Prelude.{ℕ, ◌≡◌, refl, true, false, none, some, Text, codes, ok, err, [], ◌∷◌}
use nacos_sdk_nodejs.Prelude.Emitter.{has_listener}
use nacos_sdk_nodejs.Naming.Names.{get_grouped_name}
use nacos_sdk_nodejs.Naming.Instance.{InstanceOptions, new_instance}
use nacos_sdk_nodejs.Naming.BeatReactor.{
  BeatInfo, Reactor, here, next, adds, new_reactor, add_beat_info, woke, start_beat, next_round,
  start_round,
}
use nacos_sdk_nodejs.Naming.BeatReactor.Rounds.{values, round_beats_all}
use nacos_sdk_nodejs.Naming.Client.{NamingTransport, Client, register_instance, beat_of}
use nacos_sdk_nodejs.Naming.Client.Beats.{registered_is_beaten}
use nacos_sdk_nodejs.Naming.Proxy.{ProxyEnv}
use nacos_sdk_nodejs.Naming.Proxy.Requests.{CallsEnv, NamingProxy}
use nacos_sdk_nodejs.Config.Auth.{unset}
use nacos_sdk_nodejs.Config.Auth.Sources as ConfigSources
use nacos_sdk_nodejs.Naming.Auth.{NamingAuthEnv, Auth}
use nacos_sdk_nodejs.Naming.Auth.Sources as NamingSources
use nacos_sdk_nodejs.Naming.Auth.Translation.{as_config, forget_auth, forget_result}
use nacos_sdk_nodejs.Naming.Auth.Agreement.{resolve-agrees}

abbrev info : BeatInfo
info = record {
  service_name = codes "g@@s";
  ip = codes "1.1.1.1";
  port = 80;
  cluster = codes "DEFAULT";
  weight = 1;
  metadata = [];
}

abbrev one : Reactor
one = add_beat_info (codes "g@@s") info new_reactor

round_beats_all_example : has_listener 0 (woke one).round ≡ has_listener 0 (values one.dom2beat)
unfolding add_beat_info new_reactor start_beat next_round start_round
round_beats_all_example = round_beats_all 0 (next here (adds (codes "g@@s") info)) refl refl

abbrev transport : NamingTransport (Unit {0}) Text
transport = record {
  register_service = λ s g i u. (err (codes "down"), u);
  deregister_service = λ s i u. (err (codes "down"), u);
  server_healthy = λ u. (false, u);
  close = λ u. u;
}

abbrev options : InstanceOptions
options = record {
  instance_id = none;
  ip = codes "1.1.1.1";
  port = 80;
  weight = none;
  valid = none;
  healthy = none;
  enabled = none;
  ephemeral = none;
  cluster_name = none;
  service_name = none;
  metadata = none;
}

abbrev client : Client (Unit {0})
client = record { server_proxy = tt; beat_reactor = some new_reactor }

registered_is_beaten_example :
    (r' : Reactor) × ((register_instance transport
        (codes "s")
        options
        (codes "g")
        client).1.beat_reactor
      ≡ some r')
    × (has_listener new_reactor.count (woke r').round ≡ true)
    × (r'.infos new_reactor.count
        ≡ beat_of (get_grouped_name (codes "s") (codes "g")) (new_instance options))
unfolding new_instance new_reactor start_beat next_round start_round
registered_is_beaten_example =
    registered_is_beaten transport (codes "s") (codes "g") options client new_reactor refl here refl
      refl refl

abbrev net_env : ProxyEnv
net_env = record {
  Net = ℕ;
  HttpError = Unit {0};
  request = λ n m u d. (err tt, n);
  random = λ n size. 0;
  ssl = false;
  username = [];
  password = [];
  namespace = codes "public";
}

abbrev calls : CallsEnv
calls = record {
  proxy = net_env;
  get = λ n url. (ok (record { status = 200; body = codes "a" }), n);
  now = λ n. n;
  endpoint = some (codes "e");
  refresh_interval = 30000;
  local_ip = codes "127.0.0.1";
  stringify_metadata = λ d. [];
  status_of = λ t. none;
  interval_of = λ t. none;
  list_of = λ t. none;
}

abbrev proxy : NamingProxy calls
proxy = record {
  server_list = [];
  nacos_domain = none;
  servers_from_endpoint = [];
  last_srv_ref_time = 0;
  closed = false;
  net = 40000;
  fetches = 0;
}

-- a secret under the option `accessKeySecret`, and a provider that gives a key
abbrev auth : NamingAuthEnv
auth = record {
  Net = Unit {0};
  Provider = Unit {0};
  call_provider = λ p n. (
    ok (record {
      access_key_ids = some (codes "id") ∷ [];
      access_key_secrets = [];
      security_tokens = [];
      signature_region_id = none;
      expirations = [];
    }),
    n,
  );
  request = λ url n. (none, n);
  parse = λ t. none;
  parse_date = λ t. none;
  ak = none;
  sk = none;
  access_key = none;
  access_key_id = some (codes "k");
  alibaba_access_key_id = none;
  secret_key = none;
  access_key_secret = some (codes "s");
  alibaba_access_key_secret = none;
  configured_token = none;
  alibaba_token = none;
  region = some (codes "r");
  env_access_key_id = none;
  env_access_key_secret = none;
  env_token = none;
  env_region = none;
  env_credentials_uri = none;
  aliyun_provider = some tt;
  alibaba_provider = none;
  security_credentials = none;
  raw_security_credentials = none;
  credentials_uri = none;
  ram_role_name = none;
  raw_ram_role_name = none;
  security_credentials_url = none;
  raw_security_credentials_url = none;
  app_name = some (codes "app");
  cache_setting = unset;
  raw_cache_setting = unset;
  refresh_before_expire = 180000;
}

abbrev no_cache : Auth auth
no_cache = record { net = tt; now = 0; cache = none }

resolve-agrees_example :
    forget_result auth (NamingSources.resolve auth no_cache)
    ≡ ConfigSources.resolve (as_config auth) (forget_auth auth no_cache)
resolve-agrees_example = resolve-agrees auth no_cache
