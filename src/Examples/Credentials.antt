-- ===== src/Examples/Credentials.antt =====
-- A configuration whose credentials come from an endpoint, and one with keys of its own.
use nacos_sdk_nodejs.Prelude.{ℕ, Option, none, some, Text, codes, ok, []}
use nacos_sdk_nodejs.Config.Auth.{
  AuthEnv, AliyunCredentials, Auth, unset, set_cached_credentials, cache_key,
}

abbrev nothing : Option Text
nothing = none

abbrev env : AuthEnv
env = record {
  Net = Unit {0};
  Provider = Unit {0};
  call_provider = λ p n. (
    ok (record {
      access_key_ids = [];
      access_key_secrets = [];
      security_tokens = [];
      signature_region_id = none;
      expirations = [];
    }),
    n,
  );
  request = λ url n. (none, n);
  parse = λ t. none;
  parse_date = λ t. some 1000;
  access_key = some (codes "ak");
  secret_key = some (codes "sk");
  alibaba_access_key_id = none;
  alibaba_access_key_secret = none;
  configured_token = none;
  alibaba_token = none;
  region = none;
  env_access_key_id = some (codes "other");
  env_access_key_secret = none;
  env_token = some (codes "token");
  env_region = some (codes "r");
  env_credentials_uri = none;
  aliyun_provider = none;
  alibaba_provider = none;
  security_credentials = none;
  raw_security_credentials = none;
  credentials_uri = none;
  ram_role_name = none;
  raw_ram_role_name = none;
  security_credentials_url = none;
  raw_security_credentials_url = none;
  cache_setting = unset;
  raw_cache_setting = unset;
  refresh_before_expire = 100;
}

abbrev credentials : AliyunCredentials
credentials = record {
  access_key_id = some (codes "ak");
  access_key_secret = some (codes "sk");
  security_token = none;
  signature_region_id = none;
  expiration = some (codes "soon");
}

abbrev url : Text
url = codes "http://e"

abbrev start : Auth env
start = record { net = tt; now = 0; cache = none }

abbrev cached : ℕ → Auth env
cached now = record (set_cached_credentials env (cache_key env url) credentials start) { now = now }
