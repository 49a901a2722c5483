-- ===== src/Naming/Auth/Translation.antt =====
-- The options of a naming client as a configuration, for aliyun_auth.ts, and what the two copies of
-- the file do without the network.
use nacos_sdk_nodejs.Prelude.{
  ◌≡◌, refl, Option, none, some, Text, Outcome, ok, err, List, [], ◌∷◌, ◌++◌,
}
use nacos_sdk_nodejs.Config.Auth
use nacos_sdk_nodejs.Config.Auth.{
  AuthEnv, AuthError, RawCredentials, http_failed, bad_json, bad_status, first_not_empty,
  first_provider,
}
use nacos_sdk_nodejs.Naming.Auth as NamingAuth
use nacos_sdk_nodejs.Naming.Auth.{NamingAuthEnv}

-- the credentials without the name of the application
abbrev pub forget : NamingAuth.AliyunCredentials → Auth.AliyunCredentials
forget c = record {
  access_key_id = c.access_key_id;
  access_key_secret = c.access_key_secret;
  security_token = c.security_token;
  signature_region_id = c.signature_region_id;
  expiration = c.expiration;
}

first_not_empty-append :
    (xs ys : List (Option Text))
    → first_not_empty (first_not_empty xs ∷ ys) ≡ first_not_empty (xs ++ ys)
unfolding first_not_empty
first_not_empty-append [] ys = refl
first_not_empty-append (none ∷ xs) ys = first_not_empty-append xs ys
first_not_empty-append (some [] ∷ xs) ys = first_not_empty-append xs ys
first_not_empty-append (some (c ∷ cs) ∷ xs) ys = refl

-- what comes after a first value may be chosen before
first_not_empty-cons :
    (v : Option Text) (xs ys : List (Option Text))
    → first_not_empty (v ∷ first_not_empty xs ∷ ys) ≡ first_not_empty (v ∷ (xs ++ ys))
unfolding first_not_empty
first_not_empty-cons none xs ys = first_not_empty-append xs ys
first_not_empty-cons (some []) xs ys = first_not_empty-append xs ys
first_not_empty-cons (some (c ∷ cs)) xs ys = refl

module _ (env : NamingAuthEnv) where
  -- The configuration that says the same: the options `ak` and `sk` stand for its access keys, and
  -- the first that is given of `accessKey`, `accessKeyId` and `alibabaCloudAccessKeyId`, and of the
  -- three for the secret, for the Alibaba Cloud keys.
  abbrev pub as_config : AuthEnv
  as_config = record {
    Net = env.Net;
    Provider = env.Provider;
    call_provider = env.call_provider;
    request = env.request;
    parse = env.parse;
    parse_date = env.parse_date;
    access_key = env.ak;
    secret_key = env.sk;
    alibaba_access_key_id =
        first_not_empty (env.access_key ∷ env.access_key_id ∷ env.alibaba_access_key_id ∷ []);
    alibaba_access_key_secret =
        first_not_empty
          (env.secret_key ∷ env.access_key_secret ∷ env.alibaba_access_key_secret ∷ []);
    configured_token = env.configured_token;
    alibaba_token = env.alibaba_token;
    region = env.region;
    env_access_key_id = env.env_access_key_id;
    env_access_key_secret = env.env_access_key_secret;
    env_token = env.env_token;
    env_region = env.env_region;
    env_credentials_uri = env.env_credentials_uri;
    aliyun_provider = env.aliyun_provider;
    alibaba_provider = env.alibaba_provider;
    security_credentials = env.security_credentials;
    raw_security_credentials = env.raw_security_credentials;
    credentials_uri = env.credentials_uri;
    ram_role_name = env.ram_role_name;
    raw_ram_role_name = env.raw_ram_role_name;
    security_credentials_url = env.security_credentials_url;
    raw_security_credentials_url = env.raw_security_credentials_url;
    cache_setting = env.cache_setting;
    raw_cache_setting = env.raw_cache_setting;
    refresh_before_expire = env.refresh_before_expire;
  }

  abbrev pub forget_entry : NamingAuth.CredentialCache → Auth.CredentialCache
  forget_entry e = record {
    key = e.key;
    credentials = forget e.credentials;
    expiration_time = e.expiration_time;
  }

  abbrev pub forget_cache : Option NamingAuth.CredentialCache → Option Auth.CredentialCache
  forget_cache none = none
  forget_cache (some e) = some (forget_entry e)

  -- the clock, the network and the cache
  unfoldable pub forget_auth : NamingAuth.Auth env → Auth.Auth as_config
  forget_auth a = record { net = a.net; now = a.now; cache = forget_cache a.cache }

  abbrev pub forget_option : Option NamingAuth.AliyunCredentials → Option Auth.AliyunCredentials
  forget_option none = none
  forget_option (some c) = some (forget c)

  abbrev pub forget_result :
      Outcome AuthError NamingAuth.AliyunCredentials × NamingAuth.Auth env
      → Outcome AuthError Auth.AliyunCredentials × Auth.Auth as_config
  forget_result (err e, a) = (err e, forget_auth a)
  forget_result (ok c, a) = (ok (forget c), forget_auth a)

  abbrev pub forget_choice :
      Outcome AuthError (Option NamingAuth.AliyunCredentials) × NamingAuth.Auth env
      → Outcome AuthError (Option Auth.AliyunCredentials) × Auth.Auth as_config
  forget_choice (err e, a) = (err e, forget_auth a)
  forget_choice (ok c, a) = (ok (forget_option c), forget_auth a)

  pub static-agrees : forget (NamingAuth.resolve_static env) ≡ Auth.resolve_static as_config
  unfolding NamingAuth.resolve_static Auth.resolve_static
  static-agrees =
      rw
        (
          first_not_empty-cons env.ak
              (env.access_key ∷ env.access_key_id ∷ env.alibaba_access_key_id ∷ [])
              (env.env_access_key_id ∷ []),
          first_not_empty-cons env.sk
              (env.secret_key ∷ env.access_key_secret ∷ env.alibaba_access_key_secret ∷ [])
              (env.env_access_key_secret ∷ []),
        )
        refl

  pub normalize-agrees : (d : RawCredentials) → forget (NamingAuth.normalize d) ≡ Auth.normalize d
  unfolding NamingAuth.normalize Auth.normalize
  normalize-agrees d = refl
