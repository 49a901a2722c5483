-- ===== src/Config/Auth.antt =====
-- packages/nacos-config/src/aliyun_auth.ts: where the credentials of a configuration come from. The
-- configuration, the environment and the HTTP client are parameters; a value of type `any` that is
-- used as a text is an optional text, `undefined` and `null` being none. The signatures (`hmacSha1`,
-- `calculateV4SigningKey`) are not modelled.
pub mod Cache
pub mod Sources
use nacos_sdk_nodejs.Prelude.{
  ℕ, ◌-◌, ◌+◌, Bool, true, false, not, ◌&&◌, ◌||◌, Option, none, some, Text, text_eq, codes,
  Outcome, ok, err, List, [], ◌∷◌, ◌++◌, if◌then◌else◌, ◌==◌, ltb, is_some, get_or_else,
}

pub record AliyunCredentials : Type 0 where
  pub access_key_id : Option Text
  pub access_key_secret : Option Text
  pub security_token : Option Text
  pub signature_region_id : Option Text
  pub expiration : Option Text

-- the object that a provider or an endpoint gives, by the names it may use
pub record RawCredentials : Type 0 where
  pub access_key_ids : List (Option Text)
  pub access_key_secrets : List (Option Text)
  pub security_tokens : List (Option Text)
  pub signature_region_id : Option Text
  pub expirations : List (Option Text)

-- a setting that may be a Boolean or a text
pub data Setting : Type 0 where
  unset : Setting
  flag : Bool → Setting
  word : Text → Setting

pub data AuthError : Type 0 where
  http_failed : AuthError
  bad_status : Text → ℕ → AuthError
  bad_json : AuthError
  provider_failed : AuthError

pub record AuthEnv : Type 1 where
  pub Net : Type 0
  -- `provider(configuration.get())`, its methods, or the object itself; the error is what it throws
  pub Provider : Type 0
  pub call_provider : Provider → Net → Outcome AuthError RawCredentials × Net
  -- `httpclient.request(url, …)`: the status and the text, or none where it throws
  pub request : Text → Net → Option (ℕ × Text) × Net
  -- `JSON.parse`
  pub parse : Text → Option RawCredentials
  -- `Date.parse`
  pub parse_date : Text → Option ℕ
  pub access_key : Option Text
  pub secret_key : Option Text
  pub alibaba_access_key_id : Option Text
  pub alibaba_access_key_secret : Option Text
  pub configured_token : Option Text
  pub alibaba_token : Option Text
  pub region : Option Text
  pub env_access_key_id : Option Text
  pub env_access_key_secret : Option Text
  pub env_token : Option Text
  pub env_region : Option Text
  pub env_credentials_uri : Option Text
  pub aliyun_provider : Option Provider
  pub alibaba_provider : Option Provider
  pub security_credentials : Option Text
  pub raw_security_credentials : Option Text
  pub credentials_uri : Option Text
  pub ram_role_name : Option Text
  pub raw_ram_role_name : Option Text
  pub security_credentials_url : Option Text
  pub raw_security_credentials_url : Option Text
  pub cache_setting : Setting
  pub raw_cache_setting : Setting
  -- `Number(firstNotEmpty([ … ])) || DEFAULT_REFRESH_BEFORE_EXPIRE`, with its default of three minutes
  pub refresh_before_expire : ℕ

-- a value that is truthy
abbrev pub truthy : Option Text → Bool
truthy none = false
truthy (some []) = false
truthy (some (c ∷ cs)) = true

unfoldable pub first_not_empty : List (Option Text) → Option Text
first_not_empty [] = none
first_not_empty (none ∷ vs) = first_not_empty vs
first_not_empty (some [] ∷ vs) = first_not_empty vs
first_not_empty (some (c ∷ cs) ∷ vs) = some (c ∷ cs)

unfoldable pub first_provider : {P : Type 0} → Option P → Option P → Option P
first_provider (some p) q = some p
first_provider none q = q

-- `value !== undefined && value !== null && value !== ''`, of the first of two settings
abbrev pub first_setting : Setting → Setting → Setting
first_setting unset s = s
first_setting (flag b) s = flag b
first_setting (word []) s = s
first_setting (word (c ∷ cs)) s = word (c ∷ cs)

abbrev pub is_on : Setting → Bool
is_on unset = true
is_on (flag b) = b
is_on (word w) = not (text_eq w (codes "false"))

abbrev pub ram_url : Text
ram_url = codes "http://100.100.100.200/latest/meta-data/ram/security-credentials/"

unfoldable pub normalize : RawCredentials → AliyunCredentials
normalize d = record {
  access_key_id = first_not_empty d.access_key_ids;
  access_key_secret = first_not_empty d.access_key_secrets;
  security_token = first_not_empty d.security_tokens;
  signature_region_id = first_not_empty (d.signature_region_id ∷ []);
  expiration = first_not_empty d.expirations;
}

pub record CredentialCache : Type 0 where
  pub key : Text
  pub credentials : AliyunCredentials
  pub expiration_time : Option ℕ

module _ (env : AuthEnv) where
  open env use {Net}

  -- the clock and the cache of the configuration, with the network
  pub record Auth : Type 0 where
    pub net : Net
    pub now : ℕ
    pub cache : Option CredentialCache

  abbrev pub has_legacy : Bool
  has_legacy = truthy env.access_key || truthy env.secret_key

  abbrev pub unless_legacy : Option Text → Option Text
  unless_legacy v = if has_legacy then none else v

  -- `resolveAliyunCredentials`
  unfoldable pub resolve_static : AliyunCredentials
  resolve_static = record {
    access_key_id =
        first_not_empty (env.access_key ∷ env.alibaba_access_key_id ∷ env.env_access_key_id ∷ []);
    access_key_secret =
        first_not_empty
          (env.secret_key ∷ env.alibaba_access_key_secret ∷ env.env_access_key_secret ∷ []);
    security_token =
        first_not_empty
          (env.configured_token ∷ env.alibaba_token ∷ unless_legacy env.env_token ∷ []);
    signature_region_id = first_not_empty (env.region ∷ unless_legacy env.env_region ∷ []);
    expiration = none;
  }

  abbrev pub time_of : Option Text → Option ℕ
  time_of none = none
  time_of (some t) = env.parse_date t

  -- `getExpirationTime`
  unfoldable pub get_expiration_time : AliyunCredentials → Option ℕ
  get_expiration_time c = time_of c.expiration

  unfoldable pub is_cache_enabled : Bool
  is_cache_enabled = is_on (first_setting env.cache_setting env.raw_cache_setting)

  -- `cache.expirationTime - Date.now() > refreshBeforeExpire`, or no (or a zero) expiration time
  unfoldable pub is_fresh : ℕ → Option ℕ → Bool
  is_fresh now none = true
  is_fresh now (some t) = t == 0 || ltb (now + env.refresh_before_expire) t

  abbrev pub cached_from : Option CredentialCache → Text → ℕ → Option AliyunCredentials
  cached_from none key now = none
  cached_from (some e) key now =
      if text_eq e.key key && (is_cache_enabled && is_fresh now e.expiration_time)
      then some e.credentials
      else none

  unfoldable pub get_cached_credentials : Text → Auth → Option AliyunCredentials
  get_cached_credentials key a = cached_from a.cache key a.now

  unfoldable pub set_cached_credentials : Text → AliyunCredentials → Auth → Auth
  set_cached_credentials key c a =
      if is_cache_enabled
      then record a {
        cache =
            some (record { key = key; credentials = c; expiration_time = get_expiration_time c });
      }
      else a

  -- the judgement of the response
  abbrev pub parsed : Text → Option (ℕ × Text) → Outcome AuthError AliyunCredentials
  parsed url none = err http_failed
  parsed url (some (status, body)) =
      if status == 200 then read_body (env.parse body) else err (bad_status url status)
    where
      read_body : Option RawCredentials → Outcome AuthError AliyunCredentials
      read_body none = err bad_json
      read_body (some d) = ok (normalize d)

  abbrev pub store :
      Text → Outcome AuthError AliyunCredentials → Auth → Outcome AuthError AliyunCredentials × Auth
  store key (err e) a = (err e, a)
  store key (ok c) a = (ok c, set_cached_credentials key c a)

  unfoldable pub request_credentials :
      Text → Text → Auth → Outcome AuthError AliyunCredentials × Auth
  request_credentials key url a =
      let (o, net) = env.request url a.net in store key (parsed url o) (record a { net = net })

  abbrev pub cache_key : Text → Text
  cache_key url = codes "url:" ++ url

  -- `fetchCredentials`
  unfoldable pub fetch_credentials : Text → Auth → Outcome AuthError AliyunCredentials × Auth
  fetch_credentials url a = elim (get_cached_credentials (cache_key url) a) [
    | some c ↦ (ok c, a)
    | none ↦ request_credentials (cache_key url) url a
  ]
