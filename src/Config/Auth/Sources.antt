-- ===== src/Config/Auth/Sources.antt =====
-- packages/nacos-config/src/aliyun_auth.ts: the dynamic sources of credentials, in their order.
use nacos_sdk_nodejs.Prelude.{
  Bool, not, ◌&&◌, ◌||◌, Option, none, some, Text, Outcome, ok, err, [], ◌∷◌, ◌++◌, is_some,
  if◌then◌else◌,
}
use nacos_sdk_nodejs.Config.Auth.{
  AuthEnv, AuthError, bad_json, AliyunCredentials, RawCredentials, Auth, truthy, first_not_empty,
  first_provider, ram_url, normalize, has_legacy, resolve_static, fetch_credentials,
}

module _ (env : AuthEnv) where
  -- `hasDynamicCredentials`
  unfoldable pub has_dynamic_credentials : Bool
  has_dynamic_credentials =
      is_some env.aliyun_provider
      || (is_some env.alibaba_provider
          || (truthy env.security_credentials
              || (truthy env.raw_security_credentials
                  || (truthy env.security_credentials_url
                      || (truthy env.raw_security_credentials_url
                          || (truthy env.ram_role_name
                              || (truthy env.raw_ram_role_name
                                  || (truthy env.credentials_uri
                                      || (not (has_legacy env)
                                          && truthy env.env_credentials_uri)))))))))

  -- `Object.assign({}, baseCredentials, credentials, { signatureRegionId: … })`: the fields of the
  -- second object win even where they are `undefined`.
  unfoldable pub over_base : AliyunCredentials → AliyunCredentials
  over_base c = record c {
    signature_region_id =
        first_not_empty (c.signature_region_id ∷ (resolve_static env).signature_region_id ∷ []);
  }

  abbrev pub based :
      Outcome AuthError AliyunCredentials × Auth env
      → Outcome AuthError (Option AliyunCredentials) × Auth env
  based (err e, a) = (err e, a)
  based (ok c, a) = (ok (some (over_base c)), a)

  abbrev pub from_provider :
      Outcome AuthError RawCredentials × env.Net
      → Auth env
      → Outcome AuthError AliyunCredentials × Auth env
  from_provider (err e, net) a = (err e, record a { net = net })
  from_provider (ok d, net) a = (ok (normalize d), record a { net = net })

  abbrev pub from_text : Text → Auth env → Outcome AuthError AliyunCredentials × Auth env
  from_text t a = elim (env.parse t) [ none ↦ (err bad_json, a) | some d ↦ (ok (normalize d), a) ]

  abbrev pub role_url : Option Text → Option Text
  role_url none = none
  role_url (some role) = some (ram_url ++ role)

  pub data Source : Type 0 where
    provider : env.Provider → Source
    given : Text → Source
    endpoint : Text → Source
    no_source : Source

  abbrev pub url_source : Option Text → Source
  url_source none = no_source
  url_source (some url) = endpoint url

  abbrev pub uri_source : Option Text → Source → Source
  uri_source none s = s
  uri_source (some url) s = endpoint url

  abbrev pub given_source : Option Text → Source → Source
  given_source none s = s
  given_source (some t) s = given t

  abbrev pub provider_source : Option env.Provider → Source → Source
  provider_source none s = s
  provider_source (some p) s = provider p

  -- the first of the sources that is configured
  unfoldable pub choose_source : Source
  choose_source =
      let role = first_not_empty (env.ram_role_name ∷ env.raw_ram_role_name ∷ []) in
      provider_source (first_provider env.aliyun_provider env.alibaba_provider) (
        given_source
          (first_not_empty (env.security_credentials ∷ env.raw_security_credentials ∷ []))
          (uri_source (first_not_empty (env.credentials_uri ∷ env.env_credentials_uri ∷ [])) (
            url_source (
              first_not_empty (
                env.security_credentials_url
                ∷ env.raw_security_credentials_url
                ∷ role_url role
                ∷ [])))))

  unfoldable pub resolve_from :
      Source → Auth env → Outcome AuthError (Option AliyunCredentials) × Auth env
  resolve_from (provider p) a = based (from_provider (env.call_provider p a.net) a)
  resolve_from (given t) a = based (from_text t a)
  resolve_from (endpoint url) a = based (fetch_credentials env url a)
  resolve_from no_source a = (ok none, a)

  abbrev pub or_static :
      Outcome AuthError (Option AliyunCredentials) × Auth env
      → Outcome AuthError AliyunCredentials × Auth env
  or_static (err e, a) = (err e, a)
  or_static (ok none, a) = (ok (resolve_static env), a)
  or_static (ok (some c), a) = (ok c, a)

  -- `resolveAliyunCredentialsAsync`
  unfoldable pub resolve : Auth env → Outcome AuthError AliyunCredentials × Auth env
  resolve a =
      if has_dynamic_credentials
      then or_static (resolve_from choose_source a)
      else (ok (resolve_static env), a)
