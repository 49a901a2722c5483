-- ===== src/Naming/Auth/Agreement.antt =====
-- The naming client's copy of aliyun_auth.ts and the configuration client's resolve the same
-- credentials.
use nacos_sdk_nodejs.Prelude.{
  ◌≡◌, refl, ap, ◌∙◌, Option, none, some, Text, Outcome, ok, err, [], ◌∷◌, Bool-cases, inl, inr,
}
use nacos_sdk_nodejs.Config.Auth
use nacos_sdk_nodejs.Config.Auth.{
  AuthEnv, AuthError, RawCredentials, http_failed, bad_json, bad_status, first_not_empty,
  first_provider,
}
use nacos_sdk_nodejs.Config.Auth.Sources as ConfigSources
use nacos_sdk_nodejs.Naming.Auth as NamingAuth
use nacos_sdk_nodejs.Naming.Auth.{NamingAuthEnv}
use nacos_sdk_nodejs.Naming.Auth.Sources as NamingSources
use nacos_sdk_nodejs.Naming.Auth.Translation.{
  forget, as_config, forget_auth, forget_result, forget_choice, static-agrees, normalize-agrees,
}
use nacos_sdk_nodejs.Naming.Auth.Fetching.{fetch-agrees}

module _ (env : NamingAuthEnv) where
  forget_source : NamingSources.Source env → ConfigSources.Source (as_config env)
  forget_source (NamingSources.provider p) = ConfigSources.provider p
  forget_source (NamingSources.given t) = ConfigSources.given t
  forget_source (NamingSources.endpoint url) = ConfigSources.endpoint url
  forget_source NamingSources.no_source = ConfigSources.no_source

  url-agrees :
      (o : Option Text)
      → forget_source (NamingSources.url_source env o) ≡ ConfigSources.url_source (as_config env) o
  unfolding forget_source
  url-agrees none = refl
  url-agrees (some u) = refl

  uri-agrees :
      (o : Option Text) (s : NamingSources.Source env)
      → forget_source (NamingSources.uri_source env o s)
        ≡ ConfigSources.uri_source (as_config env) o (forget_source s)
  unfolding forget_source
  uri-agrees none s = refl
  uri-agrees (some u) s = refl

  given-agrees :
      (o : Option Text) (s : NamingSources.Source env)
      → forget_source (NamingSources.given_source env o s)
        ≡ ConfigSources.given_source (as_config env) o (forget_source s)
  unfolding forget_source
  given-agrees none s = refl
  given-agrees (some t) s = refl

  provider-agrees :
      (o : Option env.Provider) (s : NamingSources.Source env)
      → forget_source (NamingSources.provider_source env o s)
        ≡ ConfigSources.provider_source (as_config env) o (forget_source s)
  unfolding forget_source
  provider-agrees none s = refl
  provider-agrees (some p) s = refl

  -- the same source is chosen
  source-agrees :
      forget_source (NamingSources.choose_source env) ≡ ConfigSources.choose_source (as_config env)
  unfolding NamingSources.choose_source ConfigSources.choose_source
  source-agrees =
      provider-agrees _ _
      ∙ ap (ConfigSources.provider_source (as_config env) _) (
          given-agrees _ _
          ∙ ap (ConfigSources.given_source (as_config env) _)
              (uri-agrees _ _ ∙ ap (ConfigSources.uri_source (as_config env) _) (url-agrees _)))

  -- `Object.assign({}, baseCredentials, credentials, …)`
  over_base-agrees :
      (c : NamingAuth.AliyunCredentials)
      → forget (NamingSources.over_base env c) ≡ ConfigSources.over_base (as_config env) (forget c)
  unfolding NamingSources.over_base ConfigSources.over_base
  over_base-agrees c =
      ap
        (λ (b : Auth.AliyunCredentials). record (forget c) {
          signature_region_id =
              first_not_empty (c.signature_region_id ∷ b.signature_region_id ∷ []);
        })
        (static-agrees env)

  based-agrees :
      (o : Outcome AuthError NamingAuth.AliyunCredentials) (a : NamingAuth.Auth env)
      → forget_choice env (NamingSources.based env (o, a))
        ≡ ConfigSources.based (as_config env) (forget_result env (o, a))
  based-agrees (err e) a = refl
  based-agrees (ok c) a = ap (λ x. (ok (some x), forget_auth env a)) (over_base-agrees c)

  provided-agrees :
      (o : Outcome AuthError RawCredentials × env.Net) (a : NamingAuth.Auth env)
      → forget_result env (NamingSources.from_provider env o a)
        ≡ ConfigSources.from_provider (as_config env) o (forget_auth env a)
  unfolding forget_auth
  provided-agrees (err e, net) a = refl
  provided-agrees (ok d, net) a =
      ap (λ c. (ok c, forget_auth env (record a { net = net }))) (normalize-agrees env d)

  text-agrees :
      (t : Text) (a : NamingAuth.Auth env)
      → forget_result env (NamingSources.from_text env t a)
        ≡ ConfigSources.from_text (as_config env) t (forget_auth env a)
  text-agrees t a = read (env.parse t)
    where
      read :
          (o : Option RawCredentials)
          → forget_result env
              (elim o [ none ↦ (err bad_json, a) | some d ↦ (ok (NamingAuth.normalize d), a) ])
            ≡ (elim o [
              | none ↦ (err bad_json, forget_auth env a)
              | some d ↦ (ok (Auth.normalize d), forget_auth env a)
            ])
      read none = refl
      read (some d) = ap (λ c. (ok c, forget_auth env a)) (normalize-agrees env d)

  from-agrees :
      (s : NamingSources.Source env) (a : NamingAuth.Auth env)
      → forget_choice env (NamingSources.resolve_from env s a)
        ≡ ConfigSources.resolve_from (as_config env) (forget_source s) (forget_auth env a)
  unfolding NamingSources.resolve_from ConfigSources.resolve_from forget_source forget_auth
  from-agrees (NamingSources.provider p) a =
      based-agrees _ _
      ∙ ap (ConfigSources.based (as_config env)) (provided-agrees (env.call_provider p a.net) a)
  from-agrees (NamingSources.given t) a =
      based-agrees _ _ ∙ ap (ConfigSources.based (as_config env)) (text-agrees t a)
  from-agrees (NamingSources.endpoint url) a =
      based-agrees _ _ ∙ ap (ConfigSources.based (as_config env)) (fetch-agrees env url a)
  from-agrees NamingSources.no_source a = refl

  or_static-agrees :
      (x : Outcome AuthError (Option NamingAuth.AliyunCredentials) × NamingAuth.Auth env)
      → forget_result env (NamingSources.or_static env x)
        ≡ ConfigSources.or_static (as_config env) (forget_choice env x)
  or_static-agrees (err e, a) = refl
  or_static-agrees (ok none, a) = ap (λ c. (ok c, forget_auth env a)) (static-agrees env)
  or_static-agrees (ok (some c), a) = refl

  -- For every set of options, environment, endpoint and cache, the naming client's copy resolves the
  -- same credentials as the configuration client's does for the configuration that says the same, or
  -- throws the same error, and leaves the same cache; only the name of the application is added.
  pub resolve-agrees :
      (a : NamingAuth.Auth env)
      → forget_result env (NamingSources.resolve env a)
        ≡ ConfigSources.resolve (as_config env) (forget_auth env a)
  unfolding NamingSources.resolve ConfigSources.resolve NamingSources.has_dynamic_credentials
      ConfigSources.has_dynamic_credentials
  resolve-agrees a = elim (Bool-cases (ConfigSources.has_dynamic_credentials (as_config env))) [
    | inl e ↦ rw e (
        or_static-agrees _
        ∙ ap (ConfigSources.or_static (as_config env)) (
            from-agrees (NamingSources.choose_source env) a
            ∙ ap (λ s. ConfigSources.resolve_from (as_config env) s (forget_auth env a))
                source-agrees))
    | inr e ↦ rw e (ap (λ c. (ok c, forget_auth env a)) (static-agrees env))
  ]
