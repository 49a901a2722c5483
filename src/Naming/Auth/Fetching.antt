-- ===== src/Naming/Auth/Fetching.antt =====
-- The two copies of aliyun_auth.ts fetch and cache the same credentials.
use nacos_sdk_nodejs.Prelude.{
  ℕ, ◌≡◌, refl, ap, ◌∙◌, Bool, true, false, Option, none, some, Text, Outcome, ok, err,
  if◌then◌else◌, Option-cases, Bool-cases, inl, inr, ◌==◌,
}
use nacos_sdk_nodejs.Config.Auth
use nacos_sdk_nodejs.Config.Auth.{
  AuthEnv, AuthError, RawCredentials, http_failed, bad_json, bad_status, first_not_empty,
  first_provider,
}
use nacos_sdk_nodejs.Naming.Auth as NamingAuth
use nacos_sdk_nodejs.Naming.Auth.{NamingAuthEnv}
use nacos_sdk_nodejs.Naming.Auth.Translation.{
  forget, as_config, forget_cache, forget_auth, forget_option, forget_result, normalize-agrees,
}

module _ (env : NamingAuthEnv) where
  expiration-agrees :
      (c : NamingAuth.AliyunCredentials)
      → NamingAuth.get_expiration_time env c ≡ Auth.get_expiration_time (as_config env) (forget c)
  unfolding NamingAuth.get_expiration_time Auth.get_expiration_time
  expiration-agrees c = elim (Option-cases c.expiration) [
    | inl e ↦ rw e refl
    | inr (t, e) ↦ rw e refl
  ]

  is_on-agrees : (s : Auth.Setting) → NamingAuth.is_on s ≡ Auth.is_on s
  is_on-agrees Auth.unset = refl
  is_on-agrees (Auth.flag b) = refl
  is_on-agrees (Auth.word w) = refl

  enabled-agrees : NamingAuth.is_cache_enabled env ≡ Auth.is_cache_enabled (as_config env)
  unfolding NamingAuth.is_cache_enabled Auth.is_cache_enabled
  enabled-agrees = is_on-agrees (Auth.first_setting env.cache_setting env.raw_cache_setting)

  fresh-agrees :
      (now : ℕ) (t : Option ℕ) → NamingAuth.is_fresh env now t ≡ Auth.is_fresh (as_config env) now t
  unfolding NamingAuth.is_fresh Auth.is_fresh
  fresh-agrees now none = refl
  fresh-agrees now (some t) = refl

  if_forget :
      (b : Bool) (c : NamingAuth.AliyunCredentials)
      → forget_option env (if b then some c else none) ≡ (if b then some (forget c) else none)
  if_forget true c = refl
  if_forget false c = refl

  cached_from-agrees :
      (o : Option NamingAuth.CredentialCache) (key : Text) (now : ℕ)
      → forget_option env (NamingAuth.cached_from env o key now)
        ≡ Auth.cached_from (as_config env) (forget_cache env o) key now
  cached_from-agrees none key now = refl
  cached_from-agrees (some e) key now =
      rw (enabled-agrees, fresh-agrees now e.expiration_time) (if_forget _ e.credentials)

  cached-agrees :
      (key : Text) (a : NamingAuth.Auth env)
      → forget_option env (NamingAuth.get_cached_credentials env key a)
        ≡ Auth.get_cached_credentials (as_config env) key (forget_auth env a)
  unfolding NamingAuth.get_cached_credentials Auth.get_cached_credentials forget_auth
  cached-agrees key a = cached_from-agrees a.cache key a.now

  -- `setCachedCredentials`
  set-agrees :
      (key : Text) (c : NamingAuth.AliyunCredentials) (a : NamingAuth.Auth env)
      → forget_auth env (NamingAuth.set_cached_credentials env key c a)
        ≡ Auth.set_cached_credentials (as_config env) key (forget c) (forget_auth env a)
  unfolding NamingAuth.set_cached_credentials Auth.set_cached_credentials forget_auth
  set-agrees key c a =
      rw (enabled-agrees, expiration-agrees c)
        (elim (Bool-cases (Auth.is_cache_enabled (as_config env))) [
          | inl e ↦ rw e refl
          | inr e ↦ rw e refl
        ])

  abbrev forget_answer :
      Outcome AuthError NamingAuth.AliyunCredentials → Outcome AuthError Auth.AliyunCredentials
  forget_answer (err e) = err e
  forget_answer (ok c) = ok (forget c)

  parsed-agrees :
      (url : Text) (r : Option (ℕ × Text))
      → forget_answer (NamingAuth.parsed env url r) ≡ Auth.parsed (as_config env) url r
  parsed-agrees url none = refl
  parsed-agrees url (some (status, body)) = elim (Bool-cases (status == 200)) [
    | inr e ↦ rw e refl
    | inl e ↦ elim (Option-cases (env.parse body)) [
      | inl n ↦ rw (e, n) refl
      | inr (d, n) ↦ rw (e, n) (ap ok (normalize-agrees env d))
    ]
  ]

  store-agrees :
      (key : Text) (o : Outcome AuthError NamingAuth.AliyunCredentials) (a : NamingAuth.Auth env)
      → forget_result env (NamingAuth.store env key o a)
        ≡ Auth.store (as_config env) key (forget_answer o) (forget_auth env a)
  store-agrees key (err e) a = refl
  store-agrees key (ok c) a = ap (λ b. (ok (forget c), b)) (set-agrees key c a)

  request-agrees :
      (key url : Text) (a : NamingAuth.Auth env)
      → forget_result env (NamingAuth.request_credentials env key url a)
        ≡ Auth.request_credentials (as_config env) key url (forget_auth env a)
  unfolding NamingAuth.request_credentials Auth.request_credentials forget_auth
  request-agrees key url a =
      let (r, net) = env.request url a.net in
      let b = record a { net = net } in
      store-agrees key (NamingAuth.parsed env url r) b
      ∙ ap (λ o. Auth.store (as_config env) key o (forget_auth env b)) (parsed-agrees url r)

  fetched :
      (key url : Text) (o : Option NamingAuth.AliyunCredentials) (a : NamingAuth.Auth env)
      → forget_result env
          (elim o [ some c ↦ (ok c, a) | none ↦ NamingAuth.request_credentials env key url a ])
        ≡ (elim (forget_option env o) [
          | some c ↦ (ok c, forget_auth env a)
          | none ↦ Auth.request_credentials (as_config env) key url (forget_auth env a)
        ])
  fetched key url none a = request-agrees key url a
  fetched key url (some c) a = refl

  pub fetch-agrees :
      (url : Text) (a : NamingAuth.Auth env)
      → forget_result env (NamingAuth.fetch_credentials env url a)
        ≡ Auth.fetch_credentials (as_config env) url (forget_auth env a)
  unfolding NamingAuth.fetch_credentials Auth.fetch_credentials
  fetch-agrees url a =
      let key = NamingAuth.cache_key env url in
      fetched key url (NamingAuth.get_cached_credentials env key a) a
      ∙ rw (cached-agrees key a) refl
