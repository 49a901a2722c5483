-- ===== src/Config/Auth/Cache.antt =====
-- The cache of fetched credentials, and the credentials that are resolved.
use nacos_sdk_nodejs.Prelude.{
  ℕ, ◌+◌, ◌<◌, ◌≤◌, ◌≡◌, refl, ◌∙◌, true, false, Option, none, some, Text, text_eq_refl, ok, List,
  [], ◌∷◌, if◌then◌else◌, ◌==◌, ltb, arith,
}
use nacos_sdk_nodejs.Config.Auth.{
  AuthEnv, AliyunCredentials, Auth, truthy, first_not_empty, resolve_static, is_cache_enabled,
  is_fresh, get_cached_credentials, set_cached_credentials, get_expiration_time, cache_key,
  request_credentials, fetch_credentials,
}

first_truthy :
    (v : Option Text) (vs : List (Option Text)) → truthy v ≡ true → first_not_empty (v ∷ vs) ≡ v
unfolding first_not_empty
first_truthy none vs h = absurd cc
first_truthy (some []) vs h = absurd cc
first_truthy (some (c ∷ cs)) vs h = refl

-- A last value that is missing does not matter.
drop_next : (v : Option Text) → first_not_empty (v ∷ none ∷ []) ≡ first_not_empty (v ∷ [])
unfolding first_not_empty
drop_next none = refl
drop_next (some []) = refl
drop_next (some (c ∷ cs)) = refl

drop_last : (v w : Option Text) → first_not_empty (v ∷ w ∷ none ∷ []) ≡ first_not_empty (v ∷ w ∷ [])
unfolding first_not_empty
drop_last none w = drop_next w
drop_last (some []) w = drop_next w
drop_last (some (c ∷ cs)) w = refl

module _ (env : AuthEnv) where
  fetch-some :
      (url : Text) (c : AliyunCredentials) (a : Auth env)
      → get_cached_credentials env (cache_key env url) a ≡ some c
      → fetch_credentials env url a ≡ (ok c, a)
  unfolding fetch_credentials
  fetch-some url c a e = rw (e, fetch_credentials) refl

  fetch-none :
      (url : Text) (a : Auth env)
      → get_cached_credentials env (cache_key env url) a ≡ none
      → fetch_credentials env url a ≡ request_credentials env (cache_key env url) url a
  unfolding fetch_credentials
  fetch-none url a e = rw (e, fetch_credentials) refl

  -- The cache holds what was put there while it is fresh.
  cached-set :
      (key : Text) (c : AliyunCredentials) (t : ℕ) (a : Auth env) (now : ℕ)
      → is_cache_enabled env ≡ true
      → get_expiration_time env c ≡ some t
      → 0 < t
      → get_cached_credentials env key (record (set_cached_credentials env key c a) { now = now })
        ≡ (if ltb (now + env.refresh_before_expire) t then some c else none)
  unfolding get_cached_credentials set_cached_credentials is_fresh
  cached-set key c t a now on e p =
      let nonzero : (t == 0) ≡ false = ground arith in
      rw (on, set_cached_credentials) (rw (on, text_eq_refl key, e, nonzero) refl)

  -- Credentials that were fetched are used without a request as long as they do not expire within
  -- the refresh period, and from that moment on they are requested again.
  refetched_in_time :
      (url : Text) (c : AliyunCredentials) (t : ℕ) (a : Auth env) (now : ℕ)
      → is_cache_enabled env ≡ true
      → get_expiration_time env c ≡ some t
      → 0 < t
      → (now + env.refresh_before_expire < t
          → fetch_credentials env url
              (record (set_cached_credentials env (cache_key env url) c a) { now = now })
            ≡ (ok c, record (set_cached_credentials env (cache_key env url) c a) { now = now }))
        × (t ≤ now + env.refresh_before_expire
            → fetch_credentials env url
                (record (set_cached_credentials env (cache_key env url) c a) { now = now })
              ≡ request_credentials env
                  (cache_key env url)
                  url
                  (record (set_cached_credentials env (cache_key env url) c a) { now = now }))
  refetched_in_time url c t a now on e p =
      let key = cache_key env url in
      let b = record (set_cached_credentials env key c a) { now = now } in
      let k = cached-set key c t a now on e p in
      (λ h. fetch-some url c b (k ∙ ground arith), λ h. fetch-none url b (k ∙ ground arith))

  -- Where the access key and the secret are configured, nothing of the environment enters the
  -- credentials: neither its keys nor its token nor its region.
  configured_keys_stand_alone :
      truthy env.access_key ≡ true
      → truthy env.secret_key ≡ true
      → ((resolve_static env).access_key_id ≡ env.access_key)
        × ((resolve_static env).access_key_secret ≡ env.secret_key)
        × ((resolve_static env).security_token
            ≡ first_not_empty (env.configured_token ∷ env.alibaba_token ∷ []))
        × ((resolve_static env).signature_region_id ≡ first_not_empty (env.region ∷ []))
  unfolding resolve_static
  configured_keys_stand_alone h g = (
    first_truthy env.access_key _ h,
    first_truthy env.secret_key _ g,
    rw h (drop_last env.configured_token env.alibaba_token),
    rw h (drop_next env.region),
  )
