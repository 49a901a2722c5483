-- ===== src/Naming/Proxy/Refresh.antt =====
-- When `NamingProxy` asks the endpoint for servers, and what it keeps.
use nacos_sdk_nodejs.Prelude.{
  ◌+◌, ◌≤◌, ◌≡◌, refl, ◌⊎◌, inl, inr, true, some, arith, Option-cases, Bool-cases,
}
use nacos_sdk_nodejs.Prelude.Emitter.{is_nil}
use nacos_sdk_nodejs.Naming.Proxy.Requests.{
  CallsEnv, NamingProxy, endpoint_servers, endpoint_url, fetch_servers, is_recent,
  refresh_srv_if_need,
}

module _ (env : CallsEnv) where
  -- The endpoint is asked once: the list of its answer and the time are kept, or nothing changes.
  pub record Fetched (p q : NamingProxy env) : Type 0 where
    pub due : p.last_srv_ref_time + env.refresh_interval ≤ env.now p.net
    pub unconfigured : is_nil p.server_list ≡ true
    pub once : q.fetches ≡ p.fetches + 1
    pub kept :
        ((q.servers_from_endpoint ≡ p.servers_from_endpoint)
          × (q.last_srv_ref_time ≡ p.last_srv_ref_time))
        ⊎ ((endpoint_servers env (env.get p.net (endpoint_url env)).0
              ≡ some q.servers_from_endpoint)
            × (q.last_srv_ref_time ≡ env.now q.net))

  fetch-Fetched :
      (p : NamingProxy env)
      → p.last_srv_ref_time + env.refresh_interval ≤ env.now p.net
      → is_nil p.server_list ≡ true
      → Fetched p (fetch_servers env p)
  unfolding fetch_servers
  fetch-Fetched p d u =
      elim (Option-cases (endpoint_servers env (env.get p.net (endpoint_url env)).0)) [
        | inl e ↦ record {
          due = d;
          unconfigured = u;
          once = rw e refl;
          kept = rw e (inl (refl, refl));
        }
        | inr (l, e) ↦ record {
          due = d;
          unconfigured = u;
          once = rw e refl;
          kept = rw e (inr (refl, refl));
        }
      ]

  -- A refresh does nothing, or it asks the endpoint once: only without configured servers, and not
  -- before the interval since the last answer is over. An answer replaces the servers; where there
  -- is none, the servers known before stay, and the next refresh may ask at once.
  refresh-Fetched :
      (p : NamingProxy env)
      → (refresh_srv_if_need env p ≡ p) ⊎ Fetched p (refresh_srv_if_need env p)
  unfolding refresh_srv_if_need fetch_servers
  refresh-Fetched p = elim (Bool-cases (is_nil p.server_list)) [
    | inr e ↦ inl (rw e refl)
    | inl e ↦ elim (Bool-cases (is_recent env p)) [
      | inl r ↦ inl (rw (e, r) refl)
      | inr r ↦ inr (rw (e, r) (fetch-Fetched p (ground (arith, r)) e))
    ]
  ]
