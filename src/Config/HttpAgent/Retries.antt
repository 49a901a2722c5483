-- ===== src/Config/HttpAgent/Retries.antt =====
-- The retries of an HTTP request end.
use nacos_sdk_nodejs.Prelude.{
  ℕ, zero, suc, ◌+◌, ◌<◌, ◌≤◌, ◌≡◌, refl, ap, true, some, Text, Outcome, ok, err, Outcome-cases,
  List, [], ◌++◌, ltb, length, is_some, arith, Bool-cases, inl, inr,
}
use nacos_sdk_nodejs.Config.HttpAgent.{
  AgentEnv, HttpError, Options, Agent, Result, Verdict, returns, throws, retries, get_request_url,
  ask, update, current_server, next_round, after_ask, with_server, loop, login, request,
}

-- Time passes: no call turns the clock back, and a request takes at least a millisecond.
pub record Ticks (env : AgentEnv) : Type 0 where
  pub server :
      (unit : Text) (net : env.Net) → env.now net ≤ env.now (env.get_current_server_addr unit net).1
  pub update :
      (unit : Text) (net : env.Net) → env.now net ≤ env.now (env.update_current_server unit net).1
  pub sign : (body : env.Data) (net : env.Net) → env.now net ≤ env.now (env.auth_headers body net).1
  pub request :
      (url method : Text) (body : env.Data) (headers : List (Text × Text)) (net : env.Net)
      → env.now net < env.now (env.request url method body headers net).1

module _ (env : AgentEnv) where
  -- There is a result, and at most `n` servers were asked.
  abbrev pub Ends : ℕ → Result env → Type 0
  Ends n r = (is_some r.0 ≡ true) × (length r.1.asked ≤ n)

  next_round-Ends :
      (end_time n : ℕ) (e : HttpError env.Fault) (x : Outcome env.Fault (Unit {0}) × Agent env)
      (again : Agent env → Result env)
      → length x.1.asked ≤ n
      → (env.now x.1.net < end_time → Ends n (again x.1))
      → Ends n (next_round env end_time e x again)
  next_round-Ends end_time n e (err x, a) again l f = (refl, l)
  next_round-Ends end_time n e (ok u, a) again l f =
      elim (Bool-cases (ltb (env.now a.net) end_time)) [
        | inl h ↦ rw h (f (ground arith))
        | inr h ↦ rw h (refl, l)
      ]

  after_ask-Ends :
      (ticks : Ticks env) (unit : Text) (end_time n : ℕ) (x : Verdict env × Agent env)
      (again : Agent env → Result env)
      → length x.1.asked ≤ n
      → ((b : Agent env)
          → env.now x.1.net ≤ env.now b.net
          → env.now b.net < end_time
          → b.asked ≡ x.1.asked
          → Ends n (again b))
      → Ends n (after_ask env unit end_time x again)
  after_ask-Ends ticks unit end_time n (returns v, a) again l f = (refl, l)
  after_ask-Ends ticks unit end_time n (throws e, a) again l f = (refl, l)
  after_ask-Ends ticks unit end_time n (retries e, a) again l f =
      next_round-Ends end_time n e (update env unit a) again l
        (λ h. f (update env unit a).1 (ticks.update unit a.net) h refl)

  with_server-Ends :
      (n : ℕ) (x : Outcome env.Fault Text × Agent env) (f : Text → Agent env → Result env)
      → length x.1.asked ≤ n
      → ((server : Text) → Ends n (f server x.1))
      → Ends n (with_server env x f)
  with_server-Ends n (err e, a) f l g = (refl, l)
  with_server-Ends n (ok server, a) f l g = g server

  -- Fuel for each millisecond that is left does; with each the servers asked grow by at most one.
  loop-Ends :
      (ticks : Ticks env) (fuel : ℕ) (unit : Text) (end_time : ℕ) (path method : Text)
      (body : env.Data) (headers : List (Text × Text)) (a : Agent env)
      → end_time < env.now a.net + suc fuel
      → Ends
          (length a.asked + suc fuel)
          (loop env (suc fuel) unit end_time path method body headers a)
  unfolding loop ask
  loop-Ends ticks zero unit end_time path method body headers a h =
      let b = (current_server env unit a).1 in
      let late = ticks.server unit a.net in
      with_server-Ends _ (current_server env unit a) _ (omega arith) (λ server.
        let ticked = ticks.request (get_request_url env server ++ path) method body headers b.net in
        after_ask-Ends ticks unit end_time _ (ask env server path method body headers b) _
          (omega arith) (λ c t e g. absurd (omega arith)))
  loop-Ends ticks (suc fuel) unit end_time path method body headers a h =
      let b = (current_server env unit a).1 in
      let late = ticks.server unit a.net in
      with_server-Ends _ (current_server env unit a) _ (omega arith) (λ server.
        let ticked = ticks.request (get_request_url env server ++ path) method body headers b.net in
        after_ask-Ends ticks unit end_time _ (ask env server path method body headers b) _
          (omega arith)
          (λ c t e g.
            let k = loop-Ends ticks fuel unit end_time path method body headers c (omega arith) in
            (k.0, omega (arith, k.1, ap length g))))

  -- Where each request takes at least a millisecond, a request with fuel for each millisecond of its
  -- timeout has a result, and asks at most one server for each millisecond, and one more.
  pub request-Ends :
      Ticks env
      → (path : Text) (o : Options env.Data) (t : ℕ) (net : env.Net) → o.timeout ≡ some t
      → Ends (suc t) (request env (suc t) path o net)
  unfolding request
  request-Ends ticks path o t net h =
      elim (Outcome-cases (env.auth_headers (login env o.body) net).0) [
        | inl (v, e) ↦
            rw (e, request)
              (rw h (
                let late = ticks.sign (login env o.body) net in
                let k =
                  loop-Ends ticks t _ (env.now net + t) path _ _ _
                    (record { net = (env.auth_headers (login env o.body) net).1; asked = [] })
                    (omega arith) in
                (k.0, omega (arith, k.1))))
        | inr (x, e) ↦ rw (e, request) (refl, omega arith)
      ]
