-- ===== src/Naming/Proxy/Rounds.antt =====
-- The rounds of a naming request over the servers.
use nacos_sdk_nodejs.Prelude.{
  ℕ, zero, suc, ◌+◌, ◌-◌, ◌%◌, ◌<◌, ◌≡◌, refl, sym, ap, ◌∙◌, Bool, true, false, Option, none, some,
  Text, Outcome, ok, err, List, [], ◌∷◌, length, get_elem?, arith, get_or_else,
}
use native.Mathlib.Nat.{mod-lt, mod-eq_of_lt, add-zero}
use nacos_sdk_nodejs.Prelude.Modular.{mod_step, back_mod}
use nacos_sdk_nodejs.Naming.Proxy.{
  ProxyEnv, CallError, ReqError, no_server_available, Proxy, server_at, try_servers, settle,
  try_domain, call_server, req_api,
}

abbrev pub is_ok {ℓ κ} : {E : Type ℓ} {A : Type κ} → Outcome E A → Bool
is_ok (ok a) = true
is_ok (err e) = false

-- the servers of the rounds from an index on, in their order
pub round_servers : List Text → ℕ → ℕ → List Text
round_servers servers index zero = []
round_servers servers index (suc rounds) =
    get_or_else [] (get_elem? servers index)
    ∷ round_servers servers ((index + 1) % length servers) rounds

-- servers noted as failed one after another
pub noted : List Text → List Text → List Text
noted [] failed = failed
noted (s ∷ ss) failed = noted ss (s ∷ failed)

module _ (env : ProxyEnv)
    (call : env.Net → Text → Outcome (CallError env.HttpError) Text × env.Net) where
  abbrev Rest : Type 0
  Rest = Proxy env → Outcome ReqError Text × Proxy env

  -- A round that fails has noted its server.
  settle-failed :
      (server : Text) (o : Outcome (CallError env.HttpError) Text × env.Net) (failed : List Text)
      (rest : Rest) (e : ReqError)
      → (settle env server o failed rest).0 ≡ err e
      → (p : Proxy env) × (p.failed ≡ server ∷ failed) × (settle env server o failed rest ≡ rest p)
  settle-failed server (ok body, net) failed rest e h = absurd cc
  settle-failed server (err a, net) failed rest e h =
      (record { net = net; failed = server ∷ failed }, refl, refl)

  settle-ok :
      (server : Text) (o : Outcome (CallError env.HttpError) Text × env.Net) (failed : List Text)
      (rest : Rest)
      → ((p : Proxy env) → is_ok (rest p).0 ≡ true)
      → is_ok (settle env server o failed rest).0 ≡ true
  settle-ok server (ok body, net) failed rest h = refl
  settle-ok server (err a, net) failed rest h = h (record { net = net; failed = server ∷ failed })

  settle-up :
      (server : Text) (o : Outcome (CallError env.HttpError) Text × env.Net) (failed : List Text)
      (rest : Rest)
      → is_ok o.0 ≡ true
      → is_ok (settle env server o failed rest).0 ≡ true
  settle-up server (ok body, net) failed rest h = refl
  settle-up server (err a, net) failed rest h = absurd cc

  -- A server that always answers is met.
  try_servers-up :
      (servers : List Text) (rounds index i : ℕ) (p : Proxy env) (up : Text)
      → ((n : env.Net) → is_ok (call n up).0 ≡ true)
      → index < length servers
      → i < rounds
      → server_at env servers ((index + i) % length servers) ≡ up
      → is_ok (try_servers env call servers rounds index p).0 ≡ true
  unfolding try_servers
  try_servers-up servers zero index i p up h l r e = absurd (omega arith)
  try_servers-up servers (suc rounds) index zero p up h l r e =
      settle-up _ (call p.net (server_at env servers index)) p.failed _ (
        rw
          (ap (server_at env servers)
              (sym (ap (λ k. k % length servers) (add-zero index) ∙ mod-eq_of_lt l))
            ∙ e)
          (h p.net))
  try_servers-up servers (suc rounds) index (suc i) p up h l r e =
      settle-ok _ (call p.net (server_at env servers index)) p.failed _ (λ q.
        try_servers-up servers rounds ((index + 1) % length servers) i q up h
          (mod-lt (index + 1) {m = length servers} (omega arith)) (omega arith)
          (ap (server_at env servers) (mod_step index i (length servers)) ∙ e))

  try_domain-noted :
      (domain : Text) (rounds : ℕ) (p : Proxy env) (e : ReqError)
      → (try_domain env call domain rounds p).0 ≡ err e
      → length (try_domain env call domain rounds p).1.failed ≡ rounds + length p.failed
  unfolding try_domain
  try_domain-noted domain zero p e h = omega arith
  try_domain-noted domain (suc rounds) p e h =
      let (q, f, g) =
        settle-failed domain (call p.net domain) p.failed (λ q. try_domain env call domain rounds q)
          e h in
      let k = try_domain-noted domain rounds q e (ap (λ x. x.0) (sym g) ∙ h) in
      ap (λ x. length x.1.failed) g ∙ k ∙ ap (λ x. rounds + length x) f ∙ omega arith

module _ (env : ProxyEnv) where
  -- `utility.random(n)` is below `n`.
  abbrev pub RandomInRange : Type 0
  RandomInRange = (net : env.Net) (n : ℕ) → 0 < n → env.random net n < n

  -- One server of the list that answers whenever it is called is enough for a request to succeed.
  pub one_up_suffices :
      RandomInRange
      → (s : Text) (ss ends : List Text) (domain : Option Text) (api : Text)
        (params : List (Text × Text)) (method : Text)
      → (net : env.Net) (j : ℕ) → j < length (s ∷ ss)
      → ((n : env.Net)
          → is_ok (call_server env n (server_at env (s ∷ ss) j) method api params).0 ≡ true)
      → is_ok (req_api env (s ∷ ss) ends domain api params method net).0 ≡ true
  unfolding req_api
  one_up_suffices random s ss ends domain api params method net j l up =
      let n = length (s ∷ ss) in
      let i = env.random net n in
      let r = random net n (omega arith) in
      try_servers-up env (λ n server. call_server env n server method api params) (s ∷ ss) n i
        ((j + n - i) % n) (record { net = net; failed = [] }) (server_at env (s ∷ ss) j) up r
        (mod-lt (j + n - i) {m = n} (omega arith))
        (ap (server_at env (s ∷ ss)) (back_mod i j n r l))

  -- A request without servers that fails has asked the domain three times; without a domain it
  -- fails at once with the error for that.
  req_api_domain :
      (domain : Text) (api : Text) (params : List (Text × Text)) (method : Text) (net : env.Net)
      (e : ReqError)
      → (req_api env [] [] (some domain) api params method net).0 ≡ err e
      → (length (req_api env [] [] (some domain) api params method net).1.failed ≡ 3)
        × ((req_api env [] [] none api params method net).0 ≡ err no_server_available)
  unfolding req_api
  req_api_domain domain api params method net e h = (
    try_domain-noted env (λ n server. call_server env n server method api params) domain 3
        (record { net = net; failed = [] }) e h,
    refl,
  )
