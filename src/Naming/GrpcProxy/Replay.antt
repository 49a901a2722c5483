-- ===== src/Naming/GrpcProxy/Replay.antt =====
-- What `GrpcNamingProxy` keeps over its calls, so that a reconnect sends it again.
use nacos_sdk_nodejs.Prelude.{
  ℕ, suc, ◌≡◌, refl, sym, ap, ◌∙◌, Bool, true, false, Option, none, some, Text, Outcome, ok, err,
  text_eq, text_eq_refl, List, [], ◌∷◌, ◌++◌, map, if◌then◌else◌, arith, get_elem?, Bool-cases, inl,
  inr,
}
use nacos_sdk_nodejs.Prelude.Dict
use nacos_sdk_nodejs.Prelude.Dict.{Dict, get-set, get-delete}
use nacos_sdk_nodejs.Naming.Names.{GroupedName, get_grouped_name, includes_spliter}
use nacos_sdk_nodejs.Naming.Names.RoundTrip.{no_at, grouped_name_round_trip}
use nacos_sdk_nodejs.Naming.Instance.{InstanceOptions}
use nacos_sdk_nodejs.Naming.GrpcProxy.{
  NamingEnv, Registered, NamingRequest, NamingResponse, Proxy, instance_key, register_instance,
  instance_request, instance_message, request_of, send, replay_instance, on_reconnect,
}
use nacos_sdk_nodejs.Naming.GrpcProxy.Calls.{
  register_service, deregister_service, query_list, server_healthy, get_service_list, subscribe,
  un_subscribe, keep_subscription, then_use, result_text,
}
use nacos_sdk_nodejs.Naming.GrpcProxy.Sends.{replay_request, requests, Sends, reconnect-Sends}

pub data Op : Type 0 where
  registers : Text → Text → InstanceOptions → Op
  deregisters : Text → InstanceOptions → Op
  queries : Text → Text → ℕ → Bool → Op
  checks : Op
  lists : ℕ → ℕ → Option Text → Op
  subscribes un_subscribes : Text → Text → Op
  reconnects : Op

module _ (env : NamingEnv) where
  pub step : Proxy env → Op → Proxy env
  step p (registers s g i) = (register_service env s g i p).1
  step p (deregisters s i) = (deregister_service env s i p).1
  step p (queries s c u h) = (query_list env s c u h p).1
  step p checks = (server_healthy env p).1
  step p (lists n m g) = (get_service_list env n m g p).1
  step p (subscribes s c) = (subscribe env s c p).1
  step p (un_subscribes s c) = un_subscribe env s c p
  step p reconnects = on_reconnect env p

  pub run : Proxy env → List Op → Proxy env
  run p [] = p
  run p (o ∷ os) = run (step p o) os

  -- what the calls ask for: the instance that was registered last under a key and not taken back
  unfoldable pub wanted : Text → Option Registered → List Op → Option Registered
  wanted k r [] = r
  wanted k r (registers s g i ∷ os) =
      wanted k
        (if text_eq (instance_key s i) k
          then some (record { service_name = s; group_name = g; instance_ = i })
          else r)
        os
  wanted k r (deregisters s i ∷ os) = wanted k (if text_eq (instance_key s i) k then none else r) os
  wanted k r (_ ∷ os) = wanted k r os

  then_use-1 :
      {A : Type 0} (f : NamingResponse env.Host → A)
      (x : Outcome env.Fault (Option (NamingResponse env.Host)) × Proxy env)
      → (then_use env f x).1 ≡ x.1
  then_use-1 f (err e, p) = refl
  then_use-1 f (ok none, p) = refl
  then_use-1 f (ok (some r), p) = refl

  keep-registered :
      (s c : Text) (o : Outcome env.Fault (Option (NamingResponse env.Host))) (p : Proxy env)
      → (keep_subscription env s c (o, p)).registered ≡ p.registered
  keep-registered s c (err e) p = refl
  keep-registered s c (ok r) p = refl

  registered-step :
      (k : Text) (p : Proxy env) (o : Op)
      → Dict.get k (step p o).registered ≡ wanted k (Dict.get k p.registered) (o ∷ [])
  unfolding step wanted register_service deregister_service query_list server_healthy
      get_service_list subscribe un_subscribe
  registered-step k p (registers s g i) =
      ap (λ q. Dict.get k q.registered) (then_use-1 _ _)
      ∙ get-set (instance_key s i) k _ p.registered
  registered-step k p (deregisters s i) =
      ap (λ q. Dict.get k q.registered) (then_use-1 _ _)
      ∙ get-delete (instance_key s i) k p.registered
  registered-step k p (queries s c u h) = ap (λ q. Dict.get k q.registered) (then_use-1 _ _)
  registered-step k p checks = refl
  registered-step k p (lists n m g) = ap (λ q. Dict.get k q.registered) (then_use-1 _ _)
  registered-step k p (subscribes s c) =
      ap (λ q. Dict.get k q.registered) (then_use-1 _ _) ∙ ap (Dict.get k) (keep-registered s c _ _)
  registered-step k p (un_subscribes s c) = refl
  registered-step k p reconnects = ap (Dict.get k) (reconnect-Sends env p).registered

  wanted-cons :
      (k : Text) (r : Option Registered) (o : Op) (os : List Op)
      → wanted k r (o ∷ os) ≡ wanted k (wanted k r (o ∷ [])) os
  unfolding wanted
  wanted-cons k r (registers s g i) os = refl
  wanted-cons k r (deregisters s i) os = refl
  wanted-cons k r (queries s c u h) os = refl
  wanted-cons k r checks os = refl
  wanted-cons k r (lists n m g) os = refl
  wanted-cons k r (subscribes s c) os = refl
  wanted-cons k r (un_subscribes s c) os = refl
  wanted-cons k r reconnects os = refl

  -- After any calls and reconnects, whichever of their requests fail, the instance that is kept
  -- under a key is the one that was registered last and not taken back since.
  pub registered-run :
      (k : Text) (p : Proxy env) (os : List Op)
      → Dict.get k (run p os).registered ≡ wanted k (Dict.get k p.registered) os
  unfolding run wanted
  registered-run k p [] = refl
  registered-run k p (o ∷ os) =
      registered-run k (step p o) os
      ∙ ap (λ r. wanted k r os) (registered-step k p o)
      ∙ sym (wanted-cons k (Dict.get k p.registered) o os)

  found :
      (k : Text) (d : Dict Registered) (r : Registered)
      → Dict.get k d ≡ some r
      → (i : ℕ) × (get_elem? (map (replay_request env) d) i ≡ some (replay_request env (k, r)))
  unfolding Dict.get
  found k [] r e = absurd cc
  found k ((j, v) ∷ d) r e = elim (Bool-cases (text_eq j k)) [
    | inl h ↦ (0, let x = rw h at e in cc)
    | inr h ↦ let (i, f) = found k d r (ground arith) in (suc i, f)
  ]

  get_elem?-append :
      (xs ys : List NamingRequest) (i : ℕ) (x : NamingRequest)
      → get_elem? xs i ≡ some x
      → get_elem? (xs ++ ys) i ≡ some x
  get_elem?-append [] ys i x e = absurd cc
  get_elem?-append (y ∷ xs) ys ℕ.zero x e = e
  get_elem?-append (y ∷ xs) ys (ℕ.suc i) x e = get_elem?-append xs ys i x e

  -- An instance whose last call registered it is registered again by a reconnect, also when the
  -- first registration failed: its request is among those that the reconnect sends.
  pub registered_is_replayed :
      (k : Text) (p : Proxy env) (os : List Op) (r : Registered)
      → wanted k (Dict.get k p.registered) os ≡ some r
      → let q = run p os in
        Sends env q (requests env q) (on_reconnect env q)
        × ((i : ℕ) × (get_elem? (requests env q) i ≡ some (replay_request env (k, r))))
  registered_is_replayed k p os r h =
      let q = run p os in
      let (i, f) = found k q.registered r (registered-run k p os ∙ h) in
      (reconnect-Sends env q, (i, get_elem?-append _ _ i _ f))

  then_use-sent :
      {A : Type 0} (f : NamingResponse env.Host → A)
      (x : Outcome env.Fault (Option (NamingResponse env.Host)) × Proxy env)
      → (then_use env f x).1.sent ≡ x.1.sent
  then_use-sent f x = ap (λ p. p.sent) (then_use-1 f x)

  -- A registration under a grouped name keeps an instance that the next reconnect sends with another
  -- service name: the registration has put the name with its group into the instance, and each round of
  -- the reconnect for what it keeps puts the name alone there; the rest of the two requests is the same.
  pub replay_drops_group :
      (n g s : Text) (i : InstanceOptions) (p q : Proxy env)
      → no_at g ≡ true
      → includes_spliter s ≡ false
      → let name = get_grouped_name s g in
        let registering = register_service env name n i p in
        let sends = λ (m : Text).
          instance_request env.namespace s g register_instance (instance_message m i) in
        (registering.1.sent ≡ sends name ∷ p.sent)
        × ((r : Registered) × (Dict.get (instance_key name i) registering.1.registered ≡ some r)
            × ((replay_instance env r q).sent ≡ sends s ∷ q.sent))
  unfolding request_of register_service replay_instance
  replay_drops_group n g s i p q h u =
      let name = get_grouped_name s g in
      let r : Registered = record { service_name = name; group_name = n; instance_ = i } in
      let e = (grouped_name_round_trip g s h u).2 in
      let sent =
        send env (request_of env register_instance name name i)
          (record p { registered = Dict.set (instance_key name i) r p.registered }) in
      (
        then_use-sent (result_text env) sent
            ∙ ap
                (λ (v : GroupedName).
                  instance_request env.namespace v.service_name v.group_name register_instance
                    (instance_message name i)
                  ∷ p.sent)
                e,
        (
          r,
          ap (λ (x : Proxy env). Dict.get (instance_key name i) x.registered)
                (then_use-1 (result_text env) sent)
              ∙ ground (
                arith,
                get-set (instance_key name i) (instance_key name i) r p.registered,
                text_eq_refl (instance_key name i),
              ),
          rw e refl,
        ),
      )
