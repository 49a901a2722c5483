-- ===== src/Config/GrpcProxy/Replay.antt =====
-- What a reconnect sends again.
use nacos_sdk_nodejs.Prelude.{
  ℕ, suc, ◌≡◌, refl, ap, ◌∙◌, Bool, true, Option, none, some, Text, text_eq, text_eq_iff, List, [],
  ◌∷◌, if◌then◌else◌, arith, get_elem?, Bool-cases, inl, inr,
}
use nacos_sdk_nodejs.Prelude.Dict
use nacos_sdk_nodejs.Prelude.Dict.{Dict, get-set, get-delete}
use nacos_sdk_nodejs.Config.GrpcProxy.{
  GrpcEnv, Proxy, ListenContext, config_batch_listen, values, listen_key, resolve_tenant,
  send_batch_listen, add_listener, drop_context, remove_listener, on_reconnect,
  on_config_change_notify,
}

pub data Op : Type 0 where
  adds : Text → Text → Text → Option Text → Op
  removes : Text → Text → Option Text → Op
  reconnects : Op
  notified : Text → Text → Text → Text → Op

module _ (env : GrpcEnv) where
  pub step : Proxy env → Op → Proxy env
  step p (adds d g m t) = (add_listener env d g m t p).1
  step p (removes d g t) = remove_listener env d g t p
  step p reconnects = on_reconnect env p
  step p (notified d g t n) = on_config_change_notify env d g t n p

  pub run : Proxy env → List Op → Proxy env
  run p [] = p
  run p (o ∷ os) = run (step p o) os

  -- what the calls ask for: the context that is added last for a key and not removed since
  unfoldable pub wanted : Text → Option ListenContext → List Op → Option ListenContext
  wanted k c [] = c
  wanted k c (adds d g m t ∷ os) =
      wanted k
        (if text_eq (listen_key d g (resolve_tenant env t)) k
          then some (record { data_id = d; group = g; tenant = resolve_tenant env t; md5 = m })
          else c)
        os
  wanted k c (removes d g t ∷ os) =
      wanted k (if text_eq (listen_key d g (resolve_tenant env t)) k then none else c) os
  wanted k c (reconnects ∷ os) = wanted k c os
  wanted k c (notified d g t n ∷ os) = wanted k c os

  batch-contexts :
      (cs : List ListenContext) (b : Bool) (p : Proxy env)
      → (send_batch_listen env cs b p).1.listen_contexts ≡ p.listen_contexts
  unfolding send_batch_listen
  batch-contexts [] b p = refl
  batch-contexts (c ∷ cs) b p = refl

  drop-get :
      (key k : Text) (o : Option ListenContext) (p : Proxy env)
      → Dict.get key p.listen_contexts ≡ o
      → Dict.get k (drop_context env key o p).listen_contexts
        ≡ (if text_eq key k then none else Dict.get k p.listen_contexts)
  unfolding send_batch_listen
  drop-get key k none p e = ground (arith, text_eq_iff key k)
  drop-get key k (some c) p e = get-delete key k p.listen_contexts

  -- After any additions, removals, reconnects and pushes, whichever of their requests fail, a key's
  -- context is the one that was added last and not removed since.
  get-run :
      (k : Text) (p : Proxy env) (os : List Op)
      → Dict.get k (run p os).listen_contexts ≡ wanted k (Dict.get k p.listen_contexts) os
  unfolding run step wanted add_listener remove_listener on_reconnect on_config_change_notify
  get-run k p [] = refl
  get-run k p (adds d g m t ∷ os) =
      get-run k (step p (adds d g m t)) os
      ∙ ap (λ c. wanted k c os)
          (ap (Dict.get k) (batch-contexts _ true _) ∙ get-set _ k _ p.listen_contexts)
  get-run k p (removes d g t ∷ os) =
      get-run k (step p (removes d g t)) os
      ∙ ap (λ c. wanted k c os) (drop-get (listen_key d g (resolve_tenant env t)) k _ p refl)
  get-run k p (reconnects ∷ os) =
      get-run k (step p reconnects) os
      ∙ ap (λ c. wanted k c os) (ap (Dict.get k) (batch-contexts (values p.listen_contexts) true p))
  get-run k p (notified d g t n ∷ os) = get-run k (step p (notified d g t n)) os

  found :
      (k : Text) (d : Dict ListenContext) (c : ListenContext)
      → Dict.get k d ≡ some c
      → (i : ℕ) × (get_elem? (values d) i ≡ some c)
  unfolding Dict.get
  found k [] c e = absurd cc
  found k ((j, v) ∷ d) c e = elim (Bool-cases (text_eq j k)) [
    | inl h ↦ (0, ground arith)
    | inr h ↦ let (i, f) = found k d c (ground arith) in (suc i, f)
  ]

  batch-sent :
      (cs : List ListenContext) (i : ℕ) (c : ListenContext) (p : Proxy env)
      → get_elem? cs i ≡ some c
      → (send_batch_listen env cs true p).1.sent ≡ config_batch_listen true cs ∷ p.sent
  unfolding send_batch_listen
  batch-sent [] i c p e = absurd cc
  batch-sent (x ∷ cs) i c p e = refl

  -- A reconnect sends one request, which listens again to every context that is wanted: the batch of
  -- the request holds the context of each key whose last call added it.
  pub reconnect_replays :
      (k : Text) (p : Proxy env) (os : List Op) (c : ListenContext)
      → wanted k (Dict.get k p.listen_contexts) os ≡ some c
      → ((on_reconnect env (run p os)).sent
          ≡ config_batch_listen true (values (run p os).listen_contexts) ∷ (run p os).sent)
        × ((i : ℕ) × (get_elem? (values (run p os).listen_contexts) i ≡ some c))
  unfolding on_reconnect
  reconnect_replays k p os c h =
      let f = found k (run p os).listen_contexts c (get-run k p os ∙ h) in
      (batch-sent (values (run p os).listen_contexts) f.0 c (run p os) f.1, f)
