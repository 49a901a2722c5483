-- ===== src/Naming/GrpcProxy/Sends.antt =====
-- The requests that a reconnect of `GrpcNamingProxy` sends.
use nacos_sdk_nodejs.Prelude.{◌≡◌, refl, sym, ap, ◌∙◌, subst, true, Text, List, [], ◌∷◌, ◌++◌, map}
use nacos_sdk_nodejs.Prelude.Dict.{Dict}
use nacos_sdk_nodejs.Naming.Names.{split_grouped_name}
use nacos_sdk_nodejs.Naming.GrpcProxy.{
  NamingEnv, Registered, Subscription, NamingRequest, Proxy, send, register_instance, request_of,
  subscribe_request, replay_instance, replay_instances, replay_subscriptions, on_reconnect,
}

module _ (env : NamingEnv) where
  -- the requests that a reconnect has to send for the instances
  abbrev pub replay_request : Text × Registered → NamingRequest
  replay_request (k, r) =
      request_of env register_instance (split_grouped_name r.service_name).service_name
        r.service_name r.instance_

  abbrev pub subscription_request : Text × Subscription → NamingRequest
  subscription_request (k, s) = subscribe_request env true s.service_name s.clusters

  abbrev pub requests : Proxy env → List NamingRequest
  requests p = map replay_request p.registered ++ map subscription_request p.active

  -- Requests that are sent one after another, before a list of those sent.
  unfoldable pub send_all : List NamingRequest → List NamingRequest → List NamingRequest
  send_all [] sent = sent
  send_all (r ∷ rs) sent = send_all rs (r ∷ sent)

  send_all-append :
      (rs ss sent : List NamingRequest) → send_all (rs ++ ss) sent ≡ send_all ss (send_all rs sent)
  unfolding send_all
  send_all-append [] ss sent = refl
  send_all-append (r ∷ rs) ss sent = send_all-append rs ss (r ∷ sent)

  -- The same instances and subscriptions are kept, and these requests are sent.
  pub record Sends (p : Proxy env) (rs : List NamingRequest) (q : Proxy env) : Type 0 where
    pub registered : q.registered ≡ p.registered
    pub active : q.active ≡ p.active
    pub sent : q.sent ≡ send_all rs p.sent

  instances-Sends :
      (d : Dict Registered) (p : Proxy env)
      → Sends p (map replay_request d) (replay_instances env d p)
  unfolding replay_instances replay_instance send_all
  instances-Sends [] p = record { registered = refl; active = refl; sent = refl }
  instances-Sends ((k, r) ∷ d) p =
      let s = instances-Sends d (replay_instance env r p) in
      record { registered = s.registered; active = s.active; sent = s.sent }

  subscriptions-Sends :
      (d : Dict Subscription) (p : Proxy env)
      → Sends p (map subscription_request d) (replay_subscriptions env d p)
  unfolding replay_subscriptions send_all
  subscriptions-Sends [] p = record { registered = refl; active = refl; sent = refl }
  subscriptions-Sends ((k, c) ∷ d) p =
      let s =
        subscriptions-Sends d
          (send env (subscribe_request env true c.service_name c.clusters) p).1 in
      record { registered = s.registered; active = s.active; sent = s.sent }

  then-Sends :
      {p q : Proxy env} {rs : List NamingRequest} (d : Dict Subscription)
      → Sends p rs q
      → Sends p (rs ++ map subscription_request d) (replay_subscriptions env d q)
  then-Sends {p} {q} {rs} d a =
      let b = subscriptions-Sends d q in
      record {
        registered = b.registered ∙ a.registered;
        active = b.active ∙ a.active;
        sent =
            b.sent
            ∙ ap (send_all (map subscription_request d)) a.sent
            ∙ sym (send_all-append rs (map subscription_request d) p.sent);
      }

  -- A reconnect sends one request for each registered instance, in the order in which they were
  -- registered first, and then one for each active subscription; whichever of them fail, the others
  -- are sent, and what is kept for the next reconnect does not change.
  pub reconnect-Sends : (p : Proxy env) → Sends p (requests p) (on_reconnect env p)
  unfolding on_reconnect
  reconnect-Sends p =
      let a = instances-Sends p.registered p in
      let q = replay_instances env p.registered p in
      subst
        (λ d.
          Sends p (map replay_request p.registered ++ map subscription_request d)
            (replay_subscriptions env q.active q))
        a.active (then-Sends q.active a)
