-- ===== src/Naming/GrpcProxy/Calls.antt =====
-- packages/nacos-naming/src/naming/grpc_proxy.ts: the calls of `GrpcNamingProxy`.
use nacos_sdk_nodejs.Prelude.{
  ℕ, Bool, true, false, not, Option, none, some, Text, Outcome, ok, err, codes, List, [],
  if◌then◌else◌, ◌==◌, get_or_else, is_empty,
}
use nacos_sdk_nodejs.Prelude.Dict
use nacos_sdk_nodejs.Naming.Names.{split_grouped_name}
use nacos_sdk_nodejs.Naming.Instance.{InstanceOptions}
use nacos_sdk_nodejs.Naming.GrpcProxy.{
  register_instance, deregister_instance, service_query, service_list, server_check, PushedService,
  NamingResponse, NamingFault, transport_failed, no_response, ServiceJson, NamingEnv, instance_key,
  subscription_key, service_json, Proxy, send, request_of, subscribe_request,
}

abbrev pub is_code : Option ℕ → ℕ → Bool
is_code none n = false
is_code (some m) n = m == n

pub record ServiceListResult : Type 0 where
  pub count : ℕ
  pub names : List Text

module _ (env : NamingEnv) where
  open env use {Net, Fault, Host}

  abbrev pub Answer : Type 0 → Type 0
  Answer A = Outcome (NamingFault Fault) A × Proxy env

  -- what follows `await this._transportClient.request(…)`
  abbrev pub then_use :
      {A : Type 0}
      → (NamingResponse Host → A)
      → Outcome Fault (Option (NamingResponse Host)) × Proxy env
      → Answer A
  then_use f (err e, p) = (err (transport_failed e), p)
  then_use f (ok none, p) = (err no_response, p)
  then_use f (ok (some r), p) = (ok (f r), p)

  abbrev pub result_text : NamingResponse Host → Text
  result_text r = if is_code r.result_code 200 then codes "ok" else env.stringify r

  -- the instance is kept before the request, whatever comes of it
  unfoldable pub register_service : Text → Text → InstanceOptions → Proxy env → Answer Text
  register_service service_name group_name i p = then_use result_text (
      send env (request_of env register_instance service_name service_name i) (record p {
        registered =
            Dict.set (instance_key service_name i)
              (record { service_name = service_name; group_name = group_name; instance_ = i })
              p.registered;
      }))

  unfoldable pub deregister_service : Text → InstanceOptions → Proxy env → Answer Text
  deregister_service service_name i p = then_use result_text (
      send env (request_of env deregister_instance service_name service_name i)
        (record p { registered = Dict.delete (instance_key service_name i) p.registered }))

  -- `queryList`, up to the JSON text of the result
  unfoldable pub query_list : Text → Text → ℕ → Bool → Proxy env → Answer (ServiceJson Host)
  query_list service_name clusters udp_port healthy_only p =
      let g = split_grouped_name service_name in
      let (o, q) =
        send env
          (service_query env.namespace g.service_name g.group_name clusters healthy_only udp_port)
          p in
      then_use (λ r. service_json service_name [] clusters (env.now q.net) r.service_info) (o, q)

  -- `sendBeat`
  unfoldable pub send_beat : Proxy env → ℕ × Proxy env
  send_beat p = (0, p)

  abbrev pub is_healthy : Outcome Fault (Option (NamingResponse Host)) → Bool
  is_healthy (err e) = false
  is_healthy (ok none) = false
  is_healthy (ok (some r)) = not (is_empty r.connection_id)

  unfoldable pub server_healthy : Proxy env → Bool × Proxy env
  server_healthy p = let (o, q) = send env server_check p in (is_healthy o, q)

  unfoldable pub get_service_list : ℕ → ℕ → Option Text → Proxy env → Answer ServiceListResult
  get_service_list page_no page_size group_name p =
      then_use (λ r. record { count = r.count; names = get_or_else [] r.service_names })
        (send env (service_list env.namespace (get_or_else [] group_name) page_no page_size) p)

  -- the subscription is kept only after the answer
  abbrev pub keep_subscription :
      Text → Text → Outcome Fault (Option (NamingResponse Host)) × Proxy env → Proxy env
  keep_subscription service_name clusters (err e, p) = p
  keep_subscription service_name clusters (ok r, p) = record p {
    active =
        Dict.set (subscription_key service_name clusters)
          (record {
            service_name = service_name;
            group_name = (split_grouped_name service_name).group_name;
            clusters = clusters;
          })
          p.active;
  }

  unfoldable pub subscribe : Text → Text → Proxy env → Answer (ServiceJson Host)
  subscribe service_name clusters p =
      let g = split_grouped_name service_name in
      let (o, q) = send env (subscribe_request env true service_name clusters) p in
      then_use
        (λ r. service_json g.service_name g.group_name clusters (env.now q.net) r.service_info)
        (o, keep_subscription service_name clusters (o, q))

  -- `unSubscribe`: an error is logged
  unfoldable pub un_subscribe : Text → Text → Proxy env → Proxy env
  un_subscribe service_name clusters p =
      let q = (send env (subscribe_request env false service_name clusters) p).1 in
      record q { active = Dict.delete (subscription_key service_name clusters) q.active }

  -- `registerPushHandler`
  unfoldable pub register_push_handler : Proxy env → Proxy env
  register_push_handler p = record p { listens = true }

  -- what the handler of a push passes on
  unfoldable pub pushed_json : ℕ → Option (PushedService Host) → ServiceJson Host
  pushed_json now pushed = service_json [] [] [] now pushed

  unfoldable pub close : Proxy env → Proxy env
  close p = record p { listens = false; registered = []; active = [] }
