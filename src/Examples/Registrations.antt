-- ===== src/Examples/Registrations.antt =====
-- A naming client over a transport that fails every request.
use nacos_sdk_nodejs.Prelude.{
  ℕ, ◌≡◌, refl, true, none, some, Text, text_eq, codes, err, List, [], ◌∷◌, get_elem?,
}
use nacos_sdk_nodejs.Prelude.Numbers.{digits_before}
use nacos_sdk_nodejs.Naming.Names.{get_grouped_name, includes_spliter}
use nacos_sdk_nodejs.Naming.Names.RoundTrip.{no_at}
use nacos_sdk_nodejs.Naming.Instance.{InstanceOptions}
use nacos_sdk_nodejs.Naming.GrpcProxy.{
  NamingEnv, Proxy, Registered, register_instance, instance_request, instance_message, instance_key,
  replay_instance, on_reconnect,
}
use nacos_sdk_nodejs.Naming.GrpcProxy.Calls.{register_service}
use nacos_sdk_nodejs.Prelude.Dict
use nacos_sdk_nodejs.Naming.GrpcProxy.Sends.{Sends, requests, replay_request}
use nacos_sdk_nodejs.Naming.GrpcProxy.Replay.{
  Op, registers, subscribes, reconnects, run, wanted, registered_is_replayed, replay_drops_group,
}

abbrev env : NamingEnv
env = record {
  Net = Unit {0};
  Fault = Unit {0};
  Host = Unit {0};
  request = λ r n. (err tt, n);
  stringify = λ r. [];
  now = λ n. 0;
  namespace = codes "public";
}

abbrev start : Proxy env
start = record { registered = []; active = []; listens = true; net = tt; sent = [] }

abbrev instance_a : InstanceOptions
instance_a = record {
  instance_id = none;
  ip = codes "1.1.1.1";
  port = 80;
  weight = none;
  valid = none;
  healthy = none;
  enabled = none;
  ephemeral = none;
  cluster_name = none;
  service_name = none;
  metadata = none;
}

abbrev ops : List Op
ops =
    registers (codes "g@@s") (codes "g") instance_a ∷ subscribes (codes "g@@s") [] ∷ reconnects ∷ []

abbrev kept : Registered
kept = record { service_name = codes "g@@s"; group_name = codes "g"; instance_ = instance_a }

abbrev k : Text
k = codes "g@@s@@1.1.1.1:80"

registered_is_replayed_example :
    Sends env
      (run env start ops)
      (requests env (run env start ops))
      (on_reconnect env (run env start ops))
    × ((i : ℕ) × (get_elem? (requests env (run env start ops)) i
          ≡ some (replay_request env (k, kept))))
unfolding wanted text_eq digits_before
registered_is_replayed_example = registered_is_replayed env k start ops kept refl

replay_drops_group_example :
    let name = get_grouped_name (codes "s") (codes "g") in
    let registering = register_service env name (codes "g") instance_a start in
    let sends = λ (m : Text).
      instance_request
        (codes "public")
        (codes "s")
        (codes "g")
        register_instance
        (instance_message m instance_a) in
    (registering.1.sent ≡ sends name ∷ [])
    × ((r : Registered) × (Dict.get (instance_key name instance_a) registering.1.registered
          ≡ some r)
        × ((replay_instance env r start).sent ≡ sends (codes "s") ∷ []))
unfolding includes_spliter no_at
replay_drops_group_example =
    replay_drops_group env (codes "g") (codes "g") (codes "s") instance_a start start refl refl
