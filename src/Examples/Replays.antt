-- ===== src/Examples/Replays.antt =====
-- A transport that fails every request, and a reconnect after an addition.
use nacos_sdk_nodejs.Prelude.{
  ℕ, ◌≡◌, refl, true, none, some, Text, text_eq, codes, err, List, [], ◌∷◌, get_elem?,
}
use nacos_sdk_nodejs.Config.GrpcProxy.{
  GrpcEnv, Proxy, ListenContext, config_batch_listen, values, listen_key, on_reconnect,
}
use nacos_sdk_nodejs.Config.GrpcProxy.Replay.{Op, adds, reconnects, run, wanted, reconnect_replays}

abbrev env : GrpcEnv
env = record {
  Net = Unit {0};
  Fault = Unit {0};
  request = λ r n. (err tt, n);
  namespace = codes "public";
}

abbrev start : Proxy env
start = record { listen_contexts = []; net = tt; sent = []; emitted = [] }

abbrev ops : List Op
ops = adds (codes "d") (codes "g") (codes "m") none ∷ reconnects ∷ []

abbrev k : Text
k = listen_key (codes "d") (codes "g") (codes "public")

abbrev context : ListenContext
context = record {
  data_id = codes "d";
  group = codes "g";
  tenant = codes "public";
  md5 = codes "m";
}

reconnect_replays_example :
    ((on_reconnect env (run env start ops)).sent
      ≡ config_batch_listen true (values (run env start ops).listen_contexts)
        ∷ (run env start ops).sent)
    × ((i : ℕ) × (get_elem? (values (run env start ops).listen_contexts) i ≡ some context))
unfolding wanted text_eq
reconnect_replays_example = reconnect_replays env k start ops context refl
