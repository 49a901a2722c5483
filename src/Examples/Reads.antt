-- ===== src/Examples/Reads.antt =====
-- A client over gRPC whose server answers from a list, and then is down.
use nacos_sdk_nodejs.Prelude.{
  ◌≡◌, ◌⊎◌, refl, Option, none, some, Text, codes, Outcome, ok, err, List, [], ◌∷◌,
}
use nacos_sdk_nodejs.Config.Recovery.{
  read_config_with_failover, recover, after_fetch, after_failover,
}
use nacos_sdk_nodejs.Config.GrpcProxy
use nacos_sdk_nodejs.Config.GrpcProxy.{GrpcEnv, Response, transport_failed}
use nacos_sdk_nodejs.Config.Client.Requests.{
  ClientEnv, World, Error, proxy_failed, check_parameters, is_valid, is_valid_char,
  get_snapshot_key, grpc_hooks, get_config, remove,
}
use nacos_sdk_nodejs.Config.Client.Requests.Outages.{
  on_disk, read_then, looked, Emitted, outage_after_answer, removed_stays_removed,
}
use nacos_sdk_nodejs.Config.Snapshot.{Snapshot, get_failover, save, delete}
use nacos_sdk_nodejs.Config.Snapshot.Interface.{store_of}
use nacos_sdk_nodejs.Examples.Files.{fs, fs-Lawful, snapshots, join_all}
use nacos_sdk_nodejs.Examples.Stores.{Saved, store}

abbrev Answers : Type 0
Answers = List (Outcome Text (Option Response))

unfoldable next_answer : Answers → Outcome Text (Option Response) × Answers
next_answer [] = (err (codes "down"), [])
next_answer (a ∷ as') = (a, as')

abbrev settings : ClientEnv
settings = record {
  Store = Saved;
  snapshot = store;
  grpc = record {
    Net = Answers;
    Fault = Text;
    request = λ r n. next_answer n;
    namespace = codes "public";
  };
  namespace = none;
  unit = none;
  join = join_all;
  encode_uri = λ t. t;
}

abbrev done : Text → Outcome Text (Option Response)
done t =
    ok (some (record { result_code = some 200; error_code = none; content = some t; message = [] }))

abbrev env : ClientEnv
env = on_disk fs (codes "/c") settings

abbrev k : Text
k = get_snapshot_key env (codes "d") (codes "g")

abbrev world : Snapshot fs → Answers → World env
world files answers = record {
  files = files;
  proxy = record { listen_contexts = []; net = answers; sent = []; emitted = [] };
  reported = [];
}

abbrev down : Error env
down = transport_failed (codes "down")

abbrev unread : World env
unread = world snapshots (done (codes "v") ∷ [])

outage_after_answer_example :
    ((get_config env
        (codes "d")
        (codes "g")
        (read_then fs (codes "/c") settings (codes "d") (codes "g") unread)).0
      ≡ ok (codes "v"))
    ⊎ Emitted fs
        (codes "/c")
        settings
        (codes "d")
        (codes "g")
        (looked fs (codes "/c") settings (codes "d") (codes "g") unread)
        (read_then fs (codes "/c") settings (codes "d") (codes "g") unread).files
unfolding check_parameters is_valid is_valid_char next_answer get_failover save GrpcProxy.get_config
    get_config grpc_hooks store_of read_config_with_failover after_failover after_fetch recover
outage_after_answer_example =
    outage_after_answer fs (codes "/c") settings (codes "d") (codes "g") fs-Lawful unread
      (some (codes "v")) down refl refl refl refl refl

abbrev unremoved : World env
unremoved = world (save fs snapshots k (codes "v")) (done [] ∷ [])

removed_stays_removed_example :
    ((get_config env (codes "d") (codes "g") (remove env (codes "d") (codes "g") unremoved).1).0
      ≡ err (proxy_failed down))
    ⊎ Emitted fs
        (codes "/c")
        settings
        (codes "d")
        (codes "g")
        unremoved.files
        (remove env (codes "d") (codes "g") unremoved).1.files
unfolding check_parameters is_valid is_valid_char next_answer get_failover save delete
    GrpcProxy.get_config GrpcProxy.remove remove store_of
removed_stays_removed_example =
    removed_stays_removed fs (codes "/c") settings (codes "d") (codes "g") fs-Lawful unremoved down
      refl refl refl refl
