-- ===== src/Examples/Servers.antt =====
-- A server list that is cached.
use nacos_sdk_nodejs.Prelude.{
  ℕ, suc, ◌<◌, ◌≡◌, refl, none, some, Text, text_eq, codes, err, List, [], ◌∷◌, get_elem?, arith,
}
use nacos_sdk_nodejs.Prelude.Dict
use nacos_sdk_nodejs.Config.Recovery.{SnapshotStore}
use nacos_sdk_nodejs.Config.ServerList.{MgrEnv, Manager}
use nacos_sdk_nodejs.Config.ServerList.Rotation.{update_times, update_times_reaches}

abbrev no_files : SnapshotStore (Unit {0})
no_files = record {
  cache_dir = [];
  get = λ s k. (none, s);
  save = λ s k v. s;
  delete = λ s k. s;
  get_failover = λ s k. (none, s);
}

abbrev env : MgrEnv
env = record {
  Store = Unit {0};
  Net = Unit {0};
  HttpError = Unit {0};
  snapshot = no_files;
  request = λ n url. (err tt, n);
  random = λ n k. 0;
  trim = λ t. t;
  stringify = λ hosts. [];
  parse = λ t. none;
  join = λ ps. [];
  name_server_addr = [];
  context_path = [];
  cluster_name = [];
  endpoint_query_params = [];
}

abbrev hosts : List Text
hosts = codes "a" ∷ codes "b" ∷ codes "c" ∷ []

abbrev u : Text
u = codes "u"

abbrev manager : Manager env
manager = record {
  server_list_cache = (u, some (record { hosts = hosts; index = 1 })) ∷ [];
  current_server_addr_map = [];
  files = tt;
  net = tt;
  emitted = [];
}

update_times_reaches_example :
    (k : ℕ) × (k < 3)
    × (Dict.get u (update_times env (suc k) u manager).current_server_addr_map ≡ get_elem? hosts 0)
unfolding Dict.get text_eq
update_times_reaches_example =
    update_times_reaches env u manager hosts 1 0 (refl, omega arith) (omega arith)
