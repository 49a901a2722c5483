-- ===== src/Examples/Reactor.antt =====
-- A reactor whose hosts are numbers, with the number as address.
use nacos_sdk_nodejs.Prelude.{◌↔◌, ℕ, ◌≡◌, false, none, some, Text, codes, err, List, [], ◌∷◌, ◌==◌}
use nacos_sdk_nodejs.Naming.Names.{get_key}
use nacos_sdk_nodejs.Naming.HostReactor.{
  ReactorEnv, ServiceInfo, Reactor, is_changed, process_service,
}
use nacos_sdk_nodejs.Naming.HostReactor.Changes.{Unchanged, is_changed_iff}
use nacos_sdk_nodejs.Naming.HostReactor.Updates.{Stored, process_service-Stored}

-- a host: its address and its weight
abbrev env : ReactorEnv
env = record {
  Host = ℕ × ℕ;
  Net = Unit {0};
  ProxyError = Unit {0};
  address = λ h. h.0 ∷ [];
  equals = λ h o. h.1 == o.1;
  parse = λ t. none;
  query_list = λ n name clusters port. (err tt, n);
  is_404 = λ e. false;
  udp_port = 0;
}

abbrev hosts : List (ℕ × ℕ)
hosts = (1, 10) ∷ (2, 10) ∷ []

abbrev service : ServiceInfo env.Host
service = record {
  name = codes "s";
  clusters = some (codes "c");
  cache_millis = 1000;
  hosts = hosts;
  last_ref_time = 9;
}

abbrev key : Text
key = get_key (codes "s") (some (codes "c"))

abbrev reactor : Reactor env
reactor = record {
  service_info_map = (get_key (codes "s") (some (codes "c")), service) ∷ [];
  updating_set = [];
  future_map = (get_key (codes "s") (some (codes "c")), record { last_ref_time = some 5 }) ∷ [];
  listeners = [];
  net = tt;
  events = [];
}

process_service-Stored_example : Stored env service reactor (process_service env service reactor).1
process_service-Stored_example = process_service-Stored env service reactor

is_changed_iff_example : (is_changed env hosts hosts ≡ false) ↔ Unchanged env hosts hosts
is_changed_iff_example = is_changed_iff env hosts hosts
