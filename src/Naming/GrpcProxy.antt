-- ===== src/Naming/GrpcProxy.antt =====
-- packages/nacos-naming/src/naming/grpc_proxy.ts: `GrpcNamingProxy`, the naming requests over gRPC,
-- with the instances and the subscriptions that a reconnect sends again. The transport is a
-- parameter.
pub mod Calls
pub mod Sends
pub mod Replay
use nacos_sdk_nodejs.Prelude.{
  ℕ, Bool, true, false, Option, none, some, Text, Outcome, ok, err, codes, List, [], ◌∷◌, ◌++◌,
  if◌then◌else◌, ◌==◌, or_text, get_or_else, is_empty,
}
use nacos_sdk_nodejs.Prelude.Dict
use nacos_sdk_nodejs.Prelude.Dict.{Dict}
use nacos_sdk_nodejs.Prelude.Numbers.{decimal}
use nacos_sdk_nodejs.Naming.Names.{spliter, split_grouped_name}
use nacos_sdk_nodejs.Naming.Instance.{InstanceOptions, or_string, default_cluster_name}

-- the field `instance` of an `InstanceRequest`
pub record InstanceMessage : Type 0 where
  pub instance_id : Text
  pub ip : Text
  pub port : ℕ
  pub weight : ℕ
  pub healthy : Bool
  pub enabled : Bool
  pub ephemeral : Bool
  pub cluster_name : Text
  pub service_name : Text
  pub metadata : Dict Text

pub data Kind : Type 0 where
  register_instance deregister_instance : Kind

-- a request with its type; after the namespace, the service and the group
pub data NamingRequest : Type 0 where
  instance_request : Text → Text → Text → Kind → InstanceMessage → NamingRequest
  -- … the clusters, `healthyOnly` and the port of the UDP socket
  service_query : Text → Text → Text → Text → Bool → ℕ → NamingRequest
  -- … the clusters, and whether to subscribe
  subscribe_service : Text → Text → Text → Text → Bool → NamingRequest
  -- the group, the page and its size
  service_list : Text → Text → ℕ → ℕ → NamingRequest
  server_check : NamingRequest

-- a `serviceInfo` of a message; an empty text, 0 and an absent list are falsy fields
pub record PushedService (Host : Type 0) : Type 0 where
  pub name : Text
  pub group_name : Text
  pub clusters : Text
  pub cache_millis : ℕ
  pub hosts : Option (List Host)
  pub last_ref_time : ℕ
  pub checksum : Text

pub record NamingResponse (Host : Type 0) : Type 0 where
  pub result_code : Option ℕ
  pub service_info : Option (PushedService Host)
  pub connection_id : Text
  pub count : ℕ
  pub service_names : Option (List Text)

pub data NamingFault (Fault : Type 0) : Type 0 where
  transport_failed : Fault → NamingFault Fault
  -- a property of a response that is `null`
  no_response : NamingFault Fault

-- the object whose JSON text `HostReactor` takes
pub record ServiceJson (Host : Type 0) : Type 0 where
  pub name : Text
  pub dom : Text
  pub group_name : Text
  pub clusters : Text
  pub cache_millis : ℕ
  pub hosts : List Host
  pub last_ref_time : ℕ
  pub checksum : Text

pub record NamingEnv : Type 1 where
  pub Net : Type 0
  pub Fault : Type 0
  pub Host : Type 0
  -- `transportClient.request(request, type)`; a response may be `null`
  pub request : NamingRequest → Net → Outcome Fault (Option (NamingResponse Host)) × Net
  -- `JSON.stringify` of a response
  pub stringify : NamingResponse Host → Text
  -- `Date.now()`
  pub now : Net → ℕ
  -- `options.namespace || 'public'`
  pub namespace : Text

pub record Registered : Type 0 where
  pub service_name : Text
  pub group_name : Text
  pub instance_ : InstanceOptions

pub record Subscription : Type 0 where
  pub service_name : Text
  pub group_name : Text
  pub clusters : Text

-- the key of `_registeredInstances`
abbrev pub instance_key : Text → InstanceOptions → Text
instance_key service_name i = service_name ++ (spliter ++ (i.ip ++ (b':' ∷ decimal i.port)))

-- the key of `_activeSubscriptions`
abbrev pub subscription_key : Text → Text → Text
subscription_key service_name clusters = service_name ++ (spliter ++ clusters)

-- the message of an instance, with the service name that it carries
unfoldable pub instance_message : Text → InstanceOptions → InstanceMessage
instance_message name i = record {
  instance_id = or_string i.instance_id [];
  ip = i.ip;
  port = i.port;
  weight = get_or_else 1 i.weight;
  healthy = get_or_else true i.healthy;
  enabled = get_or_else true i.enabled;
  ephemeral = get_or_else true i.ephemeral;
  cluster_name = or_string i.cluster_name default_cluster_name;
  service_name = name;
  metadata = get_or_else [] i.metadata;
}

abbrev pub default_cache_millis : ℕ
default_cache_millis = 10000

abbrev pub or_num : ℕ → ℕ → ℕ
or_num n d = if n == 0 then d else n

-- `response.serviceInfo || {}`
abbrev pub or_no_service : {Host : Type 0} → Option (PushedService Host) → PushedService Host
or_no_service none = record {
  name = [];
  group_name = [];
  clusters = [];
  cache_millis = 0;
  hosts = none;
  last_ref_time = 0;
  checksum = [];
}
or_no_service (some s) = s

-- the object that is turned to JSON, with what stands in for a name, a group and clusters
unfoldable pub service_json :
    {Host : Type 0} (name group_name clusters : Text) (now : ℕ)
    → Option (PushedService Host)
    → ServiceJson Host
service_json name group_name clusters now pushed =
    let si = or_no_service pushed in
    record {
      name = or_text si.name name;
      dom = or_text si.name name;
      group_name = or_text si.group_name group_name;
      clusters = or_text si.clusters clusters;
      cache_millis = or_num si.cache_millis default_cache_millis;
      hosts = get_or_else [] si.hosts;
      last_ref_time = or_num si.last_ref_time now;
      checksum = si.checksum;
    }

module _ (env : NamingEnv) where
  open env use {Net, Fault, Host}

  pub record Proxy : Type 0 where
    pub registered : Dict Registered
    pub active : Dict Subscription
    -- the handler of `NotifySubscriberRequest` is registered
    pub listens : Bool
    pub net : Net
    -- the requests sent, the last one first
    pub sent : List NamingRequest

  abbrev pub send : NamingRequest → Proxy → Outcome Fault (Option (NamingResponse Host)) × Proxy
  send r p = let (o, net) = env.request r p.net in (o, record p { net = net; sent = r ∷ p.sent })

  -- the instance request of a service, with the service name that goes into the instance
  unfoldable pub request_of : Kind → (inner service_name : Text) → InstanceOptions → NamingRequest
  request_of k inner service_name i =
      let g = split_grouped_name service_name in
      instance_request env.namespace g.service_name g.group_name k (instance_message inner i)

  unfoldable pub subscribe_request : Bool → Text → Text → NamingRequest
  subscribe_request b service_name clusters =
      let g = split_grouped_name service_name in
      subscribe_service env.namespace g.service_name g.group_name clusters b

  -- a round of the first loop of `_onReconnect`: an error is logged
  unfoldable pub replay_instance : Registered → Proxy → Proxy
  replay_instance r p =
      (send
        (request_of register_instance (split_grouped_name r.service_name).service_name
          r.service_name r.instance_)
        p).1

  unfoldable pub replay_instances : Dict Registered → Proxy → Proxy
  replay_instances [] p = p
  replay_instances ((k, r) ∷ rs) p = replay_instances rs (replay_instance r p)

  -- the second loop
  unfoldable pub replay_subscriptions : Dict Subscription → Proxy → Proxy
  replay_subscriptions [] p = p
  replay_subscriptions ((k, s) ∷ ss) p =
      replay_subscriptions ss (send (subscribe_request true s.service_name s.clusters) p).1

  -- `_onReconnect`, while no other call changes the two maps
  unfoldable pub on_reconnect : Proxy → Proxy
  on_reconnect p = let q = replay_instances p.registered p in replay_subscriptions q.active q
