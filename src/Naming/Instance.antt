-- ===== src/Naming/Instance.antt =====
-- packages/nacos-naming/src/naming/instance.ts: `Instance`, and packages/nacos-naming/src/
-- interface.ts: `InstanceOptions`. An optional field that is missing is none; a weight is a whole
-- number.
use nacos_sdk_nodejs.Prelude.{
  ℕ, Bool, true, Option, none, some, Text, codes, [], ◌∷◌, ◌++◌, ◌==◌, if◌then◌else◌, get_or_else,
}
use nacos_sdk_nodejs.Prelude.Dict.{Dict}
use nacos_sdk_nodejs.Prelude.Numbers.{decimal}

pub record InstanceOptions : Type 0 where
  pub instance_id : Option Text
  pub ip : Text
  pub port : ℕ
  pub weight : Option ℕ
  pub valid : Option Bool
  pub healthy : Option Bool
  pub enabled : Option Bool
  pub ephemeral : Option Bool
  pub cluster_name : Option Text
  pub service_name : Option Text
  pub metadata : Option (Dict Text)

pub record Instance : Type 0 where
  pub instance_id : Option Text
  pub ip : Text
  pub port : ℕ
  pub weight : ℕ
  pub healthy : Bool
  pub enabled : Bool
  pub ephemeral : Bool
  pub cluster_name : Text
  pub service_name : Option Text
  pub metadata : Dict Text

-- `NAMING_DEFAULT_CLUSTER_NAME`
abbrev pub default_cluster_name : Text
default_cluster_name = codes "DEFAULT"

-- `a || d`
abbrev pub or_number : Option ℕ → ℕ → ℕ
or_number none d = d
or_number (some n) d = if n == 0 then d else n

abbrev pub or_string : Option Text → Text → Text
or_string none d = d
or_string (some []) d = d
or_string (some (c ∷ s)) d = c ∷ s

abbrev pub health_of : Option Bool → Option Bool → Bool
health_of (some v) h = v
health_of none (some h) = h
health_of none none = true

-- the constructor
unfoldable pub new_instance : InstanceOptions → Instance
new_instance o = record {
  instance_id = o.instance_id;
  ip = o.ip;
  port = o.port;
  weight = or_number o.weight 1;
  healthy = health_of o.valid o.healthy;
  enabled = get_or_else true o.enabled;
  ephemeral = get_or_else true o.ephemeral;
  cluster_name = or_string o.cluster_name default_cluster_name;
  service_name = o.service_name;
  metadata = get_or_else [] o.metadata;
}

-- an `Instance` where any object with these fields is taken
abbrev pub as_options : Instance → InstanceOptions
as_options i = record {
  instance_id = i.instance_id;
  ip = i.ip;
  port = i.port;
  weight = some i.weight;
  valid = none;
  healthy = some i.healthy;
  enabled = some i.enabled;
  ephemeral = some i.ephemeral;
  cluster_name = some i.cluster_name;
  service_name = i.service_name;
  metadata = some i.metadata;
}

-- `toInetAddr`
unfoldable pub to_inet_addr : Instance → Text
to_inet_addr i = i.ip ++ (b':' ∷ decimal i.port)
