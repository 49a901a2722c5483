-- ===== src/Naming/Names.antt =====
-- packages/nacos-naming/src/utils.ts (the grouped names), naming/grpc_proxy.ts (`splitGroupedName`)
-- and naming/service_info.ts (`ServiceInfo`): service names that carry a group and clusters.
pub mod RoundTrip
use nacos_sdk_nodejs.Prelude.{
  ℕ, Bool, true, false, ◌&&◌, ◌||◌, Option, none, some, Text, codes, List, [], ◌∷◌, ◌++◌,
  if◌then◌else◌, ◌==◌, is_empty, length, ltb,
}

-- `SERVICE_INFO_SPLITER`
abbrev pub spliter : Text
spliter = b'@' ∷ b'@' ∷ []

abbrev pub default_group : Text
default_group = codes "DEFAULT_GROUP"

-- `s.includes('@@')`
unfoldable pub includes_spliter : Text → Bool
includes_spliter [] = false
includes_spliter (x ∷ []) = false
includes_spliter (x ∷ y ∷ s) = (x == b'@' && y == b'@') || includes_spliter (y ∷ s)

abbrev pub push_first : ℕ → List Text → List Text
push_first x [] = []
push_first x (s ∷ ss) = (x ∷ s) ∷ ss

-- `s.split('@@')`
unfoldable pub split : Text → List Text
split [] = [] ∷ []
split (x ∷ []) = (x ∷ []) ∷ []
split (x ∷ y ∷ s) = elim (x == b'@' && y == b'@') [
  | true ↦ [] ∷ split s
  | false ↦ push_first x (split (y ∷ s))
]

-- an element of an array; the empty text stands for `undefined`
abbrev pub part : List Text → ℕ → Text
part [] i = []
part (s ∷ ss) ℕ.zero = s
part (s ∷ ss) (ℕ.suc i) = part ss i

unfoldable pub get_grouped_name : Text → Text → Text
get_grouped_name service_name group_name = group_name ++ (spliter ++ service_name)

pub get_service_name : Text → Text
get_service_name s = if includes_spliter s then part (split s) 1 else s

pub get_group_name : Text → Text
get_group_name s = if includes_spliter s then part (split s) 0 else default_group

pub record GroupedName : Type 0 where
  pub service_name : Text
  pub group_name : Text

unfoldable pub split_grouped_name : Text → GroupedName
split_grouped_name s =
    if includes_spliter s
    then record { service_name = part (split s) 1; group_name = part (split s) 0 }
    else record { service_name = s; group_name = default_group }

-- The names of a `ServiceInfo`; `groupName` and `clusters` may be undefined.
pub record ServiceName : Type 0 where
  pub name : Text
  pub group_name : Option Text
  pub clusters : Option Text

-- `ServiceInfo.getKey`; no clusters are `undefined` or the empty text
unfoldable pub get_key : Text → Option Text → Text
get_key name none = name
get_key name (some []) = name
get_key name (some (c ∷ cs)) = name ++ (spliter ++ (c ∷ cs))

abbrev of_segments : List Text → ServiceName
of_segments (g ∷ n ∷ []) = record { name = n; group_name = some g; clusters = none }
of_segments (g ∷ n ∷ c ∷ []) = record { name = n; group_name = some g; clusters = some c }
of_segments _ = record { name = []; group_name = none; clusters = none }

-- `ServiceInfo.fromKey`
pub from_key : Text → ServiceName
from_key key = of_segments (split key)
