-- ===== src/Examples/Names.antt =====
-- Names of services, and hosts with weights.
use nacos_sdk_nodejs.Prelude.{◌≡◌, refl, true, some, Text, codes, [], ◌∷◌, arith}
use nacos_sdk_nodejs.Naming.Names.{
  get_grouped_name, get_service_name, get_group_name, split_grouped_name, includes_spliter,
}
use nacos_sdk_nodejs.Naming.Names.RoundTrip.{no_at, grouped_name_round_trip}
use nacos_sdk_nodejs.Naming.Weight.{Host, choose_host_by_weight, total_from}
use nacos_sdk_nodejs.Naming.Weight.Proportion.{Lands, choose-Lands}

abbrev s : Text
s = codes "s"

abbrev g : Text
g = codes "G"

grouped_name_round_trip_example :
    (get_service_name (get_grouped_name s g) ≡ s)
    × (get_group_name (get_grouped_name s g) ≡ g)
    × (split_grouped_name (get_grouped_name s g) ≡ record { service_name = s; group_name = g })
unfolding no_at includes_spliter
grouped_name_round_trip_example = grouped_name_round_trip g s refl refl

abbrev light : Host
light = record { ip = s; port = 1; weight = 1; healthy = true; enabled = true }

abbrev heavy : Host
heavy = record { ip = g; port = 2; weight = 3; healthy = true; enabled = true }

choose-Lands_example :
    (h : Host) × (choose_host_by_weight 1 2 (light ∷ heavy ∷ []) ≡ some h)
    × Lands 1 2 4 0 (light ∷ heavy ∷ []) h
unfolding total_from
choose-Lands_example = choose-Lands 1 2 (light ∷ heavy ∷ []) (omega arith) (omega arith)
