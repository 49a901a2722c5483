-- ===== src/Naming/Names/RoundTrip.antt =====
-- A grouped name and a service key are taken apart into what they were made from.
use nacos_sdk_nodejs.Prelude.{
  ◌≡◌, refl, Bool, true, false, none, some, Text, [], ◌∷◌, ◌++◌, arith, ◌==◌, if◌then◌else◌,
  is_empty,
}
use mathlib.Core.List.{append_assoc}
use nacos_sdk_nodejs.Naming.Names.{
  spliter, includes_spliter, split, get_grouped_name, get_service_name, get_group_name,
  split_grouped_name, get_key, from_key,
}

-- The text holds no `@`.
unfoldable pub no_at : Text → Bool
no_at [] = true
no_at (x ∷ s) = if x == b'@' then false else no_at s

split_group : (g s : Text) → no_at g ≡ true → split (g ++ (spliter ++ s)) ≡ g ∷ split s
unfolding split no_at
split_group [] s h = refl
split_group (x ∷ []) s h = ground arith
split_group (x ∷ y ∷ g) s h = ground (arith, split_group (y ∷ g) s)

split_single : (s : Text) → includes_spliter s ≡ false → split s ≡ s ∷ []
unfolding split includes_spliter
split_single [] h = refl
split_single (x ∷ []) h = refl
split_single (x ∷ y ∷ s) h = ground (arith, split_single (y ∷ s))

includes-grouped : (g s : Text) → includes_spliter (g ++ (spliter ++ s)) ≡ true
unfolding includes_spliter
includes-grouped [] s = refl
includes-grouped (x ∷ []) s = ground arith
includes-grouped (x ∷ y ∷ g) s = ground (arith, includes-grouped (y ∷ g) s)

no_at-includes : (s : Text) → no_at s ≡ true → includes_spliter s ≡ false
unfolding includes_spliter no_at
no_at-includes [] h = refl
no_at-includes (x ∷ []) h = refl
no_at-includes (x ∷ y ∷ s) h = ground (arith, no_at-includes (y ∷ s))

-- A grouped name, made of a group without `@` and a service name without `@@`, gives back the
-- service and the group, in `getServiceName`, `getGroupName` and `splitGroupedName` alike.
pub grouped_name_round_trip :
    (g s : Text)
    → no_at g ≡ true
    → includes_spliter s ≡ false
    → (get_service_name (get_grouped_name s g) ≡ s)
      × (get_group_name (get_grouped_name s g) ≡ g)
      × (split_grouped_name (get_grouped_name s g) ≡ record { service_name = s; group_name = g })
unfolding get_service_name get_group_name get_grouped_name split_grouped_name
grouped_name_round_trip g s h k = (
  rw (includes-grouped g s, split_group g s h, split_single s k),
  rw (includes-grouped g s, split_group g s h),
  rw (includes-grouped g s, split_group g s h, split_single s k),
)

-- The key of a grouped name and of clusters gives back all three, in `fromKey`, where the group and
-- the service name hold no `@` and the clusters, which may be absent, hold no `@@`.
from_key-get_key :
    (g s : Text) (c : Text)
    → no_at g ≡ true
    → no_at s ≡ true
    → includes_spliter c ≡ false
    → from_key (get_key (get_grouped_name s g) (some c))
      ≡ record { name = s; group_name = some g; clusters = if is_empty c then none else some c }
unfolding from_key get_key get_grouped_name
from_key-get_key g s [] h k l = rw (split_group g s h, split_single s (no_at-includes s k))
from_key-get_key g s (x ∷ c) h k l =
    rw (append_assoc g, split_group g _ h, split_group s (x ∷ c) k, split_single (x ∷ c) l)
