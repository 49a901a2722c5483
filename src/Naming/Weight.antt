-- ===== src/Naming/Weight.antt =====
-- packages/nacos-naming/src/utils.ts: `chooseHostByWeight`, and packages/nacos-naming/src/naming/
-- client.ts: the filter of `selectInstances`. A weight is a whole number of some unit, and
-- `Math.random()` is a fraction `num / den` with `num < den`, so that the source's comparison of
-- products is one of natural numbers.
pub mod Proportion
use nacos_sdk_nodejs.Prelude.{
  ℕ, zero, suc, ◌+◌, ◌*◌, Bool, true, false, ◌&&◌, Option, none, some, Text, List, [], ◌∷◌, filter,
  if◌then◌else◌, ltb,
}

pub record Host : Type 0 where
  pub ip : Text
  pub port : ℕ
  pub weight : ℕ
  pub healthy : Bool
  pub enabled : Bool

-- the loop that adds up the weights
unfoldable pub total_from : ℕ → List Host → ℕ
total_from acc [] = acc
total_from acc (h ∷ hs) = total_from (acc + h.weight) hs

-- `random < currentWeight`, with `random = (num / den) * total`
abbrev pub hits : ℕ → ℕ → ℕ → ℕ → Bool
hits num den total current = ltb (num * total) (current * den)

-- the second loop; none if it ends without a `return`
pub pick_from : ℕ → ℕ → ℕ → ℕ → List Host → Option Host
pick_from num den total current [] = none
pick_from num den total current (h ∷ hs) =
    let next = current + h.weight in
    let rest = pick_from num den total next hs in if hits num den total next then some h else rest

-- `hosts[hosts.length - 1]`
abbrev pub last_of : Host → List Host → Host
last_of h [] = h
last_of h (k ∷ ks) = last_of k ks

abbrev or_last : Host → List Host → Option Host → Host
or_last h hs none = last_of h hs
or_last h hs (some k) = k

pub choose_host_by_weight : ℕ → ℕ → List Host → Option Host
unfolding total_from pick_from
choose_host_by_weight num den [] = none
choose_host_by_weight num den (h ∷ []) = some h
choose_host_by_weight num den (h ∷ k ∷ hs) =
    some (or_last h (k ∷ hs) (pick_from num den (total_from 0 (h ∷ k ∷ hs)) 0 (h ∷ k ∷ hs)))

pub same_flag : Bool → Bool → Bool
same_flag true b = b
same_flag false true = false
same_flag false false = true

abbrev pub is_selected : Bool → Host → Bool
is_selected healthy h = same_flag h.healthy healthy && (h.enabled && ltb 0 h.weight)

-- the filter of `selectInstances`
pub select_hosts : Bool → List Host → List Host
unfolding same_flag
select_hosts healthy hosts = filter (is_selected healthy) hosts
