-- ===== src/Config/ServerList/Rotation.antt =====
-- The use of the servers in turn.
use nacos_sdk_nodejs.Prelude.{
  ℕ, zero, suc, ◌+◌, ◌-◌, ◌%◌, ◌<◌, ◌≡◌, ap, ◌∙◌, false, some, Text, List, leb, arith, length,
  get_elem?, get_elem?-lt,
}
use native.Mathlib.Nat.{mod-lt, mod-eq_of_lt, add-zero}
use nacos_sdk_nodejs.Prelude.Modular.{step_mod, back_mod}
use nacos_sdk_nodejs.Prelude.Dict
use nacos_sdk_nodejs.Prelude.Dict.{get-set_self}
use nacos_sdk_nodejs.Config.ServerList.{MgrEnv, Manager, update_current_server}

-- `k` calls of `updateCurrentServer`, as failed requests make them
pub update_times : (env : MgrEnv) → ℕ → Text → Manager env → Manager env
update_times env zero unit m = m
update_times env (suc k) unit m = update_current_server env unit (update_times env k unit m)

module _ (env : MgrEnv) (unit : Text) where
  -- The unit's list is cached, at an index in range.
  abbrev pub Cached : Manager env → List Text → ℕ → Type 0
  Cached m hosts i =
      (Dict.get unit m.server_list_cache ≡ some (some (record { hosts = hosts; index = i })))
      × (i < length hosts)

  -- One call uses the host at the index, and steps to the next.
  update-Cached :
      (m : Manager env) (hosts : List Text) (i : ℕ)
      → Cached m hosts i
      → Cached (update_current_server env unit m) hosts ((i + 1) % length hosts)
        × (Dict.get unit (update_current_server env unit m).current_server_addr_map
            ≡ get_elem? hosts i)
  unfolding update_current_server
  update-Cached m hosts i (c, l) =
      let (x, e) = get_elem?-lt hosts i l in
      let small : leb (length hosts) i ≡ false = ground arith in
      rw (c, update_current_server)
        (rw (c, small, e)
          (
            (
              get-set_self unit _ m.server_list_cache,
              mod-lt (i + 1) {m = length hosts} (omega arith),
            ),
            get-set_self unit x m.current_server_addr_map,
          ))

  -- After any number of calls the list is still cached, and the index has gone round with them.
  update_times-Cached :
      (m : Manager env) (hosts : List Text) (i k : ℕ)
      → Cached m hosts i
      → Cached (update_times env k unit m) hosts ((i + k) % length hosts)
  unfolding update_times
  update_times-Cached m hosts i zero (c, l) = rw (add-zero, mod-eq_of_lt l) (c, l)
  update_times-Cached m hosts i (suc k) c =
      rw (← step_mod i k (length hosts))
        (update-Cached (update_times env k unit m) hosts _ (update_times-Cached m hosts i k c)).0

  -- While a unit's list is cached, `k + 1` calls leave the host in use that stands `k` places after
  -- the first index, round the list.
  current-update_times :
      (m : Manager env) (hosts : List Text) (i k : ℕ)
      → Cached m hosts i
      → Dict.get unit (update_times env (suc k) unit m).current_server_addr_map
        ≡ get_elem? hosts ((i + k) % length hosts)
  unfolding update_times
  current-update_times m hosts i k c =
      (update-Cached (update_times env k unit m) hosts _ (update_times-Cached m hosts i k c)).1

  -- While a unit's list is cached, each of its hosts is in use after some number of calls that is at
  -- most the length of the list.
  pub update_times_reaches :
      (m : Manager env) (hosts : List Text) (i j : ℕ)
      → Cached m hosts i
      → j < length hosts
      → (k : ℕ) × (k < length hosts)
        × (Dict.get unit (update_times env (suc k) unit m).current_server_addr_map
            ≡ get_elem? hosts j)
  update_times_reaches m hosts i j (c, l) h =
      let n = length hosts in
      (
        (j + n - i) % n,
        mod-lt (j + n - i) {m = n} (omega arith),
        current-update_times m hosts i ((j + n - i) % n) (c, l)
            ∙ ap (get_elem? hosts) (back_mod i j n l h),
      )
