-- ===== src/Prelude/Modular.antt =====
-- Going round the places of a list: positions modulo its length.
use Prim.Native.Nat.{ℕ, suc, ◌+◌, ◌-◌, ◌%◌, ◌<◌}
use mathlib.Core.Path.{◌≡◌, ap, ◌∙◌}
use native.Mathlib.Omega.{arith}
use native.Mathlib.Nat.{mod-eq_of_lt, mod-add-mod, add-mod-mod, add-mod_right}

-- One step after `k` steps.
pub step_mod : (i k n : ℕ) → ((i + k) % n + 1) % n ≡ (i + suc k) % n
step_mod i k n = mod-add-mod (i + k) n 1 ∙ ap (λ t. t % n) (omega arith)

-- `k` steps after one step.
pub mod_step : (i k n : ℕ) → ((i + 1) % n + k) % n ≡ (i + suc k) % n
mod_step i k n = mod-add-mod (i + 1) n k ∙ ap (λ t. t % n) (omega arith)

-- From any place, some number of steps below the length leads to a given place.
pub back_mod : (i j n : ℕ) → i < n → j < n → (i + (j + n - i) % n) % n ≡ j
back_mod i j n h k =
    add-mod-mod i (j + n - i) n ∙ ap (λ t. t % n) (omega arith) ∙ add-mod_right j n ∙ mod-eq_of_lt k
