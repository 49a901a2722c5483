-- ===== src/Prelude/Emitter.antt =====
-- The list of listeners that Node's `EventEmitter` keeps for one event; a listener is a number.
use Prim.Native.Nat.{ℕ}
use mathlib.Core.Bool.{Bool, true, false, ◌||◌}
use mathlib.Core.List.{List, [], ◌∷◌}
use nacos_sdk_nodejs.Prelude.Tests.{if◌then◌else◌, ◌==◌}

abbrev pub is_nil {ℓ} : {A : Type ℓ} → List A → Bool
is_nil [] = true
is_nil (_ ∷ _) = false

unfoldable pub has_listener : ℕ → List ℕ → Bool
has_listener l [] = false
has_listener l (x ∷ xs) = x == l || has_listener l xs

-- `removeListener` takes out the listener that was added last.
unfoldable pub remove_last : ℕ → List ℕ → List ℕ
remove_last l [] = []
remove_last l (x ∷ xs) =
    let rest = remove_last l xs in
    if has_listener l xs then x ∷ rest else (if x == l then xs else x ∷ rest)
