-- ===== src/Prelude/Numbers.antt =====
-- Numbers as JavaScript writes them in a template string.
use Prim.Native.Nat.{ℕ, zero, suc, ◌+◌, ◌/◌, ◌%◌}
use mathlib.Core.List.{[], ◌∷◌}
use nacos_sdk_nodejs.Prelude.Tests.{if◌then◌else◌, ltb}
use nacos_sdk_nodejs.Prelude.Strings.{Text}

-- the digits of a number before those of `acc`; a number has fewer digits than its successor
unfoldable pub digits_before : ℕ → ℕ → Text → Text
digits_before zero n acc = acc
digits_before (suc fuel) n acc =
    let rest = digits_before fuel (n / 10) ((48 + n % 10) ∷ acc) in
    if ltb n 10 then (48 + n) ∷ acc else rest

-- `${n}`
abbrev pub decimal : ℕ → Text
decimal n = digits_before (suc n) n []
