-- ===== src/Prelude.antt =====
-- The names that the other modules share: the libraries' names, passed on, and those of the
-- children: Boolean tests, lists over the native numbers, texts, and JavaScript's `Map`.
pub mod Tests
pub mod Lists
pub mod Strings
pub mod Dict
pub mod Outcomes
pub mod Emitter
pub mod Modular
pub mod Numbers
pub use Tests.*
pub use Lists.*
unfoldable pub use Strings.{text_eq}
pub use Strings.{Text, text_eq_iff, text_eq_refl, codes, is_empty, or_text}
pub use Outcomes.*
pub use Prim.Native.Nat.{ℕ, zero, suc, ◌+◌, ◌-◌, ◌*◌, ◌/◌, ◌%◌, ◌^◌, ◌≤◌, ◌<◌, min, max}
pub use mathlib.Core.Path.{◌≡◌, refl, sym, ap, ◌∙◌, fun_ext, subst}
pub use mathlib.Core.Logic.{◌≢◌, ◌↔◌, ◌⊎◌, inl, inr}
pub use mathlib.Core.Bool.{Bool, true, false, not, ◌&&◌, ◌||◌}
pub use mathlib.Core.Option.{Option, none, some}
pub use mathlib.Core.List.{List, [], ◌∷◌, ◌++◌, map}
pub use native.Mathlib.Omega.{arith}
