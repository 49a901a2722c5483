-- ===== src/Prelude/Dict.antt =====
-- JavaScript's `Map` with string keys: a list of entries in insertion order. `set` writes over an
-- entry in its place and appends a new one; `delete` removes the entry.
use mathlib.Core.Path.{◌≡◌, refl}
use mathlib.Core.Bool.{Bool}
use mathlib.Core.List.{List, [], ◌∷◌}
use mathlib.Core.Option.{Option, none, some}
use native.Mathlib.Omega.{arith}
use nacos_sdk_nodejs.Prelude.Tests.{if◌then◌else◌, is_some}
use nacos_sdk_nodejs.Prelude.Strings.{Text, text_eq, text_eq_iff, text_eq_refl}

abbrev pub Dict {ℓ} : Type ℓ → Type ℓ
Dict V = List (Text × V)

module _ {ℓ} {V : Type ℓ} where
  unfoldable pub get : Text → Dict V → Option V
  get k [] = none
  get k ((j, v) ∷ d) = if text_eq j k then some v else get k d

  unfoldable pub set : Text → V → Dict V → Dict V
  set k v [] = (k, v) ∷ []
  set k v ((j, w) ∷ d) = if text_eq j k then (k, v) ∷ d else (j, w) ∷ set k v d

  unfoldable pub delete : Text → Dict V → Dict V
  delete k [] = []
  delete k ((j, w) ∷ d) = let rest = delete k d in if text_eq j k then rest else (j, w) ∷ rest

  abbrev pub has : Text → Dict V → Bool
  has k d = is_some (get k d)

  pub get-set :
      (k j : Text) (v : V) (d : Dict V)
      → get j (set k v d) ≡ (if text_eq k j then some v else get j d)
  unfolding get set
  get-set k j v [] = refl
  get-set k j v ((i, w) ∷ d) =
      ground (arith, text_eq_iff k j, text_eq_iff i k, text_eq_iff i j, get-set k j v d)

  pub get-delete :
      (k j : Text) (d : Dict V) → get j (delete k d) ≡ (if text_eq k j then none else get j d)
  unfolding get delete
  get-delete k j [] = ground arith
  get-delete k j ((i, w) ∷ d) =
      ground (arith, text_eq_iff k j, text_eq_iff i k, text_eq_iff i j, get-delete k j d)

  pub get-set_self : (k : Text) (v : V) (d : Dict V) → get k (set k v d) ≡ some v
  get-set_self k v d = simp (get-set, text_eq_refl)

  pub get-delete_self : (k : Text) (d : Dict V) → get k (delete k d) ≡ none
  get-delete_self k d = simp (get-delete, text_eq_refl)

pub ruleset dict_laws = (get-set, get-delete, text_eq_refl)
