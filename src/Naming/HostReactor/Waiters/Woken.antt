-- ===== src/Naming/HostReactor/Waiters/Woken.antt =====
-- What the calls that wait are given when their service's event comes.
use mathlib.Core.Logic.{∥∥₁_map}
use mathlib.Core.List.{Mem, Memᴰ}
use mathlib.Core.List.Memᴰ
use nacos_sdk_nodejs.Prelude.{
  ℕ, ◌≡◌, refl, sym, ap, ◌∙◌, subst, Bool, true, false, if◌then◌else◌, Option, some, Text, List, [],
  ◌∷◌, filter, arith,
}
use nacos_sdk_nodejs.Prelude.Dict
use nacos_sdk_nodejs.Naming.HostReactor.{ReactorEnv, ServiceInfo, Reactor}
use nacos_sdk_nodejs.Naming.HostReactor.Operations.{schedule_update_if_absent}
use nacos_sdk_nodejs.Naming.HostReactor.Waiters.{
  Call, Calls, key_of_call, answer, answer_all, wakes, wake, updated, fetch_done,
}

kept-filter {ℓ} :
    {A : Type ℓ} (p : A → Bool) {x : A} (xs : List A)
    → p x ≡ true
    → Memᴰ x xs
    → Memᴰ x (filter p xs)
kept-filter p [] h m = absurd (Memᴰ.not-nil m)
kept-filter p (y ∷ ys) h (Memᴰ.head e) = rw (ap p (sym e) ∙ h) (Memᴰ.head e)
kept-filter p {x} (y ∷ ys) h (Memᴰ.tail m) =
    elim (p y) as (λ b. Memᴰ x (if b then y ∷ filter p ys else filter p ys)) [
      | true ↦ Memᴰ.tail (kept-filter p ys h m)
      | false ↦ kept-filter p ys h m
    ]

module _ (env : ReactorEnv) where
  schedule-map :
      (s c : Text) (r : Reactor env)
      → (schedule_update_if_absent env s c r).service_info_map ≡ r.service_info_map
  unfolding schedule_update_if_absent
  schedule-map s c r = ground arith

  -- the end of a call that is given what a map holds
  abbrev given :
      Dict.Dict (ServiceInfo env.Host) → Call → ℕ × Option (Option (ServiceInfo env.Host))
  given known g = (g.caller, some (Dict.get (key_of_call g) known))

  answer-ended :
      (g : Call) (w : Calls env)
      → (answer env g w).ended ≡ given w.reactor.service_info_map g ∷ w.ended
  unfolding answer
  answer-ended g w = rw (schedule-map g.service_name g.clusters w.reactor) refl

  answer-map :
      (g : Call) (w : Calls env)
      → (answer env g w).reactor.service_info_map ≡ w.reactor.service_info_map
  unfolding answer
  answer-map g w = schedule-map g.service_name g.clusters w.reactor

  ended-kept :
      (gs : List Call) (w : Calls env) {x : ℕ × Option (Option (ServiceInfo env.Host))}
      → Memᴰ x w.ended
      → Memᴰ x (answer_all env gs w).ended
  ended-kept [] w m = m
  ended-kept (g ∷ gs) w {x} m =
      ended-kept gs (answer env g w)
        (subst (λ es. Memᴰ x es) (sym (answer-ended g w)) (Memᴰ.tail m))

  all-given :
      (gs : List Call) (w : Calls env) (g : Call)
      → Memᴰ g gs
      → Memᴰ (given w.reactor.service_info_map g) (answer_all env gs w).ended
  all-given [] w g m = absurd (Memᴰ.not-nil m)
  all-given (f ∷ fs) w g (Memᴰ.head e) = ended-kept fs (answer env f w) (
      subst (λ es. Memᴰ (given w.reactor.service_info_map g) es) (sym (answer-ended f w))
        (Memᴰ.head (ap (given w.reactor.service_info_map) e)))
  all-given (f ∷ fs) w g (Memᴰ.tail m) =
      subst (λ d. Memᴰ (given d g) (answer_all env fs (answer env f w)).ended) (answer-map f w)
        (all-given fs (answer env f w) g m)

  -- A call that waits for a service ends when a fetch brings the service's event `changed`, whichever
  -- call fetched: it is given what the updated map holds for it.
  pub waiting_is_answered :
      (f g : Call) (w : Calls env)
      → Mem g w.waiting
      → wakes env (key_of_call g) (updated env f w).events ≡ true
      → Mem
          (g.caller, some (Dict.get (key_of_call g) (updated env f w).service_info_map))
          (fetch_done env f w).ended
  unfolding fetch_done wake
  waiting_is_answered f g w m h = ∥∥₁_map m (λ d.
      subst (λ es. Memᴰ (given (updated env f w).service_info_map g) es) (sym (answer-ended f _))
        (Memᴰ.tail (all-given _ _ g (kept-filter _ w.waiting h d))))
