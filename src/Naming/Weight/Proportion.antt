-- ===== src/Naming/Weight/Proportion.antt =====
-- The weighted choice gives each host the share of the random numbers that its weight is of the
-- whole.
use nacos_sdk_nodejs.Prelude.{
  ℕ, zero, suc, ◌+◌, ◌*◌, ◌<◌, ◌≤◌, ◌≡◌, refl, inl, inr, some, List, [], ◌∷◌, arith, Bool-cases,
  ltb→lt,
}
use nacos_sdk_nodejs.Naming.Weight.{Host, total_from, hits, pick_from, choose_host_by_weight}

-- The random number `num / den`, scaled to `total`, lies in the stretch of the host `h` when the
-- stretches of the hosts, each as long as its weight, are laid end to end from `current` on.
pub data Lands (num den total : ℕ) : ℕ → List Host → Host → Type 0 where
  on_first :
      {current : ℕ} {hs : List Host} (h : Host)
      → current * den ≤ num * total
      → num * total < (current + h.weight) * den
      → Lands num den total current (h ∷ hs) h
  later :
      {current : ℕ} {hs : List Host} {k : Host} (h : Host)
      → Lands num den total (current + h.weight) hs k
      → Lands num den total current (h ∷ hs) k

module _ (num den total : ℕ) where
  pick-Lands :
      (current : ℕ) (hs : List Host)
      → current * den ≤ num * total
      → num * total < total_from current hs * den
      → (h : Host) × (pick_from num den total current hs ≡ some h)
        × Lands num den total current hs h
  unfolding pick_from total_from
  pick-Lands current [] a b = absurd (omega arith)
  pick-Lands current (h ∷ hs) a b = elim (Bool-cases (hits num den total (current + h.weight))) [
    | inl e ↦ (h, rw e, on_first h a (ltb→lt _ _ e))
    | inr e ↦
        let (k, p, l) = pick-Lands (current + h.weight) hs (ground arith) b in
        (k, rw e p, later h l)
  ]

scale : (num den total : ℕ) → num < den → 0 < total → num * total < total * den
scale num den zero h p = elim p [ ]
scale num den (suc t) h p = grind arith

-- Where the total weight is positive, the choice returns a host, and it is the one in whose stretch
-- of the line of weights the random number falls: the last line of the function, after the loop, is
-- never reached.
pub choose-Lands :
    (num den : ℕ) (hosts : List Host)
    → num < den
    → 0 < total_from 0 hosts
    → (h : Host) × (choose_host_by_weight num den hosts ≡ some h)
      × Lands num den (total_from 0 hosts) 0 hosts h
unfolding choose_host_by_weight total_from
choose-Lands num den [] h p = absurd (omega arith)
choose-Lands num den (k ∷ []) h p = (k, refl, on_first k (omega arith) (scale num den _ h p))
choose-Lands num den (k ∷ j ∷ hs) h p =
    let (x, e, l) =
      pick-Lands num den (total_from 0 (k ∷ j ∷ hs)) 0 (k ∷ j ∷ hs) (omega arith)
        (scale num den _ h p) in
    (x, rw e, l)
