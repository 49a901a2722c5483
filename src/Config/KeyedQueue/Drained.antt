-- ===== src/Config/KeyedQueue/Drained.antt =====
-- The map of tails holds no entry for a key whose tasks are over and cleaned up.
use nacos_sdk_nodejs.Prelude.{
  ℕ, ◌<◌, ◌≡◌, refl, inl, inr, false, none, some, Text, arith, Option-cases, text_eq_iff,
}
use nacos_sdk_nodejs.Prelude.Dict
use nacos_sdk_nodejs.Prelude.Dict.{get-set, get-delete}
use nacos_sdk_nodejs.Config.KeyedQueue.{
  Queue, Phase, started, finished, tail_done, cleaned, init, is_cleaned, run, set_phase, cleanup,
  Step, call, start, settle, resolve_tail, clean_up, Reach, here, next,
}
use nacos_sdk_nodejs.Config.KeyedQueue.Serial.{Inv, Reach-Inv}

-- A tail that is in the map has not been cleaned up.
abbrev Kept : Queue → Type 0
Kept q = (k : Text) (t : ℕ) → Dict.get k q.tails ≡ some t → is_cleaned (q.jobs t).phase ≡ false

set_phase-Kept :
    (q : Queue) (i : ℕ) (ph : Phase) → is_cleaned ph ≡ false → Kept q → Kept (set_phase q i ph)
unfolding set_phase
set_phase-Kept q i ph c v k t e = ground (arith, v k t)

run-Kept : (q : Queue) (key : Text) → Inv q → Kept q → Kept (run q key)
unfolding run
run-Kept q key i v k t e = ground (arith, get-set key k q.count q.tails, v k t)

cleanup-Kept : (q : Queue) (i : ℕ) → Inv q → Kept q → Kept (cleanup q i)
unfolding cleanup
cleanup-Kept q i n v k t e = ground (
  arith,
  get-delete (q.jobs i).key k q.tails,
  text_eq_iff (q.jobs i).key k,
  λ (h : Dict.get k q.tails ≡ some t). (n.tail_some k t h).key,
  v k t,
)

Step-Kept : {q r : Queue} → Step q r → Inv q → Kept q → Kept r
Step-Kept (call q key) i v = run-Kept q key i v
Step-Kept (start q j l p r) i v = set_phase-Kept q j started refl v
Step-Kept (settle q j s l p) i v = set_phase-Kept q j (finished s) refl v
Step-Kept (resolve_tail q j s l p) i v = set_phase-Kept q j tail_done refl v
Step-Kept (clean_up q j l p) i v = cleanup-Kept q j i v

init-Kept : Kept init
unfolding Dict.get
init-Kept k t e = cc

Reach-Kept : {q : Queue} → Reach init q → Kept q
Reach-Kept here = init-Kept
Reach-Kept (next r s) = Step-Kept s (Reach-Inv r) (Reach-Kept r)

-- In every state that the queue can reach: if all jobs of a key are cleaned up, the map has no
-- entry for the key.
get-drained :
    (q : Queue) (k : Text)
    → Reach init q
    → ((i : ℕ) → i < q.count → (q.jobs i).key ≡ k → (q.jobs i).phase ≡ cleaned)
    → Dict.get k q.tails ≡ none
get-drained q k r c = elim (Option-cases (Dict.get k q.tails)) [
  | inl e ↦ e
  | inr (t, e) ↦
      let o = (Reach-Inv r).tail_some k t e in
      absurd (ground (arith, Reach-Kept r k t e, c t o.below o.key))
]
