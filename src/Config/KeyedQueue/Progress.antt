-- ===== src/Config/KeyedQueue/Progress.antt =====
-- No task is held up by another: a task that is due can start, and whatever way tasks end, the
-- queue can go on until a given task is over.
use nacos_sdk_nodejs.Prelude.{
  ℕ, zero, suc, ◌<◌, ◌≡◌, refl, ◌∙◌, inl, inr, true, arith, Option-cases, lt-suc_cases, lt_or_le,
}
use nacos_sdk_nodejs.Config.KeyedQueue.{
  Queue, Phase, Settled, pending, started, finished, tail_done, cleaned, init, is_done, is_ready,
  set_phase, Step, call, start, settle, resolve_tail, clean_up, Reach, next,
}
use nacos_sdk_nodejs.Config.KeyedQueue.Serial.{
  EarlierDone, Reach-Inv, phase-set_phase, done-set_phase,
}

due-is_ready :
    (q : Queue) (j : ℕ)
    → Reach init q
    → j < q.count
    → EarlierDone q j
    → is_ready q.jobs (q.jobs j).prev ≡ true
due-is_ready q j r l d = elim (Option-cases (q.jobs j).prev) [
  | inl e ↦ rw e
  | inr (k, e) ↦ let c = (Reach-Inv r).prev_some j k l e in rw e (d k c.below c.key)
]

-- A pending task whose predecessors of the same key are over can start at once: tasks of other
-- keys, and whether the predecessors failed, do not matter.
due-Step :
    (q : Queue) (j : ℕ)
    → Reach init q
    → j < q.count
    → (q.jobs j).phase ≡ pending
    → EarlierDone q j
    → Step q (set_phase q j started)
due-Step q j r l p d = start q j l p (due-is_ready q j r l d)

module _ (outcome : ℕ → Settled) where
  -- The step lets job `i` end as `outcome i` says.
  abbrev pub Obeys : {q r : Queue} → Step q r → Type 0
  Obeys (settle q i s l p) = s ≡ outcome i
  Obeys (call q key) = Unit
  Obeys (start q i l p r) = Unit
  Obeys (resolve_tail q i s l p) = Unit
  Obeys (clean_up q i l p) = Unit

  -- Steps of a world in which the tasks end as `outcome` says.
  pub data Run (s : Queue) : Queue → Type 0 where
    idle : Run s s
    more : {t u : Queue} → Run s t → (st : Step t u) → Obeys st → Run s u

  Run-trans : {s t u : Queue} → Run s t → Run t u → Run s u
  Run-trans a idle = a
  Run-trans a (more b c o) = more (Run-trans a b) c o

  Run-Reach : {s t u : Queue} → Reach s t → Run t u → Reach s u
  Run-Reach a idle = a
  Run-Reach a (more b c o) = next (Run-Reach a b) c

  -- A later state, in which what was over is still over.
  pub record Later (q r : Queue) : Type 0 where
    pub reach : Run q r
    pub count : r.count ≡ q.count
    pub done : (i : ℕ) → is_done (q.jobs i).phase ≡ true → is_done (r.jobs i).phase ≡ true

  Later-refl : (q : Queue) → Later q q
  Later-refl q = record { reach = idle; count = refl; done = λ i h. h }

  Later-trans : {q r s : Queue} → Later q r → Later r s → Later q s
  Later-trans a b = record {
    reach = Run-trans a.reach b.reach;
    count = b.count ∙ a.count;
    done = λ i h. b.done i (a.done i h);
  }

  Later-set_phase :
      (q : Queue) (j : ℕ) (ph : Phase) (s : Step q (set_phase q j ph))
      → Obeys s
      → (is_done (q.jobs j).phase ≡ true → is_done ph ≡ true)
      → Later q (set_phase q j ph)
  unfolding set_phase
  Later-set_phase q j ph s o f = record {
    reach = more idle s o;
    count = refl;
    done = done-set_phase q j ph f;
  }

  abbrev pub Finishes : Queue → ℕ → Type 0
  Finishes q j = (r : Queue) × Later q r × (is_done (r.jobs j).phase ≡ true)

  resolve_step :
      (q : Queue) (j : ℕ) (s : Settled) → j < q.count → (q.jobs j).phase ≡ finished s → Finishes q j
  resolve_step q j s l p = (
    set_phase q j tail_done,
    Later-set_phase q j tail_done (resolve_tail q j s l p) tt (λ _. refl),
    rw (phase-set_phase q j tail_done j) (ground arith),
  )

  settle_steps : (q : Queue) (j : ℕ) → j < q.count → (q.jobs j).phase ≡ started → Finishes q j
  unfolding set_phase
  settle_steps q j l p =
      let a =
        Later-set_phase q j (finished (outcome j)) (settle q j (outcome j) l p) refl
          (λ h. absurd (ground arith)) in
      let (r, b, d) =
        resolve_step (set_phase q j (finished (outcome j))) j (outcome j) l (ground arith) in
      (r, Later-trans a b, d)

  start_steps :
      (q : Queue) (j : ℕ)
      → Reach init q
      → j < q.count
      → EarlierDone q j
      → (q.jobs j).phase ≡ pending
      → Finishes q j
  unfolding set_phase
  start_steps q j c l e p =
      let a =
        Later-set_phase q j started (start q j l p (due-is_ready q j c l e)) tt
          (λ h. absurd (ground arith)) in
      let (r, b, d) = settle_steps (set_phase q j started) j l (ground arith) in
      (r, Later-trans a b, d)

  finish_due :
      (q : Queue) (j : ℕ) (ph : Phase)
      → Reach init q
      → j < q.count
      → EarlierDone q j
      → (q.jobs j).phase ≡ ph
      → Finishes q j
  finish_due q j pending c l e p = start_steps q j c l e p
  finish_due q j started c l e p = settle_steps q j l p
  finish_due q j (finished s) c l e p = resolve_step q j s l p
  finish_due q j tail_done c l e p = (q, Later-refl q, rw p)
  finish_due q j cleaned c l e p = (q, Later-refl q, rw p)

  -- All tasks below `n` can be brought to their end.
  finish_below :
      (n : ℕ) (q : Queue)
      → Reach init q
      → (r : Queue) × Later q r × ((i : ℕ) → i < n → i < q.count → is_done (r.jobs i).phase ≡ true)
  finish_below zero q c = (q, Later-refl q, λ i h. absurd (omega arith))
  finish_below (suc n) q c =
      let (r, a, d) = finish_below n q c in
      elim (lt_or_le n q.count) [
        | inl l ↦
            let (s, b, e) =
              finish_due r n (r.jobs n).phase (Run-Reach c a.reach) (rw a.count l)
                (λ i m k. d i m (omega arith)) refl in
            (
              s,
              Later-trans a b,
              λ i m k. elim (lt-suc_cases i n m) [ inl o ↦ b.done i (d i o k) | inr o ↦ rw o e ],
            )
        | inr l ↦ (r, a, λ i m k. d i (omega arith) k)
      ]

  -- From every state that the queue can reach, and whichever way each task ends (a choice of
  -- `outcome`), there are steps that obey the choice, after which a given task is over; what was
  -- over before is still over.
  pub task-Finishes : (q : Queue) (j : ℕ) → Reach init q → j < q.count → Finishes q j
  task-Finishes q j c l = let (r, a, d) = finish_below (suc j) q c in (r, a, d j (omega arith) l)
