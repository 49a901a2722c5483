-- ===== src/Config/KeyedQueue/Serial.antt =====
-- The tasks of one key run one after another, in the order of the calls.
use nacos_sdk_nodejs.Prelude.{
  ℕ, ◌<◌, ◌≤◌, ◌≡◌, refl, sym, ◌∙◌, inl, inr, true, none, some, Text, arith, ◌==◌, if◌then◌else◌,
  Option-cases, Bool-cases, lt-suc_cases, ap, ◌≢◌, ==_iff, text_eq_iff, text_eq,
}
use nacos_sdk_nodejs.Prelude.Dict
use nacos_sdk_nodejs.Prelude.Dict.{get-set, get-delete}
use nacos_sdk_nodejs.Config.KeyedQueue.{
  Queue, Job, Phase, started, finished, tail_done, cleaned, init, has_started, is_done, is_ready,
  run, set_phase, cleanup, is_tail, Step, call, start, settle, resolve_tail, clean_up, Reach, here,
  next,
}

-- All jobs of the key of job `j` that were made before it are done.
abbrev pub EarlierDone : Queue → ℕ → Type 0
EarlierDone q j =
    (i : ℕ) → i < j → (q.jobs i).key ≡ (q.jobs j).key → is_done (q.jobs i).phase ≡ true

-- The tail of a key is its last job.
pub record IsTail (q : Queue) (k : Text) (t : ℕ) : Type 0 where
  pub below : t < q.count
  pub key : (q.jobs t).key ≡ k
  pub last : (i : ℕ) → i < q.count → (q.jobs i).key ≡ k → i ≤ t

-- A job chains on the job of its key that was made last before it.
pub record IsPrev (q : Queue) (j p : ℕ) : Type 0 where
  pub below : p < j
  pub key : (q.jobs p).key ≡ (q.jobs j).key
  pub last : (i : ℕ) → i < j → (q.jobs i).key ≡ (q.jobs j).key → i ≤ p

pub record Inv (q : Queue) : Type 0 where
  pub tail_some : (k : Text) (t : ℕ) → Dict.get k q.tails ≡ some t → IsTail q k t
  pub tail_none :
      (k : Text) (i : ℕ)
      → Dict.get k q.tails ≡ none
      → i < q.count
      → (q.jobs i).key ≡ k
      → is_done (q.jobs i).phase ≡ true
  pub prev_none : (j : ℕ) → j < q.count → (q.jobs j).prev ≡ none → EarlierDone q j
  pub prev_some : (j p : ℕ) → j < q.count → (q.jobs j).prev ≡ some p → IsPrev q j p
  pub serial : (j : ℕ) → j < q.count → has_started (q.jobs j).phase ≡ true → EarlierDone q j

init-Inv : Inv init
unfolding Dict.get
init-Inv = record {
  tail_some = λ k t h. cc;
  tail_none = λ k i h l. absurd (omega arith);
  prev_none = λ j h. absurd (omega arith);
  prev_some = λ j p h. absurd (omega arith);
  serial = λ j h. absurd (omega arith);
}

done-has_started : (p : Phase) → is_done p ≡ true → has_started p ≡ true
done-has_started p h = ground arith

-- A task that may start has all earlier tasks of its key behind it.
ready-EarlierDone :
    (q : Queue) (j : ℕ) (v : Inv q)
    → j < q.count
    → is_ready q.jobs (q.jobs j).prev ≡ true
    → EarlierDone q j
ready-EarlierDone q j v l r = elim (Option-cases (q.jobs j).prev) [
  | inl e ↦ v.prev_none j l e
  | inr (p, e) ↦ λ i h k.
      let c = v.prev_some j p l e in
      let m = c.last i h k in
      let b = c.below in
      let s = v.serial p (omega arith) in
      ground (arith, s (done-has_started _ (rw e at r)) i, c.key)
]

module _ (q : Queue) (i : ℕ) (ph : Phase) where
  pub key-set_phase : (j : ℕ) → ((set_phase q i ph).jobs j).key ≡ (q.jobs j).key
  unfolding set_phase
  key-set_phase j = ground arith

  prev-set_phase : (j : ℕ) → ((set_phase q i ph).jobs j).prev ≡ (q.jobs j).prev
  unfolding set_phase
  prev-set_phase j = ground arith

  pub phase-set_phase :
      (j : ℕ) → ((set_phase q i ph).jobs j).phase ≡ (if j == i then ph else (q.jobs j).phase)
  unfolding set_phase
  phase-set_phase j = ground arith

  -- Phases only go forward, so what was done stays done.
  pub done-set_phase :
      (is_done (q.jobs i).phase ≡ true → is_done ph ≡ true)
      → (j : ℕ) → is_done (q.jobs j).phase ≡ true
      → is_done ((set_phase q i ph).jobs j).phase ≡ true
  done-set_phase f j h = rw (phase-set_phase j) (ground (arith, f))

  EarlierDone-set_phase :
      (is_done (q.jobs i).phase ≡ true → is_done ph ≡ true)
      → (j : ℕ) → EarlierDone q j
      → EarlierDone (set_phase q i ph) j
  EarlierDone-set_phase f j e k l h =
      done-set_phase f k (e k l (sym (key-set_phase k) ∙ h ∙ key-set_phase j))

  -- A change of phase keeps the invariant, if the phase goes forward, and starts only a
  -- task that is due.
  set_phase-Inv :
      Inv q
      → i < q.count
      → (is_done (q.jobs i).phase ≡ true → is_done ph ≡ true)
      → (has_started ph ≡ true → EarlierDone q i)
      → Inv (set_phase q i ph)
  unfolding set_phase
  set_phase-Inv v l f g = record {
    tail_some = λ k t e.
        let o = v.tail_some k t e in
        record {
          below = o.below;
          key = key-set_phase t ∙ o.key;
          last = λ j b h. o.last j b (sym (key-set_phase j) ∙ h);
        };
    tail_none = λ k j e b h. done-set_phase f j (v.tail_none k j e b (sym (key-set_phase j) ∙ h));
    prev_none = λ j b e. EarlierDone-set_phase f j (v.prev_none j b (sym (prev-set_phase j) ∙ e));
    prev_some = λ j p b e.
        let o = v.prev_some j p b (sym (prev-set_phase j) ∙ e) in
        record {
          below = o.below;
          key = key-set_phase p ∙ o.key ∙ sym (key-set_phase j);
          last = λ k m h. o.last k m (sym (key-set_phase k) ∙ h ∙ key-set_phase j);
        };
    serial = λ j b h. EarlierDone-set_phase f j (due j b (rw (phase-set_phase j) at h));
  }
    where
      due :
          (j : ℕ)
          → j < q.count
          → has_started (if j == i then ph else (q.jobs j).phase) ≡ true
          → EarlierDone q j
      due j b h = elim (Bool-cases (j == i)) [
        | inl e ↦ let same : j ≡ i = (==_iff j i).0 e in rw same (g (rw e at h))
        | inr e ↦ v.serial j b (rw e at h)
      ]

-- The entry of a key may go once every job of the key is done.
delete-Inv :
    (q : Queue) (k : Text)
    → Inv q
    → ((i : ℕ) → i < q.count → (q.jobs i).key ≡ k → is_done (q.jobs i).phase ≡ true)
    → Inv (record q { tails = Dict.delete k q.tails })
delete-Inv q k v d = record {
  tail_some = λ j t e.
      let o = v.tail_some j t (ground (arith, get-delete k j q.tails)) in
      record { below = o.below; key = o.key; last = o.last };
  tail_none = λ j i e l h. elim (Bool-cases (text_eq k j)) [
    | inl s ↦ d i l (h ∙ sym ((text_eq_iff k j).0 s))
    | inr n ↦ v.tail_none j i (ground (arith, get-delete k j q.tails)) l h
  ];
  prev_none = λ j b e. v.prev_none j b e;
  prev_some = λ j p b e.
      let o = v.prev_some j p b e in record { below = o.below; key = o.key; last = o.last };
  serial = λ j b h. v.serial j b h;
}

-- Every job of the key of a tail that is done is done.
tail-AllDone :
    (q : Queue) (i : ℕ)
    → Inv q
    → Dict.get (q.jobs i).key q.tails ≡ some i
    → i < q.count
    → is_done (q.jobs i).phase ≡ true
    → (j : ℕ) → j < q.count
    → (q.jobs j).key ≡ (q.jobs i).key
    → is_done (q.jobs j).phase ≡ true
tail-AllDone q i v e l d j b h =
    let o = v.tail_some (q.jobs i).key i e in
    ground (arith, v.serial i l (done-has_started _ d) j, o.last j b h)

cleanup-Inv :
    (q : Queue) (i : ℕ) → Inv q → i < q.count → (q.jobs i).phase ≡ tail_done → Inv (cleanup q i)
unfolding cleanup
cleanup-Inv q i v l e = elim (Bool-cases (is_tail (Dict.get (q.jobs i).key q.tails) i)) [
  | inl t ↦ rw t (
      delete-Inv cleaned_q (q.jobs i).key w (
        rw (key-set_phase q i cleaned i) at
          (tail-AllDone cleaned_q i w (ground arith) l (ground arith))))
  | inr n ↦ rw n w
]
  where
    cleaned_q : Queue
    cleaned_q = set_phase q i cleaned

    w : Inv cleaned_q
    w = set_phase-Inv q i cleaned v l (λ _. refl) (λ _. v.serial i l (ground arith))

module _ (q : Queue) (key : Text) where
  jobs-run_old : (i : ℕ) → i < q.count → (run q key).jobs i ≡ q.jobs i
  unfolding run
  jobs-run_old i l = ground arith

  key-run_new : ((run q key).jobs q.count).key ≡ key
  unfolding run
  key-run_new = ground arith

  EarlierDone-run_old : (j : ℕ) → j < q.count → EarlierDone q j → EarlierDone (run q key) j
  EarlierDone-run_old j l d i m h = rw (jobs-run_old i (omega arith)) (
      d i m (
        ap (λ (b : Job). b.key) (sym (jobs-run_old i (omega arith)))
        ∙ h
        ∙ ap (λ (b : Job). b.key) (jobs-run_old j l)))

  IsTail-run_new : IsTail (run q key) key q.count
  unfolding run
  IsTail-run_new = record { below = omega arith; key = key-run_new; last = λ i b h. omega arith }

  IsTail-run_old : (k : Text) (t : ℕ) → key ≢ k → IsTail q k t → IsTail (run q key) k t
  unfolding run
  IsTail-run_old k t n o = record {
    below = omega (arith, o.below);
    key = ground (arith, o.key, o.below);
    last = λ i b h. elim (lt-suc_cases i q.count b) [
      | inl l ↦ ground (arith, o.last i l)
      | inr e ↦ absurd (ground arith)
    ];
  }

  IsPrev-run_old : (j p : ℕ) → j < q.count → IsPrev q j p → IsPrev (run q key) j p
  unfolding run
  IsPrev-run_old j p l o = record {
    below = o.below;
    key = ground (arith, o.key, o.below);
    last = λ i m h. ground (arith, o.last i m);
  }

  IsPrev-run_new : (j p : ℕ) → j ≡ q.count → IsTail q key p → IsPrev (run q key) j p
  unfolding run
  IsPrev-run_new j p e o = record {
    below = omega (arith, o.below);
    key = ground (arith, o.key, o.below);
    last = λ i m h. ground (arith, o.last i);
  }

  queue_run-Inv : Inv q → Inv (run q key)
  unfolding run
  queue_run-Inv v = record {
    tail_some = λ k t e. elim (Bool-cases (text_eq key k)) [
      | inl s ↦
          let same : key ≡ k = (text_eq_iff key k).0 s in
          let new : q.count ≡ t = ground (arith, get-set key k q.count q.tails) in
          rw (← same, ← new) IsTail-run_new
      | inr n ↦
          IsTail-run_old k t (ground (arith, text_eq_iff key k))
            (v.tail_some k t (ground (arith, get-set key k q.count q.tails)))
    ];
    tail_none = λ k i e l h.
        ground (arith, get-set key k q.count q.tails, text_eq_iff key k, v.tail_none k i);
    prev_none = λ j b e. elim (lt-suc_cases j q.count b) [
      | inl l ↦ EarlierDone-run_old j l (v.prev_none j l (ground arith))
      | inr s ↦ λ i m h. ground (arith, v.tail_none key i)
    ];
    prev_some = λ j p b e. elim (lt-suc_cases j q.count b) [
      | inl l ↦ IsPrev-run_old j p l (v.prev_some j p l (ground arith))
      | inr s ↦ IsPrev-run_new j p s (v.tail_some key p (ground arith))
    ];
    serial = λ j b h. elim (lt-suc_cases j q.count b) [
      | inl l ↦ EarlierDone-run_old j l (v.serial j l (ground arith))
      | inr s ↦ absurd (ground arith)
    ];
  }

Step-Inv : {q r : Queue} → Step q r → Inv q → Inv r
Step-Inv (call q key) v = queue_run-Inv q key v
Step-Inv (start q i l p r) v =
    set_phase-Inv q i started v l (ground arith) (λ _. ready-EarlierDone q i v l r)
Step-Inv (settle q i s l p) v =
    set_phase-Inv q i (finished s) v l (ground arith) (λ _. v.serial i l (rw p))
Step-Inv (resolve_tail q i s l p) v =
    set_phase-Inv q i tail_done v l (λ _. refl) (λ _. v.serial i l (rw p))
Step-Inv (clean_up q i l p) v = cleanup-Inv q i v l p

pub Reach-Inv : {q : Queue} → Reach init q → Inv q
Reach-Inv here = init-Inv
Reach-Inv (next r s) = Step-Inv s (Reach-Inv r)

-- In every state that the queue can reach, when a task has started, every task of its key that was
-- submitted before it is over, and its tail promise is resolved.
pub started-EarlierDone :
    (q : Queue) (j : ℕ)
    → Reach init q
    → j < q.count
    → has_started (q.jobs j).phase ≡ true
    → EarlierDone q j
started-EarlierDone q j r l h = (Reach-Inv r).serial j l h
