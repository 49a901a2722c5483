-- ===== src/Config/KeyedQueue.antt =====
-- packages/nacos-config/src/keyed_queue.ts: `KeyedAsyncQueue`, a queue of asynchronous tasks for
-- each key. A call of `run` allocates a job, which stands for its two promises: `result`, that of
-- the task, and `tail`, which swallows the task's error. The reactions that the runtime runs later
-- are steps, in every order that promises allow.
pub mod Serial
pub mod Progress
pub mod Drained
use nacos_sdk_nodejs.Prelude.{
  ℕ, suc, ◌<◌, ◌≡◌, Bool, true, false, Option, none, some, Text, [], ◌==◌, if◌then◌else◌,
}
use nacos_sdk_nodejs.Prelude.Dict
use nacos_sdk_nodejs.Prelude.Dict.{Dict}

pub data Settled : Type 0 where
  fulfilled rejected : Settled

-- pending: `prev.then(() => task())` waits; started: the task runs; finished: `result` is settled;
-- tail_done: `tail` is resolved; cleaned: the reaction of `tail` that cleans up has run.
pub data Phase : Type 0 where
  pending started : Phase
  finished : Settled → Phase
  tail_done cleaned : Phase

pub record Job : Type 0 where
  pub key : Text
  -- the job whose `tail` is `prev`; none stands for `Promise.resolve()`
  pub prev : Option ℕ
  pub phase : Phase

pub record Queue : Type 0 where
  -- the promises made so far, by number
  pub jobs : ℕ → Job
  pub count : ℕ
  -- key -> the job whose `tail` is the last promise of the key
  pub tails : Dict ℕ

abbrev pub init : Queue
init = record {
  jobs = λ _. record { key = []; prev = none; phase = pending };
  count = 0;
  tails = [];
}

abbrev pub update : (ℕ → Job) → ℕ → Job → ℕ → Job
update jobs i job j = if j == i then job else jobs j

abbrev pub has_started : Phase → Bool
has_started pending = false
has_started _ = true

-- `tail` is resolved, so the reactions that wait for it may run.
abbrev pub is_done : Phase → Bool
is_done tail_done = true
is_done cleaned = true
is_done _ = false

abbrev pub is_cleaned : Phase → Bool
is_cleaned cleaned = true
is_cleaned _ = false

-- `run(key, task)`: chain on the key's tail, and become the tail
unfoldable pub run : Queue → Text → Queue
run q key = record {
  jobs = update q.jobs q.count (record { key = key; prev = Dict.get key q.tails; phase = pending });
  count = suc q.count;
  tails = Dict.set key q.count q.tails;
}

unfoldable pub set_phase : Queue → ℕ → Phase → Queue
set_phase q i phase = record q { jobs = update q.jobs i (record (q.jobs i) { phase = phase }) }

abbrev is_tail : Option ℕ → ℕ → Bool
is_tail none i = false
is_tail (some t) i = t == i

-- the reaction of `tail`: delete the entry only if this tail is still the key's tail
unfoldable pub cleanup : Queue → ℕ → Queue
unfolding set_phase
cleanup q i =
    let key = (q.jobs i).key in
    let tails = if is_tail (Dict.get key q.tails) i then Dict.delete key q.tails else q.tails in
    record (set_phase q i cleaned) { tails = tails }

-- `prev` is resolved, so that its reactions may run.
abbrev pub is_ready : (ℕ → Job) → Option ℕ → Bool
is_ready jobs none = true
is_ready jobs (some p) = is_done (jobs p).phase

-- One call of `run` by a client, or one reaction that the runtime runs.
pub data Step : Queue → Queue → Type 0 where
  call : (q : Queue) (key : Text) → Step q (run q key)
  start :
      (q : Queue) (i : ℕ)
      → i < q.count
      → (q.jobs i).phase ≡ pending
      → is_ready q.jobs (q.jobs i).prev ≡ true
      → Step q (set_phase q i started)
  settle :
      (q : Queue) (i : ℕ) (s : Settled)
      → i < q.count
      → (q.jobs i).phase ≡ started
      → Step q (set_phase q i (finished s))
  resolve_tail :
      (q : Queue) (i : ℕ) (s : Settled)
      → i < q.count
      → (q.jobs i).phase ≡ finished s
      → Step q (set_phase q i tail_done)
  clean_up : (q : Queue) (i : ℕ) → i < q.count → (q.jobs i).phase ≡ tail_done → Step q (cleanup q i)

pub data Reach (s : Queue) : Queue → Type 0 where
  here : Reach s s
  next : {t u : Queue} → Reach s t → Step t u → Reach s u
