-- ===== src/Examples/Queues.antt =====
-- A queue with two tasks of one key.
use nacos_sdk_nodejs.Prelude.{ℕ, ◌≡◌, refl, codes, Text, text_eq, arith, ◌<◌}
use nacos_sdk_nodejs.Prelude.Dict
use nacos_sdk_nodejs.Config.KeyedQueue.{
  Queue, init, run, set_phase, cleanup, Reach, here, next, call, start, settle, resolve_tail,
  clean_up, started, fulfilled, rejected, finished, tail_done, cleaned,
}
use nacos_sdk_nodejs.Config.KeyedQueue.Serial.{EarlierDone, started-EarlierDone}
use nacos_sdk_nodejs.Config.KeyedQueue.Progress.{Finishes, task-Finishes}

abbrev k : Text
k = codes "k"

abbrev two : Queue
two = run (run init k) k

abbrev first_over : Queue
first_over = set_phase (set_phase (set_phase two 0 started) 0 (finished rejected)) 0 tail_done

two-Reach : Reach init two
two-Reach = next (next here (call init k)) (call (run init k) k)

first_over-Reach : Reach init first_over
unfolding run set_phase Dict.set Dict.get text_eq
first_over-Reach =
    next
      (next (next two-Reach (start two 0 (omega arith) refl refl))
        (settle _ 0 rejected (omega arith) refl))
      (resolve_tail _ 0 rejected (omega arith) refl)

second_runs-Reach : Reach init (set_phase first_over 1 started)
unfolding run set_phase Dict.set Dict.get text_eq
second_runs-Reach = next first_over-Reach (start first_over 1 (omega arith) refl refl)

started-EarlierDone_example : EarlierDone (set_phase first_over 1 started) 1
unfolding run set_phase
started-EarlierDone_example =
    started-EarlierDone (set_phase first_over 1 started) 1 second_runs-Reach (omega arith) refl

task-Finishes_example : Finishes (λ _. rejected) two 1
unfolding run
task-Finishes_example = task-Finishes (λ _. rejected) two 1 two-Reach (omega arith)

abbrev one : Queue
one = run init k

abbrev one_over : Queue
one_over =
    cleanup (set_phase (set_phase (set_phase one 0 started) 0 (finished fulfilled)) 0 tail_done) 0

one_over-Reach : Reach init one_over
unfolding run set_phase cleanup Dict.set Dict.get text_eq
one_over-Reach =
    next
      (next
        (next (next (next here (call init k)) (start one 0 (omega arith) refl refl))
          (settle _ 0 fulfilled (omega arith) refl))
        (resolve_tail _ 0 fulfilled (omega arith) refl))
      (clean_up _ 0 (omega arith) refl)

one_over_all :
    (i : ℕ) → i < one_over.count → (one_over.jobs i).key ≡ k → (one_over.jobs i).phase ≡ cleaned
unfolding run set_phase cleanup
one_over_all i h e = ground arith
