-- ===== src/Watch/Process.antt =====
-- Proofs about every run of the loop in internal/watch/watch.go.
use ghi.Prelude.{
  ℕ, ◌^◌, ◌<◌, String, ◌≡◌, ◌≢◌, ◌⊎◌, Bool, true, false, Option, none, some, List, arith, eq_iff,
  length,
}
use ghi.Watch.State.{BuildTask, Watcher, Round, initial, build_finished, shut_down, run_loop, run}
use ghi.Watch.Log.{last_build, source_of, alive, IsOrderly}
use ghi.Watch.Invariant.{IsValid, run_loop-IsValid, initial-IsValid}

-- After fewer than 2^64 rounds, a watcher that has no change pending has made its newest build
-- from exactly the sources that it last observed: no edit is lost.
pub run_loop-settled :
    (debounce now : ℕ) (first : String) (rounds : List Round)
    → length rounds < 2 ^ 64
    → (run_loop debounce rounds (initial debounce now first)).pending ≡ false
    → source_of (last_build (run_loop debounce rounds (initial debounce now first)).log)
      ≡ some (run_loop debounce rounds (initial debounce now first)).observed
run_loop-settled debounce now first rounds small quiet = ground (arith, valid.settled)
  where
    valid : IsValid (run_loop debounce rounds (initial debounce now first))
    valid =
        run_loop-IsValid debounce rounds (initial debounce now first) (ground arith)
          (initial-IsValid debounce now first)

shut_down-IsOrderly :
    (w : Watcher) → IsValid w → IsOrderly (shut_down w).log × (alive (shut_down w).log ≡ none)
unfolding shut_down
shut_down-IsOrderly w v = ground arith

-- In a whole run of fewer than 2^64 rounds every process was started from the newest build and
-- while no other process was alive, no binary was removed while it ran, and after the deferred
-- calls no process is left.
pub run-IsOrderly :
    (debounce now : ℕ) (first : String) (rounds : List Round)
    → length rounds < 2 ^ 64
    → IsOrderly (run debounce now first rounds).log
      × (alive (run debounce now first rounds).log ≡ none)
unfolding run
run-IsOrderly debounce now first rounds small = shut_down-IsOrderly _ (
    run_loop-IsValid debounce rounds (initial debounce now first) (ground arith)
      (initial-IsValid debounce now first))

-- A build that failed, that was made from other sources than those found after it, or that an
-- edit overtook, leaves the running process as it is, running and recorded.
pub build_finished-keeps_running :
    (now : ℕ) (failed starts : Bool) (scan : Option String) (task : BuildTask) (w : Watcher)
    → (failed ≡ true) ⊎ (scan ≢ some task.source) ⊎ (w.generation ≢ task.generation)
    → ((build_finished now failed scan starts task w).running ≡ w.running)
      × (alive (build_finished now failed scan starts task w).log ≡ alive w.log)
unfolding build_finished
build_finished-keeps_running now failed starts none task w why = ground arith
build_finished-keeps_running now failed starts (some current) task w why =
    ground (arith, eq_iff current task.source)
