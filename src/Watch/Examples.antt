-- ===== src/Watch/Examples.antt =====
-- A short session: the first build is started, an edit overtakes the second build, the third
-- fails, and the fourth replaces the process.
use ghi.Prelude.{ℕ, ◌≡◌, refl, inl, true, false, none, some, List, [], ◌∷◌, arith}
use ghi.Watch.State.{
  Watcher, BuildTask, Round, Event, built, tick, initial, build_finished, run_loop, run,
}
use ghi.Watch.Log.{IsOrderly, alive, last_build, source_of}
use ghi.Watch.Process.{run_loop-settled, run-IsOrderly, build_finished-keeps_running}

abbrev at_time : ℕ → ℕ → Event → Round
at_time before now event = record { before = before; now = now; event = event }

abbrev session : List Round
session =
    at_time 1000 1010 (tick (some "a"))
    ∷ at_time 1020 1500 (built false (some "a") true)
    ∷ at_time 1500 2000 (tick (some "b"))
    ∷ at_time 2300 2400 (tick (some "c"))
    ∷ at_time 2410 2500 (built false (some "c") true)
    ∷ at_time 2800 2900 (built true (some "c") true)
    ∷ at_time 3000 3100 (tick (some "d"))
    ∷ at_time 3400 3500 (built false (some "d") true)
    ∷ []

session_runs :
    ((run_loop 200 session (initial 200 1000 "a")).running ≡ some 4)
    × ((run_loop 200 session (initial 200 1000 "a")).pending ≡ false)
    × ((run_loop 200 session (initial 200 1000 "a")).generation ≡ 3)
unfolding run_loop
session_runs = (refl, refl, refl)

run_loop-settled_example :
    source_of (last_build (run_loop 200 session (initial 200 1000 "a")).log)
    ≡ some (run_loop 200 session (initial 200 1000 "a")).observed
run_loop-settled_example = run_loop-settled 200 1000 "a" session (omega arith) session_runs.1

run-IsOrderly_example :
    IsOrderly (run 200 1000 "a" session).log × (alive (run 200 1000 "a" session).log ≡ none)
run-IsOrderly_example = run-IsOrderly 200 1000 "a" session (omega arith)

abbrev second : BuildTask
second = record { path = 2; source = "b"; generation = 1 }

abbrev busy : Watcher
busy = record (initial 200 1000 "b") {
  running = some 1;
  builds = some second;
  cancel_build = true;
  generation = 1;
  sequence = 2;
}

build_finished-keeps_running_example :
    ((build_finished 1500 true (some "b") true second busy).running ≡ some 1)
    × (alive (build_finished 1500 true (some "b") true second busy).log ≡ none)
build_finished-keeps_running_example =
    build_finished-keeps_running 1500 true true (some "b") second busy (inl refl)
