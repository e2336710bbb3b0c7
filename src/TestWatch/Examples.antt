-- ===== src/TestWatch/Examples.antt =====
-- A session of the test watcher: a run, two edits during the next one, and a failure.
use ghi.Prelude.{ℕ, ◌≡◌, refl, true, false, some, if◌then◌else◌, List, [], ◌∷◌}
use ghi.TestWatch.State.{
  Tester, Round, Event, result, tick, initial, changed, failed, run_finished, run_loop,
}
use ghi.TestWatch.Coalesce.{
  IsSerial, last_run, run_loop-IsSerial, run_loop-last_run, run_finished-failure, scanned,
}

abbrev at_time : ℕ → ℕ → Event → Round
at_time before now event = record { before = before; now = now; event = event }

abbrev session : List Round
session =
    at_time 1000 1010 (tick (some "a"))
    ∷ at_time 1020 1500 (tick (some "b"))
    ∷ at_time 1700 1800 (tick (some "c"))
    ∷ at_time 1900 2000 (result false (some "c"))
    ∷ at_time 2300 2400 (result true (some "c"))
    ∷ []

session_quiet : (run_loop 200 session (initial 200 1000 "a")).pending ≡ false
unfolding run_loop
session_quiet = refl

run_loop-IsSerial_example : IsSerial (run_loop 200 session (initial 200 1000 "a")).log
run_loop-IsSerial_example = run_loop-IsSerial 200 1000 "a" session

run_loop-last_run_example :
    last_run (run_loop 200 session (initial 200 1000 "a")).log
    ≡ some (run_loop 200 session (initial 200 1000 "a")).observed
run_loop-last_run_example = run_loop-last_run 200 1000 "a" session session_quiet

abbrev active : Tester
active = record (initial 200 1000 "a") { active = true; cancel = true; pending = false }

run_finished-failure_example :
    ((run_finished 5 true (some "b") active).pending
      ≡ (run_finished 5 false (some "b") active).pending)
    × ((run_finished 5 true (some "b") active).observed
        ≡ (run_finished 5 false (some "b") active).observed)
    × ((run_finished 5 true (some "b") active).last_change
        ≡ (run_finished 5 false (some "b") active).last_change)
    × ((run_finished 5 true (some "b") active).active ≡ false)
    × ((run_finished 5 true (some "b") active).cancel ≡ false)
    × ((run_finished 5 true (some "b") active).log
        ≡ (if (run_finished 5 true (some "b") active).pending then changed else failed)
          ∷ scanned (some "b") active.log)
run_finished-failure_example = run_finished-failure 5 true (some "b") active
