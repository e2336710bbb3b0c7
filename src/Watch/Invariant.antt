-- ===== src/Watch/Invariant.antt =====
-- The invariant of the loop in internal/watch/watch.go, step by step.
use ghi.Prelude.{
  ℕ, ◌+◌, ◌^◌, ◌≤◌, ◌<◌, String, ◌≡◌, Bool, true, false, Option, none, some, List, [], ◌∷◌, arith,
  eq_iff, length,
}
use ghi.Watch.State.{
  BuildTask, Watcher, Event, done, exit, built, tick, initial, Round, maybe_build, process_exited,
  replace_process, build_finished, drop_build, ticked, receive, loop_body, run_loop,
}
use ghi.Watch.Log.{last_build, source_of, alive, IsOrderly}

-- What holds of the build in flight.
abbrev InFlight : Option BuildTask → Watcher → Type 0
InFlight none w = (w.cancel_build ≡ false)
InFlight (some task) w =
    (w.cancel_build ≡ true)
    × (last_build w.log ≡ some task)
    × (task.path ≡ w.sequence)
    × (task.generation ≤ w.generation)
    × (task.generation ≡ w.generation → task.source ≡ w.observed)

-- The running binary is older than the build in flight.
abbrev Below : Option ℕ → Option BuildTask → ℕ → Type 0
Below none _ sequence = Unit
Below (some path) none sequence = path ≤ sequence
Below (some path) (some task) sequence = path < sequence

-- A watcher with nothing pending has built what it observed.
abbrev Settled : Bool → Watcher → Type 0
Settled true w = Unit
Settled false w = source_of (last_build w.log) ≡ some w.observed

pub record IsValid (w : Watcher) : Type 0 where
  pub in_flight : InFlight w.builds w
  pub below : Below w.running w.builds w.sequence
  pub settled : Settled w.pending w
  pub running : alive w.log ≡ w.running
  pub orderly : IsOrderly w.log

maybe_build-IsValid :
    (debounce now : ℕ) (w : Watcher) → IsValid w → IsValid (maybe_build debounce now w)
unfolding maybe_build
maybe_build-IsValid debounce now w v = ground arith

process_exited-IsValid :
    (old : ℕ) (w : Watcher) → w.running ≡ some old → IsValid w → IsValid (process_exited old w)
unfolding process_exited
process_exited-IsValid old w e v = ground arith

replace_process-IsValid :
    (starts : Bool) (task : BuildTask) (w : Watcher)
    → w.builds ≡ some task
    → IsValid w
    → task.generation ≡ w.generation
    → IsValid (replace_process starts task (drop_build w))
unfolding replace_process
replace_process-IsValid starts task w e v g = ground arith

build_finished-IsValid :
    (now : ℕ) (failed : Bool) (scan : Option String) (starts : Bool) (task : BuildTask)
    (w : Watcher)
    → w.builds ≡ some task
    → IsValid w
    → IsValid (build_finished now failed scan starts task w)
unfolding build_finished
build_finished-IsValid now failed none starts task w e v = ground arith
build_finished-IsValid now failed (some current) starts task w e v =
    ground (arith, eq_iff current task.source, replace_process-IsValid starts task w)

ticked-IsValid :
    (now : ℕ) (scan : Option String) (w : Watcher)
    → w.generation + 1 < 2 ^ 64
    → IsValid w
    → IsValid (ticked now scan w)
unfolding ticked
ticked-IsValid now none w small v = ground arith
ticked-IsValid now (some current) w small v = ground (arith, eq_iff current w.observed)

receive-IsValid :
    (now : ℕ) (event : Event) (w : Watcher)
    → w.generation + 1 < 2 ^ 64
    → IsValid w
    → IsValid (receive now event w)
unfolding receive
receive-IsValid now done w small v = v
receive-IsValid now exit w small v = ground (arith, λ (old : ℕ). process_exited-IsValid old w)
receive-IsValid now (built failed scan starts) w small v =
    ground (arith, λ (task : BuildTask). build_finished-IsValid now failed scan starts task w)
receive-IsValid now (tick scan) w small v = ticked-IsValid now scan w small v

receive-generation :
    (now : ℕ) (event : Event) (w : Watcher)
    → w.generation + 1 < 2 ^ 64
    → (receive now event w).generation ≤ w.generation + 1
unfolding receive
receive-generation now done w small = omega arith
receive-generation now exit w small = ground arith
receive-generation now (built failed none starts) w small = ground arith
receive-generation now (built failed (some current) starts) w small = ground arith
receive-generation now (tick none) w small = ground arith
receive-generation now (tick (some current)) w small = ground arith

maybe_build-generation :
    (debounce now : ℕ) (w : Watcher) → (maybe_build debounce now w).generation ≡ w.generation
unfolding maybe_build
maybe_build-generation debounce now w = ground arith

module _ (debounce : ℕ) (r : Round) (w : Watcher) (small : w.generation + 1 < 2 ^ 64) where
  loop_body-generation : (loop_body debounce r w).generation ≤ w.generation + 1
  unfolding loop_body
  loop_body-generation =
      let same = maybe_build-generation debounce r.before w in
      rw same at
        (receive-generation r.now r.event (maybe_build debounce r.before w) (omega (arith, same)))

  loop_body-IsValid : IsValid w → IsValid (loop_body debounce r w)
  unfolding loop_body
  loop_body-IsValid v =
      receive-IsValid r.now r.event (maybe_build debounce r.before w)
        (omega (arith, maybe_build-generation debounce r.before w))
        (maybe_build-IsValid debounce r.before w v)

loop_end :
    {x y : Watcher} (P : Watcher → Type 0) (event : Event)
    → P x
    → P y
    → P (elim event [ done ↦ x | _ ↦ y ])
loop_end P done px py = px
loop_end P exit px py = py
loop_end P (built failed scan starts) px py = py
loop_end P (tick scan) px py = py

pub run_loop-IsValid :
    (debounce : ℕ) (rounds : List Round) (w : Watcher)
    → w.generation + length rounds < 2 ^ 64
    → IsValid w
    → IsValid (run_loop debounce rounds w)
unfolding run_loop
run_loop-IsValid debounce [] w small v = v
run_loop-IsValid debounce (r ∷ rs) w small v =
    let small' : w.generation + 1 < 2 ^ 64 = omega arith in
    let step = loop_body-IsValid debounce r w small' v in
    let grows = loop_body-generation debounce r w small' in
    let rest = run_loop-IsValid debounce rs (loop_body debounce r w) (omega (arith, grows)) step in
    loop_end (λ x. IsValid x) r.event step rest

pub initial-IsValid : (debounce now : ℕ) (first : String) → IsValid (initial debounce now first)
initial-IsValid debounce now first = ground arith
