-- ===== src/Watch/State.antt =====
-- internal/watch/watch.go: the state of `Run`, and the handlers of its select loop. What the loop
-- asks of the outside (the clock, the snapshot of the sources, the end of a build, whether a
-- process starts) comes with the event. The calls that the loop makes on the outside are kept in
-- order in the field `log`, the newest first.
use ghi.Prelude.{
  ℕ, ◌+◌, ◌-◌, ◌%◌, ◌^◌, String, Bool, true, false, ◌&&◌, ◌||◌, not, Option, none, some, List, [],
  ◌∷◌, leb, ◌==◌, if◌then◌else◌, str_eq,
}

-- `buildResult` without its error: a build is named by its sequence number, as in `app-%d`.
pub record BuildTask : Type 0 where
  pub path : ℕ
  pub source : String
  pub generation : ℕ

pub data Action : Type 0 where
  building : BuildTask → Action
  cancelled : Action
  removed : ℕ → Action
  stopped : ℕ → Action
  started : ℕ → Action
  start_failed : ℕ → Action
  exited : ℕ → Action
  scan_failed : Action
  build_failed : ℕ → Action
  -- `os.RemoveAll(staging)`: all binaries.
  removed_all : Action

pub record Watcher : Type 0 where
  pub observed : String
  -- `running`: the number of the binary that runs.
  pub running : Option ℕ
  -- `builds`: the build in flight; the channel is nil when there is none.
  pub builds : Option BuildTask
  -- `cancelBuild != nil`
  pub cancel_build : Bool
  pub sequence : ℕ
  pub generation : ℕ
  pub pending : Bool
  pub last_change : ℕ
  pub log : List Action

-- What the select statement receives. A scan that fails is `none`.
pub data Event : Type 0 where
  done : Event
  exit : Event
  built : (failed : Bool) (scan : Option String) (starts : Bool) → Event
  tick : (scan : Option String) → Event

-- The state before the loop: `observed` is the first snapshot.
abbrev pub initial : (debounce now : ℕ) → String → Watcher
initial debounce now first = record {
  observed = first;
  running = none;
  builds = none;
  cancel_build = false;
  sequence = 0;
  generation = 0;
  pending = true;
  last_change = now - debounce;
  log = [];
}

unfoldable pub start_build : Watcher → Watcher
start_build w =
    let task : BuildTask = record {
      path = w.sequence + 1;
      source = w.observed;
      generation = w.generation;
    } in
    record w {
      pending = false;
      sequence = w.sequence + 1;
      cancel_build = true;
      builds = some task;
      log = building task ∷ w.log;
    }

abbrev idle : Option BuildTask → Bool
idle none = true
idle (some _) = false

-- The head of the loop body: a build starts once the sources have been quiet for `debounce`.
unfoldable pub maybe_build : (debounce now : ℕ) → Watcher → Watcher
unfolding start_build
maybe_build debounce now w =
    if w.pending && idle w.builds && leb debounce (now - w.last_change) then start_build w else w

-- `case err := <-exited`
unfoldable pub process_exited : ℕ → Watcher → Watcher
process_exited old w = record w { running = none; log = removed old ∷ exited old ∷ w.log }

-- The binary is dropped, and another build is due.
abbrev build_again : ℕ → String → BuildTask → Watcher → Watcher
build_again now current task w = record w {
  observed = current;
  pending = true;
  last_change = now;
  log = removed task.path ∷ w.log;
}

abbrev stop_old : Option ℕ → List Action → List Action
stop_old none log = log
stop_old (some old) log = removed old ∷ stopped old ∷ log

-- The running process is replaced only here.
unfoldable pub replace_process : Bool → BuildTask → Watcher → Watcher
replace_process starts task w =
    if starts
    then record w {
      pending = false;
      running = some task.path;
      log = started task.path ∷ stop_old w.running w.log;
    }
    else record w {
      pending = false;
      running = none;
      log = start_failed task.path ∷ stop_old w.running w.log;
    }

-- `cancelBuild(); cancelBuild = nil; builds = nil`
abbrev pub drop_build : Watcher → Watcher
drop_build w = record w { cancel_build = false; builds = none; log = cancelled ∷ w.log }

-- `case result := <-builds`, with the build's error, the scan that follows it, and whether the
-- process starts.
unfoldable pub build_finished :
    ℕ → (failed : Bool) (scan : Option String) (starts : Bool) → BuildTask → Watcher → Watcher
unfolding replace_process
build_finished now failed none starts task w =
    build_again now w.observed task
      (record w { cancel_build = false; builds = none; log = scan_failed ∷ cancelled ∷ w.log })
build_finished now failed (some current) starts task w =
    if not (str_eq current task.source) || not (w.generation == task.generation)
    then build_again now current task (drop_build w)
    else if failed
    then record w {
      cancel_build = false;
      builds = none;
      log = build_failed task.path ∷ cancelled ∷ w.log;
    }
    else replace_process starts task (drop_build w)

-- `case <-ticker.C`. The generation is a `uint64`.
unfoldable pub ticked : ℕ → Option String → Watcher → Watcher
ticked now none w = record w { log = scan_failed ∷ w.log }
ticked now (some current) w = if str_eq current w.observed then w else record w {
  generation = (w.generation + 1) % 2 ^ 64;
  observed = current;
  pending = true;
  last_change = now;
}

-- One receive. A receive from a nil channel blocks, so the event of an absent process or build
-- leaves the state as it is.
unfoldable pub receive : ℕ → Event → Watcher → Watcher
unfolding process_exited build_finished ticked
receive now done w = w
receive now exit w = elim w.running [ none ↦ w | some old ↦ process_exited old w ]
receive now (built failed scan starts) w = elim w.builds [
  | none ↦ w
  | some task ↦ build_finished now failed scan starts task w
]
receive now (tick scan) w = ticked now scan w

-- The deferred calls: the build in flight is cancelled, then the process is stopped, and at last
-- the directory of the binaries is removed.
abbrev cancel_pending : Option BuildTask → Watcher → Watcher
cancel_pending none w = w
cancel_pending (some _) w = drop_build w

abbrev stop_running : Option ℕ → Watcher → Watcher
stop_running none w = w
stop_running (some old) w = record w { running = none; log = stopped old ∷ w.log }

unfoldable pub shut_down : Watcher → Watcher
shut_down w =
    let w' = stop_running w.running (cancel_pending w.builds w) in
    record w' { log = removed_all ∷ w'.log }

-- An event, with the clock at the head of the loop and at the receive.
pub record Round : Type 0 where
  pub before : ℕ
  pub now : ℕ
  pub event : Event

unfoldable pub loop_body : ℕ → Round → Watcher → Watcher
unfolding maybe_build receive
loop_body debounce r w = receive r.now r.event (maybe_build debounce r.before w)

-- The loop over the rounds: it returns at `done`, or waits where the list ends.
unfoldable pub run_loop : ℕ → List Round → Watcher → Watcher
unfolding loop_body
run_loop debounce [] w = w
run_loop debounce (r ∷ rs) w =
    let rest = run_loop debounce rs (loop_body debounce r w) in
    elim r.event [ done ↦ loop_body debounce r w | _ ↦ rest ]

unfoldable pub run : ℕ → ℕ → String → List Round → Watcher
unfolding run_loop shut_down
run debounce now first rounds = shut_down (run_loop debounce rounds (initial debounce now first))
