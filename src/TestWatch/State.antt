-- ===== src/TestWatch/State.antt =====
-- internal/watch/tests.go: the state of `Tests`, and its select loop. The clock, the scans of the
-- sources and the result of a test run come with the events; what the loop prints or starts is
-- kept in `log`, the newest first. A run reads the sources while it goes, so the log records the
-- snapshot that was observed when it was started.
use ghi.Prelude.{
  ℕ, ◌-◌, String, Bool, true, false, ◌&&◌, not, Option, none, some, List, [], ◌∷◌, leb,
  if◌then◌else◌, str_eq,
}

pub data Line : Type 0 where
  running : (observed : String) → Line
  scan_failed changed failed passed : Line

pub record Tester : Type 0 where
  pub observed : String
  -- `done != nil`: a test run is active; `cancel` is set and reset with it.
  pub active : Bool
  pub cancel : Bool
  pub pending : Bool
  pub last_change : ℕ
  pub log : List Line

pub data Event : Type 0 where
  done : Event
  result : (failure : Bool) (scan : Option String) → Event
  tick : (scan : Option String) → Event

abbrev pub initial : (debounce now : ℕ) → String → Tester
initial debounce now first = record {
  observed = first;
  active = false;
  cancel = false;
  pending = true;
  last_change = now - debounce;
  log = [];
}

-- The head of the loop body.
unfoldable pub maybe_run : (debounce now : ℕ) → Tester → Tester
maybe_run debounce now t =
    if t.pending && not t.active && leb debounce (now - t.last_change)
    then record t {
      pending = false;
      cancel = true;
      active = true;
      log = running t.observed ∷ t.log;
    }
    else t

-- The scan after a run: a failure or a change makes another run due.
unfoldable pub rescan : ℕ → Option String → Tester → Tester
rescan now none t = record t { pending = true; last_change = now; log = scan_failed ∷ t.log }
rescan now (some current) t =
    if str_eq current t.observed
    then t
    else record t { observed = current; pending = true; last_change = now }

abbrev outcome : (pending failure : Bool) → Line
outcome true failure = changed
outcome false true = failed
outcome false false = passed

-- `case result := <-done`, for an active run.
unfoldable pub run_finished : ℕ → (failure : Bool) (scan : Option String) → Tester → Tester
unfolding rescan
run_finished now failure scan t =
    let t' = rescan now scan (record t { active = false; cancel = false }) in
    record t' { log = outcome t'.pending failure ∷ t'.log }

-- `case <-ticker.C`
unfoldable pub ticked : ℕ → Option String → Tester → Tester
ticked now none t = record t { log = scan_failed ∷ t.log }
ticked now (some current) t =
    if str_eq current t.observed
    then t
    else record t { observed = current; pending = true; last_change = now }

-- One receive. The channel of an absent run is nil, and a receive from it blocks.
unfoldable pub receive : ℕ → Event → Tester → Tester
unfolding run_finished ticked
receive now done t = t
receive now (result failure scan) t = if t.active then run_finished now failure scan t else t
receive now (tick scan) t = ticked now scan t

pub record Round : Type 0 where
  pub before : ℕ
  pub now : ℕ
  pub event : Event

unfoldable pub loop_body : ℕ → Round → Tester → Tester
unfolding maybe_run receive
loop_body debounce r t = receive r.now r.event (maybe_run debounce r.before t)

-- The loop over the rounds: it returns at `done`, or waits where the list ends.
unfoldable pub run_loop : ℕ → List Round → Tester → Tester
unfolding loop_body
run_loop debounce [] t = t
run_loop debounce (r ∷ rs) t =
    let rest = run_loop debounce rs (loop_body debounce r t) in
    elim r.event [ done ↦ loop_body debounce r t | _ ↦ rest ]
