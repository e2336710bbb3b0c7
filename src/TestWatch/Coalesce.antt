-- ===== src/TestWatch/Coalesce.antt =====
-- Proofs about the loop of `Tests` in internal/watch/tests.go, by an invariant of its state and log.
use ghi.Prelude.{
  ℕ, String, ◌≡◌, Bool, true, false, Option, none, some, List, [], ◌∷◌, arith, eq_iff,
  if◌then◌else◌,
}
use ghi.TestWatch.State.{
  Line, running, scan_failed, changed, failed, passed, Tester, Event, done, result, tick, initial,
  maybe_run, run_finished, ticked, receive, Round, loop_body, run_loop,
}

-- The sources of the newest run.
abbrev pub last_run : List Line → Option String
last_run [] = none
last_run (running observed ∷ log) = some observed
last_run (_ ∷ log) = last_run log

-- Whether a run is active after the lines of a log: each run ends with one line.
abbrev pub is_active : List Line → Bool
is_active [] = false
is_active (running observed ∷ log) = true
is_active (scan_failed ∷ log) = is_active log
is_active (_ ∷ log) = false

-- A run starts only while none is active, and a run is reported only while one is.
abbrev pub IsSerial : List Line → Type 0
IsSerial [] = Unit
IsSerial (running observed ∷ log) = (is_active log ≡ false) × IsSerial log
IsSerial (scan_failed ∷ log) = IsSerial log
IsSerial (_ ∷ log) = (is_active log ≡ true) × IsSerial log

abbrev Settled : Bool → Tester → Type 0
Settled true t = Unit
Settled false t = last_run t.log ≡ some t.observed

pub record IsValid (t : Tester) : Type 0 where
  pub settled : Settled t.pending t
  pub cancel : t.cancel ≡ t.active
  pub active : is_active t.log ≡ t.active
  pub serial : IsSerial t.log

maybe_run-IsValid : (debounce now : ℕ) (t : Tester) → IsValid t → IsValid (maybe_run debounce now t)
unfolding maybe_run
maybe_run-IsValid debounce now t v = ground arith

run_finished-IsValid :
    (now : ℕ) (failure : Bool) (scan : Option String) (t : Tester)
    → t.active ≡ true
    → IsValid t
    → IsValid (run_finished now failure scan t)
unfolding run_finished
run_finished-IsValid now failure none t e v = ground arith
run_finished-IsValid now failure (some current) t e v = ground (arith, eq_iff current t.observed)

ticked-IsValid :
    (now : ℕ) (scan : Option String) (t : Tester) → IsValid t → IsValid (ticked now scan t)
unfolding ticked
ticked-IsValid now none t v = ground arith
ticked-IsValid now (some current) t v = ground (arith, eq_iff current t.observed)

receive-IsValid : (now : ℕ) (event : Event) (t : Tester) → IsValid t → IsValid (receive now event t)
unfolding receive
receive-IsValid now done t v = v
receive-IsValid now (result failure scan) t v =
    ground (arith, run_finished-IsValid now failure scan t)
receive-IsValid now (tick scan) t v = ticked-IsValid now scan t v

loop_body-IsValid :
    (debounce : ℕ) (r : Round) (t : Tester) → IsValid t → IsValid (loop_body debounce r t)
unfolding loop_body
loop_body-IsValid debounce r t v =
    receive-IsValid r.now r.event _ (maybe_run-IsValid debounce r.before t v)

loop_end :
    {x y : Tester} (event : Event)
    → IsValid x
    → IsValid y
    → IsValid (elim event [ done ↦ x | _ ↦ y ])
loop_end done vx vy = vx
loop_end (result failure scan) vx vy = vy
loop_end (tick scan) vx vy = vy

run_loop-IsValid :
    (debounce : ℕ) (rounds : List Round) (t : Tester)
    → IsValid t
    → IsValid (run_loop debounce rounds t)
unfolding run_loop
run_loop-IsValid debounce [] t v = v
run_loop-IsValid debounce (r ∷ rs) t v =
    let step = loop_body-IsValid debounce r t v in
    loop_end r.event step (run_loop-IsValid debounce rs _ step)

initial-IsValid : (debounce now : ℕ) (first : String) → IsValid (initial debounce now first)
initial-IsValid debounce now first = ground arith

module _ (debounce now : ℕ) (first : String) (rounds : List Round) where
  abbrev after : Tester
  after = run_loop debounce rounds (initial debounce now first)

  after-IsValid : IsValid after
  after-IsValid = run_loop-IsValid debounce rounds _ (initial-IsValid debounce now first)

-- Over every sequence of rounds a run starts only while no other is active, and each report ends
-- one active run.
pub run_loop-IsSerial :
    (debounce now : ℕ) (first : String) (rounds : List Round)
    → IsSerial (run_loop debounce rounds (initial debounce now first)).log
run_loop-IsSerial debounce now first rounds = (after-IsValid debounce now first rounds).serial

-- After every sequence of rounds, a tester with no change pending has started its newest run on
-- the sources that it last observed.
pub run_loop-last_run :
    (debounce now : ℕ) (first : String) (rounds : List Round)
    → (run_loop debounce rounds (initial debounce now first)).pending ≡ false
    → last_run (run_loop debounce rounds (initial debounce now first)).log
      ≡ some (run_loop debounce rounds (initial debounce now first)).observed
run_loop-last_run debounce now first rounds quiet =
    ground (arith, (after-IsValid debounce now first rounds).settled)

-- The lines that the scan after a run adds.
abbrev pub scanned : Option String → List Line → List Line
scanned none log = scan_failed ∷ log
scanned (some current) log = log

-- A failing run leaves the tester as a passing one does: no run is active and none is left to
-- cancel, and the same change is pending. Both keep the log, with the line of a scan that failed,
-- and add one line: that sources changed, if a change is pending, or else whether the run failed.
pub run_finished-failure :
    (now : ℕ) (failure : Bool) (scan : Option String) (t : Tester)
    → ((run_finished now failure scan t).pending ≡ (run_finished now false scan t).pending)
      × ((run_finished now failure scan t).observed ≡ (run_finished now false scan t).observed)
      × ((run_finished now failure scan t).last_change
          ≡ (run_finished now false scan t).last_change)
      × ((run_finished now failure scan t).active ≡ false)
      × ((run_finished now failure scan t).cancel ≡ false)
      × ((run_finished now failure scan t).log
          ≡ (if (run_finished now failure scan t).pending
              then changed
              else if failure
              then failed
              else passed)
            ∷ scanned scan t.log)
unfolding run_finished
run_finished-failure now failure none t = ground arith
run_finished-failure now failure (some current) t = ground arith
