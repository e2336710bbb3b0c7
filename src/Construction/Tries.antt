-- ===== src/Construction/Tries.antt =====
-- Proofs about `tryPaths` of internal/compiler/construction_flow.go: the exits after the handler
-- and after the finalizer.
use ghi.Prelude.{◌≡◌, refl, inl, Bool, true, false, List, [], ◌∷◌, ◌++◌}
use ghi.Construction.Flow.{
  Initialized, Flow, falls, throws, returns, breaks, continues, goes, falls_through, Exit, Checked,
  merge_exits,
}
use ghi.Construction.Exits.{at, not_thrown, finalize, handled, finished}
use ghi.Construction.Runs.{Sub, Outcome, ends, faults, is_normal, is_thrown}
use ghi.Construction.Covers.{
  Covers, Covers-right, merge_exits-Covers, Good, Good-left, Good-right, Good-merge, append-eq-nil,
}
use ghi.Construction.Parts.{Good-abrupt, Good-of_Covers}
use ghi.Construction.Loops.{not_thrown-Good, resume-falls, resume-abrupt, finalize-Good}

-- What the exits before the finalizer cover: exceptions too, where there is a finalizer.
abbrev pub Thrown : Bool → List Exit → Outcome → Type 0
Thrown true exits (ends throws σ) = Covers exits throws σ
Thrown _ exits r = Unit

abbrev pub SubOutcome : Initialized → Outcome → Type 0
SubOutcome st (ends flow σ) = Sub st σ
SubOutcome st faults = Unit

module _ (st : Initialized) (body handler : Checked) where
  pub handled-errors :
      (has_handler has_finalizer : Bool)
      → (handled has_handler has_finalizer st body handler).errors ≡ []
      → (body.errors ≡ []) × (has_handler ≡ true → handler.errors ≡ [])
  unfolding handled
  handled-errors true has_finalizer quiet =
      let (q, qs) = append-eq-nil body.errors handler.errors quiet in (q, λ _. qs)
  handled-errors false true quiet = (quiet, λ e. cc)
  handled-errors false false quiet = (quiet, λ e. cc)

  -- The handler caught an exception.
  pub handled-catches :
      (has_finalizer : Bool) (r : Outcome)
      → Good handler.exits r
      → Thrown true handler.exits r
      → Good (handled true has_finalizer st body handler).exits r
        × Thrown has_finalizer (handled true has_finalizer st body handler).exits r
  unfolding handled
  handled-catches has_finalizer r good thrown = (
    Good-merge _ r (Good-right (not_thrown body.exits) _ r good),
    with_thrown has_finalizer r thrown,
  )
    where
      with_thrown :
          (f : Bool) (r : Outcome)
          → Thrown true handler.exits r
          → Thrown f (merge_exits (not_thrown body.exits ++ handler.exits)) r
      with_thrown true (ends throws σ) c =
          merge_exits-Covers _ throws σ (Covers-right (not_thrown body.exits) _ throws σ c)
      with_thrown true (ends falls σ) c = tt
      with_thrown true (ends returns σ) c = tt
      with_thrown true (ends breaks σ) c = tt
      with_thrown true (ends continues σ) c = tt
      with_thrown true (ends goes σ) c = tt
      with_thrown true (ends falls_through σ) c = tt
      with_thrown true faults c = tt
      with_thrown false r c = tt

  -- There is no handler.
  pub handled-uncaught :
      (has_finalizer : Bool) (r : Outcome)
      → SubOutcome st r
      → Good body.exits r
      → Good (handled false has_finalizer st body handler).exits r
        × Thrown has_finalizer (handled false has_finalizer st body handler).exits r
  unfolding handled
  handled-uncaught true r sub good = (Good-left _ _ r good, with_thrown r sub)
    where
      with_thrown :
          (r : Outcome) → SubOutcome st r → Thrown true (body.exits ++ at st throws ∷ []) r
      with_thrown (ends throws σ) s = Covers-right body.exits _ throws σ (inl (refl, s))
      with_thrown (ends falls σ) s = tt
      with_thrown (ends returns σ) s = tt
      with_thrown (ends breaks σ) s = tt
      with_thrown (ends continues σ) s = tt
      with_thrown (ends goes σ) s = tt
      with_thrown (ends falls_through σ) s = tt
      with_thrown faults s = tt
  handled-uncaught false r sub good = (good, tt)

  -- The body did not throw.
  pub handled-passes :
      (has_handler has_finalizer : Bool) (r : Outcome)
      → is_thrown r ≡ false
      → Good body.exits r
      → Good (handled has_handler has_finalizer st body handler).exits r
        × Thrown has_finalizer (handled has_handler has_finalizer st body handler).exits r
  unfolding handled
  handled-passes has_handler has_finalizer r calm good =
      (kept has_handler has_finalizer, none_thrown has_finalizer r calm)
    where
      kept : (h f : Bool) → Good (handled h f st body handler).exits r
      kept true f =
          Good-merge _ r (Good-left _ handler.exits r (not_thrown-Good body.exits r calm good))
      kept false true = Good-left _ _ r good
      kept false false = good

      none_thrown :
          (f : Bool) (r : Outcome)
          → is_thrown r ≡ false
          → Thrown f (handled has_handler f st body handler).exits r
      none_thrown true (ends throws σ) c = cc
      none_thrown true (ends falls σ) c = tt
      none_thrown true (ends returns σ) c = tt
      none_thrown true (ends breaks σ) c = tt
      none_thrown true (ends continues σ) c = tt
      none_thrown true (ends goes σ) c = tt
      none_thrown true (ends falls_through σ) c = tt
      none_thrown true faults c = tt
      none_thrown false r c = tt

pub finished-errors :
    (has_finalizer : Bool) (finalizer : List Exit → Checked) (c : Checked)
    → (finished has_finalizer finalizer c).errors ≡ []
    → (c.errors ≡ []) × (has_finalizer ≡ true → (finalize finalizer c.exits).errors ≡ [])
unfolding finished
finished-errors true finalizer c quiet =
    let (q, qs) = append-eq-nil c.errors _ quiet in (q, λ _. qs)
finished-errors false finalizer c quiet = (quiet, λ e. cc)

Covers-of_Thrown :
    (exits : List Exit) (flow : Flow) (σ : Initialized)
    → Good exits (ends flow σ)
    → Thrown true exits (ends flow σ)
    → Covers exits flow σ
Covers-of_Thrown exits throws σ good thrown = thrown
Covers-of_Thrown exits falls σ good thrown = good
Covers-of_Thrown exits returns σ good thrown = good
Covers-of_Thrown exits breaks σ good thrown = good
Covers-of_Thrown exits continues σ good thrown = good
Covers-of_Thrown exits goes σ good thrown = good
Covers-of_Thrown exits falls_through σ good thrown = good

module _ (finalizer : List Exit → Checked) (c : Checked) (flow : Flow) (σ : Initialized)
    (good : Good c.exits (ends flow σ)) (thrown : Thrown true c.exits (ends flow σ))
    (quiet : (finalize finalizer c.exits).errors ≡ []) where
  -- The finalizer ends normally, and the pending exit goes on.
  pub finished-resumes :
      (σ' : Initialized)
      → ((st : Initialized)
          → Sub st σ
          → (finalizer (at st falls ∷ [])).errors ≡ []
          → Good (finalizer (at st falls ∷ [])).exits (ends falls σ'))
      → Good (finished true finalizer c).exits (ends flow σ')
  unfolding finished
  finished-resumes σ' run = Good-merge _ (ends flow σ') (
      finalize-Good finalizer c.exits flow σ (ends flow σ')
        (Covers-of_Thrown c.exits flow σ good thrown) quiet
        (λ st sub q. Good-of_Covers _ flow σ' (resume-falls flow _ σ' (run st sub q))))

  -- The finalizer ends otherwise, and overrides it.
  pub finished-overrides :
      (r : Outcome)
      → is_normal r ≡ false
      → ((st : Initialized)
          → Sub st σ
          → (finalizer (at st falls ∷ [])).errors ≡ []
          → Good (finalizer (at st falls ∷ [])).exits r)
      → Good (finished true finalizer c).exits r
  unfolding finished
  finished-overrides r abrupt run = Good-merge _ r (
      finalize-Good finalizer c.exits flow σ r (Covers-of_Thrown c.exits flow σ good thrown) quiet
        (λ st sub q. Good-abrupt _ _ r abrupt (resume-abrupt flow _) (run st sub q)))
