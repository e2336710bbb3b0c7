-- ===== src/Construction/Sound.antt =====
-- Proofs about `step`, `paths` and `tryPaths` of internal/compiler/construction_flow.go, by
-- induction on a run.
use ghi.Prelude.{String, ◌≡◌, refl, sym, subst, ◌∙◌, ◌⊎◌, inl, inr, Bool, true, List, [], ◌∷◌}
use ghi.Syntax.{Expr, Exprs, more_exprs, Stmt, Stmts, Clauses, no_exprs}
use ghi.Construction.Visit.{visit, visit_stmt, visit_exprs}
use ghi.Construction.Flow.{Initialized, falls, returns, Exit, Checked, merge_exits}
use ghi.Construction.Exits.{
  at, has_default, is_func_lit, range_exits, finalize, handled, finished, branch_flow,
}
use ghi.Construction.Steps.{read, inspect_step, if_step, for_step, range_step, clause_step}
use ghi.Construction.Check.{step, paths, clauses, expr_step, lit_paths}
use ghi.Construction.Runs.{
  Sub, Outcome, ends, faults, Faults, target_visits, Exec, raises, assigns, assign_faults, expr,
  return, return_faults, branch, block, if_init, if_faults, if_then, if_else, for_init, for_loop,
  range_faults, range_loop, switch_init, switch_faults, switch_none, switch_picks, declares,
  declare_faults, skips, opaque_falls, opaque_exits, opaque_faults, ExecList, done, stops, goes_on,
  ExecExpr, plain, plain_faults, try, ExecLit, lit, Handles, catches, uncaught, passes, Finishes,
  no_finalizer, stuck, resumes, overrides, Loop, cond_faults, cond_fails, breaks_off, leaves,
  post_faults, iterates, Ranged, exhausted, range_breaks, range_leaves, ranges_on, Picks,
  case_faults, picks, picks_later, picks_past_default, RunsClause, runs_case, runs_default,
  RunsBody, clause_breaks, clause_ends, clause_falls,
}
use ghi.Construction.Covers.{
  Sub-trans, Covers, Covers-left, merge_exits-Covers, Good, Good-left, Good-right, Good-merge,
  append-eq-nil, each-Good, each-passes,
}
use ghi.Construction.Lowered.{
  IsLowered, IsLoweredList, IsLoweredClauses, IsLoweredExpr, IsLoweredArgs, IsLoweredLit,
  HandlerRethrows, handler-rethrows,
}
use ghi.Construction.Grows.{Exec-Grows, list-Grows, lit-Grows}
use ghi.Construction.Parts.{
  Faults-append, Good-abrupt, Good-of_Covers, read_visits_sound, read_sound, read_exprs_sound,
  read_specs_sound, targets_sound, assign_targets-Covers, plain_step-errors, plain_step-Good,
}
use ghi.Construction.Loops.{
  paths-passes, loop_exits-Good, loop_exits-breaks, loop_exits-post, range_exits-Good, leaving-Good,
  leaving-breaks, falling-Covers,
}
use ghi.Construction.Tries.{
  Thrown, SubOutcome, handled-errors, handled-catches, handled-uncaught, handled-passes,
  finished-errors, finished-resumes, finished-overrides,
}
use ghi.Construction.Cases.{
  self, inspect_step-opaque, opaque-no_exit, expr_step-plain, lit-is_func_lit, Covers-of_next,
  SubOutcome-after, Thrown-of, incoming, for_step-errors, for_step-Good, for_step-ends,
  switch_step-errors, switch_step-Good, switch_step-none,
}

module _ (fields required : List String) where
  mutual
    unfolding step IsLowered if_step range_step clause_step inspect_step finished

    pub sound-Exec :
        {s : Stmt} {σ : Initialized} {r : Outcome}
        → Exec required s σ r
        → (st : Initialized) → Sub st σ
        → IsLowered s
        → (step fields required s st).errors ≡ []
        → Good (step fields required s st).exits r
    sound-Exec (raises _) st sub low quiet = tt
    sound-Exec (assigns {lhs} {tok = tok} {σ}) st sub low quiet =
        assign_targets-Covers fields required lhs tok st σ sub
    sound-Exec (assign_faults {lhs} {rhs} {tok} {σ} h) st sub low quiet =
        let (q, qs) = append-eq-nil _ _ quiet in
        elim (Faults-append required (visit_exprs rhs) (target_visits lhs tok) σ h) [
          | inl right ↦ read_exprs_sound fields required st σ sub rhs q right
          | inr left ↦ targets_sound fields required st σ sub lhs tok low qs left
        ]
    sound-Exec (expr x) st sub low quiet = sound-expr x st sub low quiet
    sound-Exec return st sub low quiet = self st _ returns sub
    sound-Exec (return_faults {results} h) st sub low quiet =
        read_exprs_sound fields required st _ sub results quiet h
    sound-Exec (branch {tok} {σ = σ}) st sub low quiet =
        Good-of_Covers (at st (branch_flow tok) ∷ []) (branch_flow tok) σ
          (self st σ (branch_flow tok) sub)
    sound-Exec (block body) st sub low quiet =
        sound-list body (at st falls ∷ []) (self st _ falls sub) low quiet
    sound-Exec (if_init {r = r} init abrupt) st sub low quiet =
        let (q, qs) = append-eq-nil _ _ quiet in
        Good-merge _ r (Good-abrupt _ _ r abrupt (each-passes _ _) (sound-Exec init st sub low.0 q))
    sound-Exec (if_faults {cond = cond} {σ' = σ'} init h) st sub low quiet =
        let (q, qs) = append-eq-nil _ _ quiet in
        Good-merge [] faults (
          each-Good _ _ σ' faults (sound-Exec init st sub low.0 q) qs (λ st' sub' q'.
            read_sound fields required st' σ' sub' cond
              (append-eq-nil (read fields required cond st') _ q').0 h))
    sound-Exec (if_then {body = body} {σ' = σ'} {r} init then_body) st sub low quiet =
        let (q, qs) = append-eq-nil _ _ quiet in
        Good-merge _ r (
          each-Good _ _ σ' r (sound-Exec init st sub low.0 q) qs (λ st' sub' q'. Good-left _ _ r (
            sound-list then_body (at st' falls ∷ []) (self st' σ' falls sub') low.1
              (append-eq-nil _ _ (append-eq-nil _ _ q').1).0)))
    sound-Exec (if_else {σ' = σ'} {r} init other) st sub low quiet =
        let (q, qs) = append-eq-nil _ _ quiet in
        Good-merge _ r (
          each-Good _ _ σ' r (sound-Exec init st sub low.0 q) qs (λ st' sub' q'.
            Good-right _ _ r
              (sound-Exec other st' sub' low.2 (append-eq-nil _ _ (append-eq-nil _ _ q').1).1)))
    sound-Exec (for_init {r = r} init abrupt) st sub low quiet =
        let (q, qs) = append-eq-nil _ _ quiet in
        Good-merge _ r (Good-abrupt _ _ r abrupt (each-passes _ _) (sound-Exec init st sub low.0 q))
    sound-Exec (for_loop {σ' = σ'} {r} init loop) st sub low quiet =
        let (q, qs) = append-eq-nil _ _ quiet in
        Good-merge _ r (
          each-Good _ _ σ' r (sound-Exec init st sub low.0 q) qs
            (λ st' sub' q'. sound-Loop loop st' sub' low.1 low.2 q'))
    sound-Exec (range_faults {key} {value} {x} {σ = σ} h) st sub low quiet =
        let h' : Faults required (visit x) σ = rw (low.0, low.1) at h in
        read_sound fields required st σ sub x (append-eq-nil _ _ quiet).0 h'
    sound-Exec (range_loop loop) st sub low quiet =
        sound-Ranged loop st sub low.2 (append-eq-nil _ _ quiet).1
    sound-Exec (switch_init {r = r} init abrupt) st sub low quiet =
        let (q, qs) = append-eq-nil _ _ quiet in
        Good-merge _ r (Good-abrupt _ _ r abrupt (each-passes _ _) (sound-Exec init st sub low.0 q))
    sound-Exec (switch_faults {tag = tag} {body} {σ' = σ'} init h) st sub low quiet =
        let (q, qs) = append-eq-nil _ _ quiet in
        Good-merge [] faults (
          each-Good _ _ σ' faults (sound-Exec init st sub low.0 q) qs (λ st' sub' q'.
            read_sound fields required st' σ' sub' tag
              (switch_step-errors fields required st' tag (has_default body)
                (clauses fields required body) q').0
              h))
    sound-Exec (switch_none {tag = tag} {body} {σ' = σ'} init none) st sub low quiet =
        let (q, qs) = append-eq-nil _ _ quiet in
        Good-merge _ (ends falls σ') (
          each-Good _ _ σ' (ends falls σ') (sound-Exec init st sub low.0 q) qs (λ st' sub' q'.
            switch_step-none fields required st' tag (has_default body)
              (clauses fields required body) σ' none sub'))
    sound-Exec (switch_picks {tag = tag} {body} {σ' = σ'} {r} init p) st sub low quiet =
        let (q, qs) = append-eq-nil _ _ quiet in
        Good-merge _ r (
          each-Good _ _ σ' r (sound-Exec init st sub low.0 q) qs (λ st' sub' q'.
            switch_step-Good fields required st' tag (has_default body)
              (clauses fields required body) r
              (sound-Picks p [] st' sub' low.1
                (switch_step-errors fields required st' tag (has_default body)
                  (clauses fields required body) q').1)))
    sound-Exec declares st sub low quiet = self st _ falls sub
    sound-Exec (declare_faults {specs} h) st sub low quiet =
        read_specs_sound fields required st _ sub specs quiet h
    sound-Exec skips st sub low quiet = self st _ falls sub
    sound-Exec (opaque_falls {s} {σ} {σ'} o grows) st sub low quiet =
        rw (inspect_step-opaque fields required s st o)
          (self st σ' falls (Sub-trans st σ σ' sub grows))
    sound-Exec (opaque_exits {s} o exits grows) st sub low quiet =
        absurd (opaque-no_exit s o exits low)
    sound-Exec (opaque_faults {s} {σ} o h) st sub low quiet =
        read_visits_sound fields required st σ sub (visit_stmt s)
          (rw (inspect_step-opaque fields required s st o) at quiet) h

    pub sound-list :
        {ss : Stmts} {σ : Initialized} {r : Outcome}
        → ExecList required ss σ r
        → (exits : List Exit) → Covers exits falls σ
        → IsLoweredList ss
        → (paths fields required ss exits).errors ≡ []
        → Good (paths fields required ss exits).exits r
    sound-list done exits c low quiet = c
    sound-list (stops {s} {ss} {σ} {r} now abrupt) exits c low quiet =
        let (q, qs) = append-eq-nil _ _ quiet in
        Good-abrupt _ _ r abrupt (paths-passes fields required ss _) (
          Good-merge _ r (
            each-Good (step fields required s) exits σ r c q
              (λ st' sub' q'. sound-Exec now st' sub' low.0 q')))
    sound-list (goes_on {s} {ss} {σ} {σ'} now later) exits c low quiet =
        let (q, qs) = append-eq-nil _ _ quiet in
        sound-list later _
          (merge_exits-Covers _ falls σ' (
            each-Good (step fields required s) exits σ (ends falls σ') c q
              (λ st' sub' q'. sound-Exec now st' sub' low.0 q')))
          low.1 qs

    sound-expr :
        {x : Expr} {σ : Initialized} {r : Outcome}
        → ExecExpr required x σ r
        → (st : Initialized) → Sub st σ
        → IsLoweredExpr x
        → (expr_step fields required x st).errors ≡ []
        → Good (expr_step fields required x st).exits r
    sound-expr (plain {x} {σ} calm) st sub low quiet =
        rw (expr_step-plain fields required x st calm) (plain_step-Good fields required x st σ sub)
    sound-expr (plain_faults {x} {σ} calm h) st sub low quiet =
        read_sound fields required st σ sub x
          (sym (plain_step-errors fields required x st)
            ∙ (rw (expr_step-plain fields required x st calm) at quiet))
          h
    sound-expr (try {fun} {body} {handler} {finalizer} {rest} {σ} {r} {r'} {r''} named b h f) st sub
          low quiet =
        let low' : IsLoweredArgs
            (more_exprs body (more_exprs handler (more_exprs finalizer rest))) =
          rw (named, IsLoweredExpr) at low in
        let (q, qf) =
          finished-errors (is_func_lit finalizer) (lit_paths fields required finalizer) _
            (rw named at quiet) in
        let (qb, qh) =
          handled-errors st (lit_paths fields required body (at st falls ∷ []))
            (lit_paths fields required handler (at st falls ∷ [])) (is_func_lit handler)
            (is_func_lit finalizer) q in
        let (good, thrown) =
          sound-handles h st (is_func_lit finalizer)
            (lit_paths fields required body (at st falls ∷ []))
            (SubOutcome-after st σ r sub (lit-Grows b)) (sound-lit b st sub low'.0 qb) low'.1 low'.2
            qh in
        rw named (sound-Finishes f _ good thrown low'.3 qf)

    sound-lit :
        {x : Expr} {σ : Initialized} {r : Outcome}
        → ExecLit required x σ r
        → (st : Initialized) → Sub st σ
        → IsLoweredLit x
        → (lit_paths fields required x (at st falls ∷ [])).errors ≡ []
        → Good (lit_paths fields required x (at st falls ∷ [])).exits r
    sound-lit (lit body) st sub low quiet =
        sound-list body (at st falls ∷ []) (self st _ falls sub) low quiet

    sound-handles :
        {x : Expr} {r r' : Outcome}
        → Handles required x r r'
        → (st : Initialized) (f : Bool) (body : Checked) → SubOutcome st r
        → Good body.exits r
        → IsLoweredLit x
        → HandlerRethrows x
        → (is_func_lit x ≡ true → (lit_paths fields required x (at st falls ∷ [])).errors ≡ [])
        → Good
            (handled
              (is_func_lit x)
              f
              st
              body
              (lit_paths fields required x (at st falls ∷ []))).exits
            r'
          × Thrown f
              (handled
                (is_func_lit x)
                f
                st
                body
                (lit_paths fields required x (at st falls ∷ []))).exits
              r'
    sound-handles (catches {handler} {σ} {r} run) st f body sub good low throws_again quiet =
        let is_lit = lit-is_func_lit run in
        rw is_lit (
          handled-catches st body (lit_paths fields required handler (at st falls ∷ [])) f r
            (sound-lit run st sub low (quiet is_lit))
            (Thrown-of _ st r (SubOutcome-after st σ r sub (lit-Grows run))
              (λ σ' sub'. handler-rethrows fields required handler st σ' throws_again is_lit sub')))
    sound-handles (uncaught {handler} {r} nil) st f body sub good low throws_again quiet = rw nil (
        handled-uncaught st body (lit_paths fields required handler (at st falls ∷ [])) f r sub
          good)
    sound-handles (passes {handler} {r} calm) st f body sub good low throws_again quiet =
        handled-passes st body (lit_paths fields required handler (at st falls ∷ []))
          (is_func_lit handler) f r calm good

    sound-Finishes :
        {x : Expr} {r r' : Outcome}
        → Finishes required x r r'
        → (c : Checked) → Good c.exits r
        → Thrown (is_func_lit x) c.exits r
        → IsLoweredLit x
        → (is_func_lit x ≡ true → (finalize (lit_paths fields required x) c.exits).errors ≡ [])
        → Good (finished (is_func_lit x) (lit_paths fields required x) c).exits r'
    sound-Finishes (no_finalizer nil) c good thrown low quiet = rw (nil, finished) good
    sound-Finishes stuck c good thrown low quiet = absurd good
    sound-Finishes (resumes {finalizer} {flow} {σ} {σ'} run) c good thrown low quiet =
        let is_lit = lit-is_func_lit run in
        subst (λ b. Good (finished b (lit_paths fields required finalizer) c).exits (ends flow σ'))
          (sym is_lit)
          (finished-resumes (lit_paths fields required finalizer) c flow σ good
            (rw is_lit at thrown) (quiet is_lit) σ' (λ st' sub' q'. sound-lit run st' sub' low q'))
    sound-Finishes (overrides {finalizer} {flow} {σ} {r} run abrupt) c good thrown low quiet =
        let is_lit = lit-is_func_lit run in
        subst (λ b. Good (finished b (lit_paths fields required finalizer) c).exits r) (sym is_lit)
          (finished-overrides (lit_paths fields required finalizer) c flow σ good
            (rw is_lit at thrown) (quiet is_lit) r abrupt
            (λ st' sub' q'. sound-lit run st' sub' low q'))

    sound-Loop :
        {cond : Expr} {post : Stmt} {body : Stmts} {σ : Initialized} {r : Outcome}
        → Loop required cond post body σ r
        → (st : Initialized) → Sub st σ
        → IsLowered post
        → IsLoweredList body
        → (for_step fields required cond
            (paths fields required body)
            (step fields required post)
            st).errors
          ≡ []
        → Good
            (for_step fields required cond
              (paths fields required body)
              (step fields required post)
              st).exits
            r
    sound-Loop (cond_faults {cond} {post} {body} {σ} h) st sub lp lb quiet =
        read_sound fields required st σ sub cond
          (for_step-errors fields required st cond (paths fields required body)
            (step fields required post) quiet).0
          h
    sound-Loop (cond_fails {cond} {post} {body} {σ} fin) st sub lp lb quiet =
        for_step-ends fields required st cond (paths fields required body)
          (step fields required post) σ fin sub
    sound-Loop (breaks_off {cond} {post} {body} {σ} {σ'} run) st sub lp lb quiet =
        let (qr, qb, ql) =
          for_step-errors fields required st cond (paths fields required body)
            (step fields required post) quiet in
        for_step-Good fields required st cond (paths fields required body)
          (step fields required post) (ends falls σ')
          (loop_exits-breaks (step fields required post)
            (paths fields required body (at st falls ∷ [])).exits σ'
            (sound-list run (at st falls ∷ []) (self st σ falls sub) lb qb))
    sound-Loop (leaves {cond} {post} {body} {σ} {r} run left) st sub lp lb quiet =
        let (qr, qb, ql) =
          for_step-errors fields required st cond (paths fields required body)
            (step fields required post) quiet in
        for_step-Good fields required st cond (paths fields required body)
          (step fields required post) r
          (loop_exits-Good (step fields required post)
            (paths fields required body (at st falls ∷ [])).exits r left
            (sound-list run (at st falls ∷ []) (self st σ falls sub) lb qb))
    sound-Loop (post_faults {cond} {post} {body} {σ} {σ'} {flow} run next end) st sub lp lb quiet =
        let (qr, qb, ql) =
          for_step-errors fields required st cond (paths fields required body)
            (step fields required post) quiet in
        absurd (
          loop_exits-post (step fields required post)
            (paths fields required body (at st falls ∷ [])).exits flow σ' ⊥ next
            (Covers-of_next (paths fields required body (at st falls ∷ [])).exits flow σ' next
              (sound-list run (at st falls ∷ []) (self st σ falls sub) lb qb))
            ql (λ st' sub' q'. sound-Exec end st' sub' lp q'))
    sound-Loop (iterates {σ = σ} {σ'} {σ''} run next end loop) st sub lp lb quiet =
        sound-Loop loop st
          (Sub-trans st σ σ'' sub (Sub-trans σ σ' σ'' (list-Grows run) (Exec-Grows end))) lp lb
          quiet

    sound-Ranged :
        {body : Stmts} {σ : Initialized} {r : Outcome}
        → Ranged required body σ r
        → (st : Initialized) → Sub st σ
        → IsLoweredList body
        → (paths fields required body (at st falls ∷ [])).errors ≡ []
        → Good
            (merge_exits
              (at st falls ∷ range_exits (paths fields required body (at st falls ∷ [])).exits))
            r
    sound-Ranged (exhausted {σ = σ}) st sub low quiet =
        merge_exits-Covers _ falls σ (inl (refl, sub))
    sound-Ranged (range_breaks {σ = σ} {σ'} run) st sub low quiet =
        merge_exits-Covers _ falls σ' (inl (refl, Sub-trans st σ σ' sub (list-Grows run)))
    sound-Ranged (range_leaves {σ = σ} {r} run left) st sub low quiet = Good-merge _ r (
        Good-right (at st falls ∷ []) _ r (
          range_exits-Good _ r left
            (sound-list run (at st falls ∷ []) (self st σ falls sub) low quiet)))
    sound-Ranged (ranges_on {σ = σ} {σ'} run next loop) st sub low quiet =
        sound-Ranged loop st (Sub-trans st σ σ' sub (list-Grows run)) low quiet

    sound-Picks :
        {cs : Clauses} {σ : Initialized} {r : Outcome}
        → Picks required cs σ r
        → (fallen : List Exit) (st : Initialized) → Sub st σ
        → IsLoweredClauses cs
        → (clauses fields required cs fallen st).errors ≡ []
        → Good (clauses fields required cs fallen st).exits r
    sound-Picks (case_faults {list} {σ = σ} h) fallen st sub low quiet =
        read_exprs_sound fields required st σ sub list (append-eq-nil _ _ quiet).0 h
    sound-Picks (picks c) fallen st sub low quiet = sound-clause c fallen st (inl sub) low quiet
    sound-Picks (picks_later {r = r} p) fallen st sub low quiet =
        Good-right _ _ r
          (sound-Picks p _ st sub low.1 (append-eq-nil _ _ (append-eq-nil _ _ quiet).1).1)
    sound-Picks (picks_past_default {r = r} p) fallen st sub low quiet =
        Good-right _ _ r (sound-Picks p _ st sub low.1 (append-eq-nil _ _ quiet).1)

    sound-clause :
        {cs : Clauses} {σ : Initialized} {r : Outcome}
        → RunsClause required cs σ r
        → (fallen : List Exit) (st : Initialized) → Sub st σ ⊎ Covers fallen falls σ
        → IsLoweredClauses cs
        → (clauses fields required cs fallen st).errors ≡ []
        → Good (clauses fields required cs fallen st).exits r
    sound-clause (runs_case {list} run) fallen st from low quiet =
        sound-body run list fallen st from low.0 low.1 quiet
    sound-clause (runs_default run) fallen st from low quiet =
        sound-body run no_exprs fallen st from low.0 low.1 quiet

    sound-body :
        {body : Stmts} {rest : Clauses} {σ : Initialized} {r : Outcome}
        → RunsBody required body rest σ r
        → (list : Exprs) (fallen : List Exit) (st : Initialized) → Sub st σ ⊎ Covers fallen falls σ
        → IsLoweredList body
        → IsLoweredClauses rest
        → (clause_step fields required list
            (paths fields required body)
            (λ f. clauses fields required rest f st)
            fallen
            st).errors
          ≡ []
        → Good
            (clause_step fields required list
              (paths fields required body)
              (λ f. clauses fields required rest f st)
              fallen
              st).exits
            r
    sound-body (clause_breaks {σ = σ} {σ'} run) list fallen st from lb lr quiet =
        let (qe, qs) = append-eq-nil _ _ quiet in
        let (qb, qr) = append-eq-nil _ _ qs in
        Covers-left _ _ falls σ'
          (leaving-breaks _ σ' (sound-list run _ (incoming st fallen σ from) lb qb))
    sound-body (clause_ends {σ = σ} {r} run left) list fallen st from lb lr quiet =
        let (qe, qs) = append-eq-nil _ _ quiet in
        let (qb, qr) = append-eq-nil _ _ qs in
        Good-left _ _ r (leaving-Good _ r left (sound-list run _ (incoming st fallen σ from) lb qb))
    sound-body (clause_falls {σ = σ} {σ'} {r} run next) list fallen st from lb lr quiet =
        let (qe, qs) = append-eq-nil _ _ quiet in
        let (qb, qr) = append-eq-nil _ _ qs in
        Good-right _ _ r (
          sound-clause next _ st
            (inr (falling-Covers _ σ' (sound-list run _ (incoming st fallen σ from) lb qb))) lr qr)
