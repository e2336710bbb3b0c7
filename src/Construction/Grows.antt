-- ===== src/Construction/Grows.antt =====
-- Proofs about the runs of a constructor: the fields that are set in the course of one.
use ghi.Prelude.{String, Bool, true, false, List, arith, Bool-cases, inl, inr, Option, none, some}
use ghi.Syntax.{Expr, Exprs, no_exprs, more_exprs, Stmt, Stmts, Clauses, Token, is_call}
use ghi.Construction.Visit.{this_field_of}
use ghi.Construction.Flow.{Initialized}
use ghi.Construction.Exits.{is_assign}
use ghi.Construction.Runs.{
  Sub, Outcome, ends, faults, set_field, assign_one, assigned, plain_end, Exec, raises, assigns,
  assign_faults, expr, return, return_faults, branch, block, if_init, if_faults, if_then, if_else,
  for_init, for_loop, range_faults, range_loop, switch_init, switch_faults, switch_none,
  switch_picks, declares, declare_faults, skips, opaque_falls, opaque_exits, opaque_faults,
  ExecList, done, stops, goes_on, ExecExpr, plain, plain_faults, try, ExecLit, lit, Handles,
  catches, uncaught, passes, Finishes, no_finalizer, stuck, resumes, overrides, Loop, cond_faults,
  cond_fails, breaks_off, leaves, post_faults, iterates, Ranged, exhausted, range_breaks,
  range_leaves, ranges_on, Picks, case_faults, picks, picks_later, picks_past_default, RunsClause,
  runs_case, runs_default, RunsBody, clause_breaks, clause_ends, clause_falls,
}
use ghi.Construction.Covers.{Sub-trans}

abbrev pub Grows : Initialized → Outcome → Type 0
Grows σ (ends flow σ') = Sub σ σ'
Grows σ faults = Unit

abbrev OutcomeGrows : Outcome → Outcome → Type 0
OutcomeGrows (ends flow σ) r = Grows σ r
OutcomeGrows faults faults = Unit
OutcomeGrows faults (ends flow σ) = ⊥

Grows-after : (σ σ' : Initialized) (r : Outcome) → Sub σ σ' → Grows σ' r → Grows σ r
Grows-after σ σ' (ends flow σ'') h k = Sub-trans σ σ' σ'' h k
Grows-after σ σ' faults h k = tt

Grows-outcome : (σ : Initialized) (r r' : Outcome) → Grows σ r → OutcomeGrows r r' → Grows σ r'
Grows-outcome σ (ends flow σ') r' h k = Grows-after σ σ' r' h k
Grows-outcome σ faults faults h k = tt
Grows-outcome σ faults (ends flow σ') h k = absurd k

OutcomeGrows-refl : (r : Outcome) → OutcomeGrows r r
OutcomeGrows-refl (ends flow σ) = λ f m. m
OutcomeGrows-refl faults = tt

set_field-Grows :
    (plain : Bool) (field : Option String) (σ : Initialized) → Sub σ (set_field plain field σ)
set_field-Grows true (some name) σ f m = ground arith
set_field-Grows true none σ f m = m
set_field-Grows false field σ f m = m

assign_one-Grows : (x : Expr) (tok : Token) (σ : Initialized) → Sub σ (assign_one x tok σ)
assign_one-Grows x tok σ = set_field-Grows (is_assign tok) (this_field_of x) σ

assigned-Grows : (lhs : Exprs) (tok : Token) (σ : Initialized) → Sub σ (assigned lhs tok σ)
assigned-Grows no_exprs tok σ f m = m
assigned-Grows (more_exprs x xs) tok σ f m =
    assigned-Grows xs tok (assign_one x tok σ) f (assign_one-Grows x tok σ f m)

plain_end-Grows : (x : Expr) (σ : Initialized) → Grows σ (plain_end x σ)
plain_end-Grows x σ = elim (Bool-cases (is_call x "parent")) [
  | inl p ↦ rw p (λ f m. ground arith)
  | inr p ↦ elim (Bool-cases (is_call x "GhiThrow")) [
    | inl t ↦ rw (p, t) (λ f m. m)
    | inr t ↦ elim (Bool-cases (is_call x "panic")) [
      | inl a ↦ rw (p, t, a) (λ f m. m)
      | inr a ↦ rw (p, t, a) (λ f m. m)
    ]
  ]
]

module _ {required : List String} where
  mutual
    pub Exec-Grows : {s : Stmt} {σ : Initialized} {r : Outcome} → Exec required s σ r → Grows σ r
    Exec-Grows (raises sub) = sub
    Exec-Grows (assigns {lhs} {tok = tok} {σ}) = assigned-Grows lhs tok σ
    Exec-Grows (assign_faults _) = tt
    Exec-Grows (expr x) = expr-Grows x
    Exec-Grows return = λ f m. m
    Exec-Grows (return_faults _) = tt
    Exec-Grows branch = λ f m. m
    Exec-Grows (block body) = list-Grows body
    Exec-Grows (if_init init _) = Exec-Grows init
    Exec-Grows (if_faults init _) = tt
    Exec-Grows (if_then init body) = Grows-after _ _ _ (Exec-Grows init) (list-Grows body)
    Exec-Grows (if_else init other) = Grows-after _ _ _ (Exec-Grows init) (Exec-Grows other)
    Exec-Grows (for_init init _) = Exec-Grows init
    Exec-Grows (for_loop init loop) = Grows-after _ _ _ (Exec-Grows init) (Loop-Grows loop)
    Exec-Grows (range_faults _) = tt
    Exec-Grows (range_loop loop) = Ranged-Grows loop
    Exec-Grows (switch_init init _) = Exec-Grows init
    Exec-Grows (switch_faults init _) = tt
    Exec-Grows (switch_none init _) = Exec-Grows init
    Exec-Grows (switch_picks init p) = Grows-after _ _ _ (Exec-Grows init) (Picks-Grows p)
    Exec-Grows declares = λ f m. m
    Exec-Grows (declare_faults _) = tt
    Exec-Grows skips = λ f m. m
    Exec-Grows (opaque_falls _ sub) = sub
    Exec-Grows (opaque_exits _ _ sub) = sub
    Exec-Grows (opaque_faults _ _) = tt

    pub list-Grows :
        {ss : Stmts} {σ : Initialized} {r : Outcome} → ExecList required ss σ r → Grows σ r
    list-Grows done = λ f m. m
    list-Grows (stops s _) = Exec-Grows s
    list-Grows (goes_on s ss) = Grows-after _ _ _ (Exec-Grows s) (list-Grows ss)

    expr-Grows : {x : Expr} {σ : Initialized} {r : Outcome} → ExecExpr required x σ r → Grows σ r
    expr-Grows (plain {x} {σ} _) = plain_end-Grows x σ
    expr-Grows (plain_faults _ _) = tt
    expr-Grows (try _ body handler finalizer) =
        Grows-outcome _ _ _ (Grows-outcome _ _ _ (lit-Grows body) (handles-Grows handler))
          (Finishes-Grows finalizer)

    pub lit-Grows : {x : Expr} {σ : Initialized} {r : Outcome} → ExecLit required x σ r → Grows σ r
    lit-Grows (lit body) = list-Grows body

    handles-Grows : {x : Expr} {r r' : Outcome} → Handles required x r r' → OutcomeGrows r r'
    handles-Grows (catches x) = lit-Grows x
    handles-Grows (uncaught {r = r} _) = OutcomeGrows-refl r
    handles-Grows (passes {r = r} _) = OutcomeGrows-refl r

    Finishes-Grows : {x : Expr} {r r' : Outcome} → Finishes required x r r' → OutcomeGrows r r'
    Finishes-Grows (no_finalizer {r = r} _) = OutcomeGrows-refl r
    Finishes-Grows stuck = tt
    Finishes-Grows (resumes x) = lit-Grows x
    Finishes-Grows (overrides x _) = lit-Grows x

    Loop-Grows :
        {cond : Expr} {post : Stmt} {body : Stmts} {σ : Initialized} {r : Outcome}
        → Loop required cond post body σ r
        → Grows σ r
    Loop-Grows (cond_faults _) = tt
    Loop-Grows (cond_fails _) = λ f m. m
    Loop-Grows (breaks_off body) = list-Grows body
    Loop-Grows (leaves body _) = list-Grows body
    Loop-Grows (post_faults body _ post) = tt
    Loop-Grows (iterates body _ post loop) =
        Grows-after _ _ _ (list-Grows body) (Grows-after _ _ _ (Exec-Grows post) (Loop-Grows loop))

    Ranged-Grows :
        {body : Stmts} {σ : Initialized} {r : Outcome} → Ranged required body σ r → Grows σ r
    Ranged-Grows exhausted = λ f m. m
    Ranged-Grows (range_breaks body) = list-Grows body
    Ranged-Grows (range_leaves body _) = list-Grows body
    Ranged-Grows (ranges_on body _ loop) = Grows-after _ _ _ (list-Grows body) (Ranged-Grows loop)

    Picks-Grows : {cs : Clauses} {σ : Initialized} {r : Outcome} → Picks required cs σ r → Grows σ r
    Picks-Grows (case_faults _) = tt
    Picks-Grows (picks c) = clause-Grows c
    Picks-Grows (picks_later p) = Picks-Grows p
    Picks-Grows (picks_past_default p) = Picks-Grows p

    clause-Grows :
        {cs : Clauses} {σ : Initialized} {r : Outcome} → RunsClause required cs σ r → Grows σ r
    clause-Grows (runs_case b) = body-Grows b
    clause-Grows (runs_default b) = body-Grows b

    body-Grows :
        {body : Stmts} {rest : Clauses} {σ : Initialized} {r : Outcome}
        → RunsBody required body rest σ r
        → Grows σ r
    body-Grows (clause_breaks body) = list-Grows body
    body-Grows (clause_ends body _) = list-Grows body
    body-Grows (clause_falls body c) = Grows-after _ _ _ (list-Grows body) (clause-Grows c)
