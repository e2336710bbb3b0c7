-- ===== src/Control/Leaves.antt =====
-- Proofs about `blockTerminates` of internal/compiler/control_flow.go, by induction on a run.
use ghi.Prelude.{
  String, ◌≡◌, refl, ◌⊎◌, inl, inr, Bool, true, false, List, Bool-cases, subst, sym, eq_iff, str_eq,
  if◌then◌else◌, &&-true,
}
use ghi.Syntax.{
  Expr, func_lit, ident, call, Exprs, more_exprs, Stmt, absent_stmt, if_stmt, labeled_stmt,
  inc_dec_stmt, send_stmt, go_stmt, defer_stmt, type_switch_stmt, select_stmt, Stmts, no_stmts,
  more_stmts, is_call, is_ident,
}
use ghi.Construction.Flow.{Initialized, Flow, falls, throws}
use ghi.Construction.Exits.{is_func_lit}
use ghi.Construction.Runs.{
  Outcome, ends, is_normal, is_thrown, is_opaque, plain_end, Exec, raises, assigns, assign_faults,
  expr, return, return_faults, branch, block, if_init, if_faults, if_then, if_else, for_init,
  for_loop, range_faults, range_loop, switch_init, switch_faults, switch_none, switch_picks,
  declares, declare_faults, skips, opaque_falls, opaque_exits, opaque_faults, ExecList, done, stops,
  goes_on, ExecExpr, plain, plain_faults, try, ExecLit, lit, Handles, catches, uncaught, passes,
  Finishes, no_finalizer, stuck, resumes, overrides,
}
use ghi.Construction.Cases.{lit-is_func_lit}
use ghi.Control.Terminates.{
  block_terminates, stmt_terminates, expr_terminates, try_terminates, finalizer_terminates,
  body_terminates, handler_terminates,
}

is_call-other :
    (x : Expr) (a b : String) → str_eq a b ≡ false → is_call x a ≡ true → is_call x b ≡ false
is_call-other (call (ident f) args) a b different h =
    subst (λ n. str_eq n b ≡ false) (sym ((eq_iff f a).0 h)) different
is_call-other _ a b different h = cc

plain_end-leaves :
    (x : Expr) (σ : Initialized)
    → is_call x "GhiTry" ≡ false
    → expr_terminates x ≡ true
    → is_normal (plain_end x σ) ≡ false
unfolding block_terminates
plain_end-leaves (call fun args) σ calm h = elim (Bool-cases (is_ident fun "GhiThrow")) [
  | inl throw ↦ rw (is_call-other (call fun args) "GhiThrow" "parent" refl throw, throw) refl
  | inr other ↦ elim (Bool-cases (is_ident fun "panic")) [
    | inl panics ↦
        rw (is_call-other (call fun args) "panic" "parent" refl panics, other, panics) refl
    | inr neither ↦ cc (rw (other, neither, calm) at h)
  ]
]
plain_end-leaves _ σ calm h = cc

either-true :
    (final tried handled : Bool)
    → (if final then true else if tried then handled else false) ≡ true
    → (final ≡ true) ⊎ ((tried ≡ true) × (handled ≡ true))
either-true true tried handled h = inl refl
either-true false true handled h = inr (refl, h)
either-true false false handled h = cc

-- What a terminating `GhiTry` needs of its parts.
try_terminates-parts :
    (body handler finalizer : Expr) (rest : Exprs)
    → try_terminates (more_exprs body (more_exprs handler (more_exprs finalizer rest))) ≡ true
    → (finalizer_terminates finalizer ≡ true)
      ⊎ ((body_terminates body ≡ true) × (handler_terminates handler ≡ true))
unfolding block_terminates
try_terminates-parts body handler finalizer rest h =
    either-true (finalizer_terminates finalizer) (body_terminates body) (handler_terminates handler)
      h

expr_terminates-try :
    (fun : Expr) (args : Exprs)
    → is_ident fun "GhiTry" ≡ true
    → expr_terminates (call fun args) ≡ true
    → try_terminates args ≡ true
unfolding block_terminates
expr_terminates-try fun args named h =
    rw
      (
        is_call-other (call fun args) "GhiTry" "GhiThrow" refl named,
        is_call-other (call fun args) "GhiTry" "panic" refl named,
        named,
      )
      at h

if_terminates-parts :
    (init other : Stmt) (cond : Expr) (body : Stmts)
    → stmt_terminates (if_stmt init cond body other) ≡ true
    → (block_terminates body ≡ true) × (stmt_terminates other ≡ true)
unfolding block_terminates
if_terminates-parts init absent_stmt cond body h = cc
if_terminates-parts init other cond body h =
    &&-true (block_terminates body) (stmt_terminates other) h

opaque-continues : (s : Stmt) → is_opaque s ≡ true → stmt_terminates s ≡ false
unfolding block_terminates
opaque-continues (labeled_stmt label s) o = refl
opaque-continues (inc_dec_stmt x) o = refl
opaque-continues (send_stmt chan value) o = refl
opaque-continues (go_stmt x) o = refl
opaque-continues (defer_stmt x) o = refl
opaque-continues (type_switch_stmt init assign body) o = refl
opaque-continues (select_stmt body) o = refl
opaque-continues _ o = cc

passes-leaves :
    (finalizer : Expr) (r : Outcome)
    → is_func_lit finalizer ≡ false
    → (finalizer_terminates finalizer ≡ true) ⊎ (is_normal r ≡ false)
    → is_normal r ≡ false
unfolding block_terminates
passes-leaves (func_lit params results body) r nil h = cc
passes-leaves _ r nil (inl h) = cc
passes-leaves _ r nil (inr h) = h

finalizer-body : (x : Expr) → finalizer_terminates x ≡ true → body_terminates x ≡ true
unfolding block_terminates
finalizer-body (func_lit params results body) h = h
finalizer-body _ h = cc

handler-body :
    (x : Expr) → is_func_lit x ≡ true → handler_terminates x ≡ true → body_terminates x ≡ true
unfolding block_terminates
handler-body (func_lit params results body) is_lit h = h
handler-body _ is_lit h = cc

thrown-leaves : (r : Outcome) → is_thrown r ≡ true → is_normal r ≡ false
thrown-leaves (ends throws σ) h = refl
thrown-leaves _ h = cc

is_normal-state :
    (flow : Flow) (σ σ' : Initialized)
    → is_normal (ends flow σ) ≡ false
    → is_normal (ends flow σ') ≡ false
is_normal-state falls σ σ' h = h
is_normal-state _ σ σ' h = refl

module _ (required : List String) where
  mutual
    unfolding block_terminates

    leaves-stmt :
        {s : Stmt} {σ : Initialized} {r : Outcome}
        → Exec required s σ r
        → stmt_terminates s ≡ true
        → is_normal r ≡ false
    leaves-stmt (raises sub) h = refl
    leaves-stmt (assign_faults bad) h = refl
    leaves-stmt assigns h = cc
    leaves-stmt (expr run) h = leaves-expr run h
    leaves-stmt return h = refl
    leaves-stmt (return_faults bad) h = refl
    leaves-stmt branch h = cc
    leaves-stmt (block run) h = leaves-list run h
    leaves-stmt (if_init run abrupt) h = abrupt
    leaves-stmt (if_faults run bad) h = refl
    leaves-stmt (if_then {init} {other} {cond} {body} first run) h =
        leaves-list run (if_terminates-parts init other cond body h).0
    leaves-stmt (if_else {init} {other} {cond} {body} first run) h =
        leaves-stmt run (if_terminates-parts init other cond body h).1
    leaves-stmt (for_init run abrupt) h = abrupt
    leaves-stmt (for_loop run loop) h = cc
    leaves-stmt (range_faults bad) h = refl
    leaves-stmt (range_loop loop) h = cc
    leaves-stmt (switch_init run abrupt) h = abrupt
    leaves-stmt (switch_faults run bad) h = refl
    leaves-stmt (switch_none run none) h = cc
    leaves-stmt (switch_picks run picked) h = cc
    leaves-stmt declares h = cc
    leaves-stmt (declare_faults bad) h = refl
    leaves-stmt skips h = cc
    leaves-stmt (opaque_falls {s} o sub) h = absurd (cc (opaque-continues s o))
    leaves-stmt (opaque_exits {s} o exits sub) h = absurd (cc (opaque-continues s o))
    leaves-stmt (opaque_faults o bad) h = refl

    pub leaves-list :
        {ss : Stmts} {σ : Initialized} {r : Outcome}
        → ExecList required ss σ r
        → block_terminates ss ≡ true
        → is_normal r ≡ false
    leaves-list done h = cc
    leaves-list (stops run abrupt) h = abrupt
    leaves-list (goes_on {s} {ss = no_stmts} run done) h = leaves-stmt run h
    leaves-list (goes_on {s} {ss = more_stmts t rest} run later) h = leaves-list later h

    leaves-expr :
        {x : Expr} {σ : Initialized} {r : Outcome}
        → ExecExpr required x σ r
        → expr_terminates x ≡ true
        → is_normal r ≡ false
    leaves-expr (plain {x} {σ} calm) h = plain_end-leaves x σ calm h
    leaves-expr (plain_faults calm bad) h = refl
    leaves-expr (try {fun} {body} {handler} {finalizer} {rest} {σ} {r} {r'} {r''} named b c f) h =
        elim (try_terminates-parts body handler finalizer rest (
          expr_terminates-try fun (more_exprs body (more_exprs handler (more_exprs finalizer rest)))
            named h)) [
              | inl final ↦ leaves-finalizer f (inl final)
              | inr (tried, handled) ↦
                  leaves-finalizer f (inr (leaves-handler c handled (leaves-lit b tried)))
            ]

    leaves-lit :
        {x : Expr} {σ : Initialized} {r : Outcome}
        → ExecLit required x σ r
        → body_terminates x ≡ true
        → is_normal r ≡ false
    leaves-lit (lit run) h = leaves-list run h

    leaves-handler :
        {x : Expr} {r r' : Outcome}
        → Handles required x r r'
        → handler_terminates x ≡ true
        → is_normal r ≡ false
        → is_normal r' ≡ false
    leaves-handler (catches {handler} run) h left =
        leaves-lit run (handler-body handler (lit-is_func_lit run) h)
    leaves-handler (uncaught nil) h left = left
    leaves-handler (passes calm) h left = left

    leaves-finalizer :
        {x : Expr} {r r' : Outcome}
        → Finishes required x r r'
        → (finalizer_terminates x ≡ true) ⊎ (is_normal r ≡ false)
        → is_normal r' ≡ false
    leaves-finalizer (no_finalizer {finalizer} {r} nil) h = passes-leaves finalizer r nil h
    leaves-finalizer stuck h = refl
    leaves-finalizer (resumes {finalizer} {flow} {σ} {σ'} run) (inl final) =
        absurd (cc (leaves-lit run (finalizer-body finalizer final)))
    leaves-finalizer (resumes {finalizer} {flow} {σ} {σ'} run) (inr left) =
        is_normal-state flow σ σ' left
    leaves-finalizer (overrides run abrupt) h = abrupt

-- If `blockTerminates` accepts a body, no run of it, from any state, falls off the end: it returns,
-- throws, jumps, or reads an unset field.
pub block_terminates-leaves :
    (required : List String) (body : Stmts) (σ : Initialized) (r : Outcome)
    → block_terminates body ≡ true
    → ExecList required body σ r
    → is_normal r ≡ false
block_terminates-leaves required body σ r h run = leaves-list required run h
