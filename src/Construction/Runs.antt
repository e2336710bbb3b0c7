-- ===== src/Construction/Runs.antt =====
-- What a constructor's body does when it runs, as a relation between the fields that are set
-- before and the outcome. It is independent of the check. Conditions may go either way, every
-- statement may throw with more fields set, and evaluating an expression may read every `this.f`
-- in it. A `goto` or a `fallthrough` out of a loop has no outcome: the first is rejected by the
-- check, the second by Go.
use ghi.Prelude.{
  String, ◌≡◌, Bool, true, false, ◌||◌, List, [], ◌∷◌, ◌++◌, Option, some, contains, str_eq,
  if◌then◌else◌,
}
use ghi.Syntax.{
  Expr, func_lit, call, Exprs, no_exprs, more_exprs, Stmt, absent_stmt, assign_stmt, expr_stmt,
  return_stmt, branch_stmt, block_stmt, if_stmt, for_stmt, range_stmt, switch_stmt, decl_stmt,
  labeled_stmt, inc_dec_stmt, send_stmt, go_stmt, defer_stmt, type_switch_stmt, select_stmt, Stmts,
  no_stmts, more_stmts, Clauses, no_clauses, case_clause, default_clause, Comms, no_comms,
  comm_clause, Specs, no_specs, value_spec, type_spec, Token, BranchToken, is_ident, is_call,
}
use ghi.Construction.Visit.{
  Visit, this_field, parent_method, this_itself, this_field_of, visit, visit_exprs, visit_stmt,
}
use ghi.Construction.Flow.{
  Initialized, Flow, falls, throws, returns, breaks, continues, falls_through,
}
use ghi.Construction.Exits.{branch_flow, is_assign, is_infinite, has_default, is_func_lit}

-- Every name set in `a` is set in `b`.
abbrev pub Sub : Initialized → Initialized → Type 0
Sub a b = (f : String) → contains a f ≡ true → contains b f ≡ true

pub data Outcome : Type 0 where
  ends : Flow → Initialized → Outcome
  faults : Outcome

abbrev pub reads : List Visit → String → Bool
reads [] f = false
reads (this_field g ∷ vs) f = str_eq g f || reads vs f
reads (parent_method m ∷ vs) f = reads vs f
reads (this_itself ∷ vs) f = reads vs f

-- A required field is read that is not set.
abbrev pub Faults : List String → List Visit → Initialized → Type 0
Faults required vs σ =
    (f : String) × (reads vs f ≡ true) × (contains required f ≡ true) × (contains σ f ≡ false)

-- What Go evaluates of the targets of an assignment before it assigns.
abbrev pub target_visit : Bool → Option String → Expr → List Visit
target_visit true (some name) x = []
target_visit _ _ x = visit x

abbrev pub target_visits : Exprs → Token → List Visit
target_visits no_exprs tok = []
target_visits (more_exprs x xs) tok =
    target_visit (is_assign tok) (this_field_of x) x ++ target_visits xs tok

-- The fields that a plain assignment sets.
abbrev pub set_field : Bool → Option String → Initialized → Initialized
set_field true (some name) σ = name ∷ σ
set_field _ _ σ = σ

abbrev pub assign_one : Expr → Token → Initialized → Initialized
assign_one x tok σ = set_field (is_assign tok) (this_field_of x) σ

abbrev pub assigned : Exprs → Token → Initialized → Initialized
assigned no_exprs tok σ = σ
assigned (more_exprs x xs) tok σ = assigned xs tok (assign_one x tok σ)

abbrev pub value_visits : Specs → List Visit
value_visits no_specs = []
value_visits (value_spec names type values rest) = visit_exprs values ++ value_visits rest
value_visits (type_spec name type rest) = value_visits rest

-- The statements that the check does not take apart.
abbrev pub is_opaque : Stmt → Bool
is_opaque (labeled_stmt label s) = true
is_opaque (inc_dec_stmt x) = true
is_opaque (send_stmt chan value) = true
is_opaque (go_stmt x) = true
is_opaque (defer_stmt x) = true
is_opaque (type_switch_stmt init assign body) = true
is_opaque (select_stmt body) = true
is_opaque _ = false

-- Whether a `return` or a jump stands somewhere in a statement.
unfoldable mutual
  pub exits_inside : Stmt → Bool
  exits_inside (return_stmt results) = true
  exits_inside (branch_stmt tok label) = true
  exits_inside (expr_stmt x) = expr_exits x
  exits_inside (block_stmt body) = list_exits body
  exits_inside (if_stmt init cond body other) =
      exits_inside init || list_exits body || exits_inside other
  exits_inside (for_stmt init cond post body) = list_exits body
  exits_inside (range_stmt key value x body) = list_exits body
  exits_inside (switch_stmt init tag body) = clause_exits body
  exits_inside (labeled_stmt label s) = exits_inside s
  exits_inside (type_switch_stmt init assign body) = clause_exits body
  exits_inside (select_stmt body) = comm_exits body
  exits_inside _ = false

  expr_exits : Expr → Bool
  expr_exits (call fun args) =
      let inside = args_exit args in if is_ident fun "GhiTry" then inside else false
  expr_exits _ = false

  args_exit : Exprs → Bool
  args_exit no_exprs = false
  args_exit (more_exprs x xs) = lit_exits x || args_exit xs

  lit_exits : Expr → Bool
  lit_exits (func_lit params results body) = list_exits body
  lit_exits _ = false

  list_exits : Stmts → Bool
  list_exits no_stmts = false
  list_exits (more_stmts s ss) = exits_inside s || list_exits ss

  clause_exits : Clauses → Bool
  clause_exits no_clauses = false
  clause_exits (case_clause list body rest) = list_exits body || clause_exits rest
  clause_exits (default_clause body rest) = list_exits body || clause_exits rest

  comm_exits : Comms → Bool
  comm_exits no_comms = false
  comm_exits (comm_clause comm body rest) = list_exits body || comm_exits rest

abbrev pub is_normal : Outcome → Bool
is_normal (ends falls σ) = true
is_normal _ = false

abbrev pub is_thrown : Outcome → Bool
is_thrown (ends throws σ) = true
is_thrown _ = false

-- What leaves a loop whose body ends so, other than a break.
abbrev pub leaves_loop : Outcome → Bool
leaves_loop (ends returns σ) = true
leaves_loop (ends throws σ) = true
leaves_loop faults = true
leaves_loop _ = false

abbrev pub is_next : Flow → Bool
is_next falls = true
is_next continues = true
is_next _ = false

-- What leaves a switch whose clause ends so, other than a break.
abbrev pub leaves_clause : Outcome → Bool
leaves_clause (ends breaks σ) = false
leaves_clause (ends falls_through σ) = false
leaves_clause _ = true

-- The outcome of an expression statement that does not throw by itself.
abbrev pub plain_end : Expr → Initialized → Outcome
plain_end x σ =
    if is_call x "parent"
    then ends falls ("@parent" ∷ σ)
    else if is_call x "GhiThrow"
    then ends throws σ
    else if is_call x "panic"
    then ends throws σ
    else ends falls σ

mutual
  pub data Exec (required : List String) : Stmt → Initialized → Outcome → Type 0 where
    raises : {s : Stmt} {σ σ' : Initialized} → Sub σ σ' → Exec required s σ (ends throws σ')
    assigns :
        {lhs rhs : Exprs} {tok : Token} {σ : Initialized}
        → Exec required (assign_stmt lhs tok rhs) σ (ends falls (assigned lhs tok σ))
    assign_faults :
        {lhs rhs : Exprs} {tok : Token} {σ : Initialized}
        → Faults required (visit_exprs rhs ++ target_visits lhs tok) σ
        → Exec required (assign_stmt lhs tok rhs) σ faults
    expr :
        {x : Expr} {σ : Initialized} {r : Outcome}
        → ExecExpr required x σ r
        → Exec required (expr_stmt x) σ r
    return :
        {results : Exprs} {σ : Initialized} → Exec required (return_stmt results) σ (ends returns σ)
    return_faults :
        {results : Exprs} {σ : Initialized}
        → Faults required (visit_exprs results) σ
        → Exec required (return_stmt results) σ faults
    branch :
        {tok : BranchToken} {label : Option String} {σ : Initialized}
        → Exec required (branch_stmt tok label) σ (ends (branch_flow tok) σ)
    block :
        {body : Stmts} {σ : Initialized} {r : Outcome}
        → ExecList required body σ r
        → Exec required (block_stmt body) σ r
    if_init :
        {init other : Stmt} {cond : Expr} {body : Stmts} {σ : Initialized} {r : Outcome}
        → Exec required init σ r
        → is_normal r ≡ false
        → Exec required (if_stmt init cond body other) σ r
    if_faults :
        {init other : Stmt} {cond : Expr} {body : Stmts} {σ σ' : Initialized}
        → Exec required init σ (ends falls σ')
        → Faults required (visit cond) σ'
        → Exec required (if_stmt init cond body other) σ faults
    if_then :
        {init other : Stmt} {cond : Expr} {body : Stmts} {σ σ' : Initialized} {r : Outcome}
        → Exec required init σ (ends falls σ')
        → ExecList required body σ' r
        → Exec required (if_stmt init cond body other) σ r
    if_else :
        {init other : Stmt} {cond : Expr} {body : Stmts} {σ σ' : Initialized} {r : Outcome}
        → Exec required init σ (ends falls σ')
        → Exec required other σ' r
        → Exec required (if_stmt init cond body other) σ r
    for_init :
        {init post : Stmt} {cond : Expr} {body : Stmts} {σ : Initialized} {r : Outcome}
        → Exec required init σ r
        → is_normal r ≡ false
        → Exec required (for_stmt init cond post body) σ r
    for_loop :
        {init post : Stmt} {cond : Expr} {body : Stmts} {σ σ' : Initialized} {r : Outcome}
        → Exec required init σ (ends falls σ')
        → Loop required cond post body σ' r
        → Exec required (for_stmt init cond post body) σ r
    range_faults :
        {key value x : Expr} {body : Stmts} {σ : Initialized}
        → Faults required (visit key ++ visit value ++ visit x) σ
        → Exec required (range_stmt key value x body) σ faults
    range_loop :
        {key value x : Expr} {body : Stmts} {σ : Initialized} {r : Outcome}
        → Ranged required body σ r
        → Exec required (range_stmt key value x body) σ r
    switch_init :
        {init : Stmt} {tag : Expr} {body : Clauses} {σ : Initialized} {r : Outcome}
        → Exec required init σ r
        → is_normal r ≡ false
        → Exec required (switch_stmt init tag body) σ r
    switch_faults :
        {init : Stmt} {tag : Expr} {body : Clauses} {σ σ' : Initialized}
        → Exec required init σ (ends falls σ')
        → Faults required (visit tag) σ'
        → Exec required (switch_stmt init tag body) σ faults
    switch_none :
        {init : Stmt} {tag : Expr} {body : Clauses} {σ σ' : Initialized}
        → Exec required init σ (ends falls σ')
        → has_default body ≡ false
        → Exec required (switch_stmt init tag body) σ (ends falls σ')
    switch_picks :
        {init : Stmt} {tag : Expr} {body : Clauses} {σ σ' : Initialized} {r : Outcome}
        → Exec required init σ (ends falls σ')
        → Picks required body σ' r
        → Exec required (switch_stmt init tag body) σ r
    declares : {specs : Specs} {σ : Initialized} → Exec required (decl_stmt specs) σ (ends falls σ)
    declare_faults :
        {specs : Specs} {σ : Initialized}
        → Faults required (value_visits specs) σ
        → Exec required (decl_stmt specs) σ faults
    skips : {σ : Initialized} → Exec required absent_stmt σ (ends falls σ)
    opaque_falls :
        {s : Stmt} {σ σ' : Initialized}
        → is_opaque s ≡ true
        → Sub σ σ'
        → Exec required s σ (ends falls σ')
    opaque_exits :
        {s : Stmt} {σ σ' : Initialized} {flow : Flow}
        → is_opaque s ≡ true
        → exits_inside s ≡ true
        → Sub σ σ'
        → Exec required s σ (ends flow σ')
    opaque_faults :
        {s : Stmt} {σ : Initialized}
        → is_opaque s ≡ true
        → Faults required (visit_stmt s) σ
        → Exec required s σ faults

  pub data ExecList (required : List String) : Stmts → Initialized → Outcome → Type 0 where
    done : {σ : Initialized} → ExecList required no_stmts σ (ends falls σ)
    stops :
        {s : Stmt} {ss : Stmts} {σ : Initialized} {r : Outcome}
        → Exec required s σ r
        → is_normal r ≡ false
        → ExecList required (more_stmts s ss) σ r
    goes_on :
        {s : Stmt} {ss : Stmts} {σ σ' : Initialized} {r : Outcome}
        → Exec required s σ (ends falls σ')
        → ExecList required ss σ' r
        → ExecList required (more_stmts s ss) σ r

  pub data ExecExpr (required : List String) : Expr → Initialized → Outcome → Type 0 where
    plain :
        {x : Expr} {σ : Initialized}
        → is_call x "GhiTry" ≡ false
        → ExecExpr required x σ (plain_end x σ)
    plain_faults :
        {x : Expr} {σ : Initialized}
        → is_call x "GhiTry" ≡ false
        → Faults required (visit x) σ
        → ExecExpr required x σ faults
    try :
        {fun body handler finalizer : Expr} {rest : Exprs} {σ : Initialized} {r r' r'' : Outcome}
        → is_ident fun "GhiTry" ≡ true
        → ExecLit required body σ r
        → Handles required handler r r'
        → Finishes required finalizer r' r''
        → ExecExpr required
            (call fun (more_exprs body (more_exprs handler (more_exprs finalizer rest))))
            σ
            r''

  pub data ExecLit (required : List String) : Expr → Initialized → Outcome → Type 0 where
    lit :
        {params results : ghi.Syntax.Fields} {body : Stmts} {σ : Initialized} {r : Outcome}
        → ExecList required body σ r
        → ExecLit required (func_lit params results body) σ r

  -- The handler runs if the body threw.
  pub data Handles (required : List String) : Expr → Outcome → Outcome → Type 0 where
    catches :
        {handler : Expr} {σ : Initialized} {r : Outcome}
        → ExecLit required handler σ r
        → Handles required handler (ends throws σ) r
    uncaught :
        {handler : Expr} {r : Outcome} → is_func_lit handler ≡ false → Handles required handler r r
    passes : {handler : Expr} {r : Outcome} → is_thrown r ≡ false → Handles required handler r r

  -- The finalizer runs on every outcome, and overrides it unless it ends normally.
  pub data Finishes (required : List String) : Expr → Outcome → Outcome → Type 0 where
    no_finalizer :
        {finalizer : Expr} {r : Outcome}
        → is_func_lit finalizer ≡ false
        → Finishes required finalizer r r
    stuck : {finalizer : Expr} → Finishes required finalizer faults faults
    resumes :
        {finalizer : Expr} {flow : Flow} {σ σ' : Initialized}
        → ExecLit required finalizer σ (ends falls σ')
        → Finishes required finalizer (ends flow σ) (ends flow σ')
    overrides :
        {finalizer : Expr} {flow : Flow} {σ : Initialized} {r : Outcome}
        → ExecLit required finalizer σ r
        → is_normal r ≡ false
        → Finishes required finalizer (ends flow σ) r

  pub data Loop (required : List String)
      : Expr → Stmt → Stmts → Initialized → Outcome → Type 0 where
    cond_faults :
        {cond : Expr} {post : Stmt} {body : Stmts} {σ : Initialized}
        → Faults required (visit cond) σ
        → Loop required cond post body σ faults
    cond_fails :
        {cond : Expr} {post : Stmt} {body : Stmts} {σ : Initialized}
        → is_infinite cond ≡ false
        → Loop required cond post body σ (ends falls σ)
    breaks_off :
        {cond : Expr} {post : Stmt} {body : Stmts} {σ σ' : Initialized}
        → ExecList required body σ (ends breaks σ')
        → Loop required cond post body σ (ends falls σ')
    leaves :
        {cond : Expr} {post : Stmt} {body : Stmts} {σ : Initialized} {r : Outcome}
        → ExecList required body σ r
        → leaves_loop r ≡ true
        → Loop required cond post body σ r
    post_faults :
        {cond : Expr} {post : Stmt} {body : Stmts} {σ σ' : Initialized} {flow : Flow}
        → ExecList required body σ (ends flow σ')
        → is_next flow ≡ true
        → Exec required post σ' faults
        → Loop required cond post body σ faults
    iterates :
        {cond : Expr} {post : Stmt} {body : Stmts} {σ σ' σ'' : Initialized} {flow : Flow}
        {r : Outcome}
        → ExecList required body σ (ends flow σ')
        → is_next flow ≡ true
        → Exec required post σ' (ends falls σ'')
        → Loop required cond post body σ'' r
        → Loop required cond post body σ r

  pub data Ranged (required : List String) : Stmts → Initialized → Outcome → Type 0 where
    exhausted : {body : Stmts} {σ : Initialized} → Ranged required body σ (ends falls σ)
    range_breaks :
        {body : Stmts} {σ σ' : Initialized}
        → ExecList required body σ (ends breaks σ')
        → Ranged required body σ (ends falls σ')
    range_leaves :
        {body : Stmts} {σ : Initialized} {r : Outcome}
        → ExecList required body σ r
        → leaves_loop r ≡ true
        → Ranged required body σ r
    ranges_on :
        {body : Stmts} {σ σ' : Initialized} {flow : Flow} {r : Outcome}
        → ExecList required body σ (ends flow σ')
        → is_next flow ≡ true
        → Ranged required body σ' r
        → Ranged required body σ r

  -- The clause that a switch picks.
  pub data Picks (required : List String) : Clauses → Initialized → Outcome → Type 0 where
    case_faults :
        {list : Exprs} {body : Stmts} {rest : Clauses} {σ : Initialized}
        → Faults required (visit_exprs list) σ
        → Picks required (case_clause list body rest) σ faults
    picks :
        {cs : Clauses} {σ : Initialized} {r : Outcome}
        → RunsClause required cs σ r
        → Picks required cs σ r
    picks_later :
        {list : Exprs} {body : Stmts} {rest : Clauses} {σ : Initialized} {r : Outcome}
        → Picks required rest σ r
        → Picks required (case_clause list body rest) σ r
    picks_past_default :
        {body : Stmts} {rest : Clauses} {σ : Initialized} {r : Outcome}
        → Picks required rest σ r
        → Picks required (default_clause body rest) σ r

  -- The first clause runs, and those that it falls through to.
  pub data RunsClause (required : List String) : Clauses → Initialized → Outcome → Type 0 where
    runs_case :
        {list : Exprs} {body : Stmts} {rest : Clauses} {σ : Initialized} {r : Outcome}
        → RunsBody required body rest σ r
        → RunsClause required (case_clause list body rest) σ r
    runs_default :
        {body : Stmts} {rest : Clauses} {σ : Initialized} {r : Outcome}
        → RunsBody required body rest σ r
        → RunsClause required (default_clause body rest) σ r

  pub data RunsBody (required : List String)
      : Stmts → Clauses → Initialized → Outcome → Type 0 where
    clause_breaks :
        {body : Stmts} {rest : Clauses} {σ σ' : Initialized}
        → ExecList required body σ (ends breaks σ')
        → RunsBody required body rest σ (ends falls σ')
    clause_ends :
        {body : Stmts} {rest : Clauses} {σ : Initialized} {r : Outcome}
        → ExecList required body σ r
        → leaves_clause r ≡ true
        → RunsBody required body rest σ r
    clause_falls :
        {body : Stmts} {rest : Clauses} {σ σ' : Initialized} {r : Outcome}
        → ExecList required body σ (ends falls_through σ')
        → RunsClause required rest σ' r
        → RunsBody required body rest σ r
