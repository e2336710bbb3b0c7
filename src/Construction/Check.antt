-- ===== src/Construction/Check.antt =====
-- internal/compiler/construction_flow.go: `paths`, `step` and `tryPaths`; and the check of one
-- class in construction.go.
use ghi.Prelude.{String, ◌||◌, List, [], ◌∷◌, ◌++◌, if◌then◌else◌, contains, str_eq}
use ghi.Syntax.{
  Expr, func_lit, call, Exprs, no_exprs, more_exprs, Stmt, absent_stmt, assign_stmt, expr_stmt,
  return_stmt, branch_stmt, block_stmt, if_stmt, for_stmt, range_stmt, switch_stmt, decl_stmt,
  Stmts, no_stmts, more_stmts, Clauses, no_clauses, case_clause, default_clause, is_ident,
}
use ghi.Construction.Flow.{
  Initialized, falls, returns, flow_eq, Exit, Reason, parent_not_run, not_initialized,
  malformed_try, Checked, merge_exits,
}
use ghi.Construction.Exits.{
  at, one, merged, after_errors, each, branch_flow, branch_errors, has_default, is_func_lit,
  handled, finished,
}
use ghi.Construction.Steps.{
  read_exprs, assign_targets, read_specs, plain_step, inspect_step, if_step, for_step, range_step,
  clause_step, switch_step,
}

module _ (fields required : List String) where
  unfoldable mutual
    unfolding each assign_targets read_specs read_exprs plain_step inspect_step if_step for_step
        range_step clause_step switch_step handled finished

    pub step : Stmt → Initialized → Checked
    step (assign_stmt lhs tok rhs) state =
        after_errors (read_exprs fields required rhs state)
          (assign_targets fields required lhs tok state)
    step (expr_stmt x) state = expr_step x state
    step (return_stmt results) state = one state returns (read_exprs fields required results state)
    step (branch_stmt tok label) state = one state (branch_flow tok) (branch_errors tok label)
    step (block_stmt body) state = paths body (at state falls ∷ [])
    step (if_stmt init cond body other) state =
        let c = step init state in
        merged (
          after_errors c.errors
            (each (if_step fields required cond (paths body) (step other)) c.exits))
    step (for_stmt init cond post body) state =
        let c = step init state in
        merged (
          after_errors c.errors
            (each (for_step fields required cond (paths body) (step post)) c.exits))
    step (range_stmt key value x body) state = range_step fields required x (paths body) state
    step (switch_stmt init tag body) state =
        let c = step init state in
        merged (
          after_errors c.errors
            (each (switch_step fields required tag (has_default body) (clauses body)) c.exits))
    step (decl_stmt specs) state = one state falls (read_specs fields required specs state)
    step absent_stmt state = one state falls []
    step s state = inspect_step fields required s state

    pub paths : Stmts → List Exit → Checked
    paths no_stmts exits = record { exits = exits; errors = [] }
    paths (more_stmts s ss) exits =
        let c = each (step s) exits in after_errors c.errors (paths ss (merge_exits c.exits))

    pub clauses : Clauses → List Exit → Initialized → Checked
    clauses no_clauses fallen state = record { exits = []; errors = [] }
    clauses (case_clause list body rest) fallen state =
        clause_step fields required list (paths body) (λ f. clauses rest f state) fallen state
    clauses (default_clause body rest) fallen state =
        clause_step fields required no_exprs (paths body) (λ f. clauses rest f state) fallen state

    pub expr_step : Expr → Initialized → Checked
    expr_step (call fun args) state =
        let tried = try_paths args state in
        if is_ident fun "GhiTry" then tried else plain_step fields required (call fun args) state
    expr_step x state = plain_step fields required x state

    pub try_paths : Exprs → Initialized → Checked
    try_paths (more_exprs body (more_exprs handler (more_exprs finalizer rest))) state =
        finished (is_func_lit finalizer) (lit_paths finalizer) (
          handled (is_func_lit handler) (is_func_lit finalizer) state
            (lit_paths body (at state falls ∷ [])) (lit_paths handler (at state falls ∷ [])))
    try_paths _ state = record { exits = []; errors = malformed_try ∷ [] }

    pub lit_paths : Expr → List Exit → Checked
    lit_paths (func_lit params results body) exits = paths body exits
    lit_paths _ exits = record { exits = []; errors = malformed_try ∷ [] }

  -- `complete`, on one exit and on all of them. The source goes through the map in any order.
  unfoldable pub complete : (names : List String) → Initialized → List Reason
  complete [] state = []
  complete (name ∷ names) state =
      (if contains state name
        then []
        else if str_eq name "@parent"
        then parent_not_run ∷ []
        else not_initialized name ∷ [])
      ++ complete names state

  unfoldable pub complete_exits : List Exit → List Reason
  unfolding complete
  complete_exits [] = []
  complete_exits (e ∷ exits) =
      (if flow_eq e.flow falls || flow_eq e.flow returns then complete required e.state else [])
      ++ complete_exits exits

  -- The check of a constructor's body: `check.err` is the first error of the list.
  unfoldable pub check_body : Stmts → List Reason
  unfolding step complete_exits
  check_body body = let c = paths body (at [] falls ∷ []) in c.errors ++ complete_exits c.exits
