-- ===== src/Construction/Lowered.antt =====
-- The shape of a constructor's body that the proofs about internal/compiler/construction_flow.go
-- take: a catch chain as internal/compiler/exception_parse.go writes it, which ends by throwing the
-- exception again; a `range` over plain names; targets of an assignment of several values that read
-- nothing; no labelled statement, type switch or select that holds a return or a jump.
use ghi.Prelude.{String, ◌≡◌, refl, inl, true, false, List, [], ◌∷◌, arith, eq_iff}
use ghi.Syntax.{
  Expr, func_lit, call, Exprs, no_exprs, more_exprs, Stmt, assign_stmt, expr_stmt, block_stmt,
  if_stmt, for_stmt, range_stmt, switch_stmt, labeled_stmt, type_switch_stmt, select_stmt, Stmts,
  no_stmts, more_stmts, Clauses, no_clauses, case_clause, default_clause, Token, define_token,
  is_ident,
}
use ghi.Construction.Visit.{visit}
use ghi.Construction.Flow.{Initialized, falls, throws}
use ghi.Construction.Exits.{at, each, is_func_lit}
use ghi.Construction.Steps.{assign_targets, if_step, plain_step}
use ghi.Construction.Check.{step, expr_step, lit_paths}
use ghi.Construction.Runs.{Sub, target_visits, exits_inside}
use ghi.Construction.Covers.{Covers, Covers-left, Covers-right, merge_exits-Covers}

-- The statement `if e, ok := caught.(T); ok {…} else …` with a throw at the end.
abbrev pub Rethrows : Stmt → Type 0
Rethrows (if_stmt (assign_stmt lhs define_token rhs) cond body other) = Rethrows other
Rethrows (block_stmt (more_stmts (expr_stmt (call fun args)) no_stmts)) =
    is_ident fun "GhiThrow" ≡ true
Rethrows _ = ⊥

abbrev pub HandlerRethrows : Expr → Type 0
HandlerRethrows (func_lit params results (more_stmts s no_stmts)) = Rethrows s
HandlerRethrows (func_lit params results body) = ⊥
HandlerRethrows _ = Unit

-- One target, or targets that read nothing before the assignment.
abbrev pub SimpleTargets : Exprs → Token → Type 0
SimpleTargets no_exprs tok = Unit
SimpleTargets (more_exprs x no_exprs) tok = Unit
SimpleTargets xs tok = target_visits xs tok ≡ []

unfoldable mutual
  pub IsLowered : Stmt → Type 0
  IsLowered (assign_stmt lhs tok rhs) = SimpleTargets lhs tok
  IsLowered (expr_stmt x) = IsLoweredExpr x
  IsLowered (block_stmt body) = IsLoweredList body
  IsLowered (if_stmt init cond body other) = IsLowered init × IsLoweredList body × IsLowered other
  IsLowered (for_stmt init cond post body) = IsLowered init × IsLowered post × IsLoweredList body
  IsLowered (range_stmt key value x body) =
      (visit key ≡ []) × (visit value ≡ []) × IsLoweredList body
  IsLowered (switch_stmt init tag body) = IsLowered init × IsLoweredClauses body
  IsLowered (labeled_stmt label s) = exits_inside (labeled_stmt label s) ≡ false
  IsLowered (type_switch_stmt init assign body) =
      exits_inside (type_switch_stmt init assign body) ≡ false
  IsLowered (select_stmt body) = exits_inside (select_stmt body) ≡ false
  IsLowered _ = Unit

  pub IsLoweredList : Stmts → Type 0
  IsLoweredList no_stmts = Unit
  IsLoweredList (more_stmts s ss) = IsLowered s × IsLoweredList ss

  pub IsLoweredClauses : Clauses → Type 0
  IsLoweredClauses no_clauses = Unit
  IsLoweredClauses (case_clause list body rest) = IsLoweredList body × IsLoweredClauses rest
  IsLoweredClauses (default_clause body rest) = IsLoweredList body × IsLoweredClauses rest

  pub IsLoweredExpr : Expr → Type 0
  IsLoweredExpr (call fun args) =
      let inside = IsLoweredArgs args in
      elim (is_ident fun "GhiTry") [ true ↦ inside | false ↦ Unit ]
  IsLoweredExpr _ = Unit

  pub IsLoweredArgs : Exprs → Type 0
  IsLoweredArgs (more_exprs body (more_exprs handler (more_exprs finalizer rest))) =
      IsLoweredLit body × IsLoweredLit handler × HandlerRethrows handler × IsLoweredLit finalizer
  IsLoweredArgs _ = Unit

  pub IsLoweredLit : Expr → Type 0
  IsLoweredLit (func_lit params results body) = IsLoweredList body
  IsLoweredLit _ = Unit

assign_targets-define :
    (fields required : List String) (lhs : Exprs) (st : Initialized)
    → (assign_targets fields required lhs define_token st).exits ≡ at st falls ∷ []
unfolding assign_targets
assign_targets-define fields required no_exprs st = refl
assign_targets-define fields required (more_exprs x xs) st =
    ground (arith, assign_targets-define fields required xs st)

throw_only :
    (fun : Expr)
    → is_ident fun "GhiThrow" ≡ true
    → (is_ident fun "GhiTry" ≡ false) × (is_ident fun "parent" ≡ false)
throw_only (Expr.ident name) h = let e = (eq_iff name "GhiThrow").0 h in (rw e, rw e)
throw_only _ h = cc

throw-exits :
    (fields required : List String) (fun : Expr) (args : Exprs) (st : Initialized)
    → is_ident fun "GhiThrow" ≡ true
    → (expr_step fields required (call fun args) st).exits ≡ at st throws ∷ []
unfolding step plain_step
throw-exits fields required fun args st h =
    let (tried, parent) = throw_only fun h in rw (tried, parent, h)

-- A chain that ends by throwing again has an exit that throws with nothing more set.
rethrow :
    (fields required : List String) (s : Stmt) (st σ : Initialized)
    → Rethrows s
    → Sub st σ
    → Covers (step fields required s st).exits throws σ
unfolding step each if_step
rethrow fields required (if_stmt (assign_stmt lhs define_token rhs) cond body other) st σ h sub =
    merge_exits-Covers _ throws σ (
      rw (assign_targets-define fields required lhs st) (
        Covers-left _ [] throws σ
          (Covers-right _ _ throws σ (rethrow fields required other st σ h sub))))
rethrow fields required (block_stmt (more_stmts (expr_stmt (call fun args)) no_stmts)) st σ h sub =
    merge_exits-Covers _ throws σ
      (Covers-left _ [] throws σ (rw (throw-exits fields required fun args st h) (inl (refl, sub))))
rethrow fields required _ st σ h sub = absurd h

pub handler-rethrows :
    (fields required : List String) (handler : Expr) (st σ : Initialized)
    → HandlerRethrows handler
    → is_func_lit handler ≡ true
    → Sub st σ
    → Covers (lit_paths fields required handler (at st falls ∷ [])).exits throws σ
unfolding step each
handler-rethrows fields required (func_lit params results (more_stmts s no_stmts)) st σ h lit sub =
    merge_exits-Covers _ throws σ (Covers-left _ [] throws σ (rethrow fields required s st σ h sub))
handler-rethrows fields required (func_lit params results no_stmts) st σ h lit sub = absurd h
handler-rethrows fields required (func_lit params results (more_stmts s (more_stmts t ss))) st σ h
      lit sub =
    absurd h
handler-rethrows fields required _ st σ h lit sub = absurd (cc)
