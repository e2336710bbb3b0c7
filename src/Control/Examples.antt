-- ===== src/Control/Examples.antt =====
-- A body whose last statement is a `try` with a terminating handler.
use ghi.Prelude.{◌≡◌, refl, true, false, []}
use ghi.Syntax.{
  Expr, ident, func_lit, call, no_exprs, more_exprs, no_fields, Stmt, expr_stmt, return_stmt, Stmts,
  no_stmts, more_stmts,
}
use ghi.Construction.Flow.{returns}
use ghi.Construction.Runs.{
  ends, ExecList, is_normal, stops, expr, plain, try, lit, catches, return, no_finalizer,
}
use ghi.Control.Terminates.{block_terminates}
use ghi.Control.Leaves.{block_terminates-leaves}

abbrev raise : Stmt
raise = expr_stmt (call (ident "GhiThrow") (more_exprs (ident "e") no_exprs))

abbrev one_stmt : Stmt → Stmts
one_stmt s = more_stmts s no_stmts

abbrev literal : Stmts → Expr
literal body = func_lit no_fields no_fields body

abbrev guarded : Stmts → Stmts
guarded handler = one_stmt (
    expr_stmt (
      call (ident "GhiTry") (
        more_exprs (literal (one_stmt raise))
          (more_exprs (literal handler) (more_exprs (ident "nil") no_exprs)))))

guarded_terminates : block_terminates (guarded (one_stmt (return_stmt no_exprs))) ≡ true
unfolding block_terminates
guarded_terminates = refl

swallowed_continues : block_terminates (guarded no_stmts) ≡ false
unfolding block_terminates
swallowed_continues = refl

guarded_returns : ExecList [] (guarded (one_stmt (return_stmt no_exprs))) [] (ends returns [])
guarded_returns =
    stops
      (expr (
        try refl (lit (stops (expr (plain refl)) refl)) (catches (lit (stops return refl)))
          (no_finalizer refl)))
      refl

block_terminates-leaves_example : is_normal (ends returns []) ≡ false
block_terminates-leaves_example =
    block_terminates-leaves [] (guarded (one_stmt (return_stmt no_exprs))) [] (ends returns [])
      guarded_terminates guarded_returns
