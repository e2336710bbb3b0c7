-- ===== src/Control/Terminates.antt =====
-- internal/compiler/control_flow.go: `blockTerminates`. The source asserts that the first argument
-- of `GhiTry` is a function literal, and would panic on another one: here that is `false`.
use ghi.Prelude.{Bool, true, false, ◌&&◌, if◌then◌else◌}
use ghi.Syntax.{
  Expr, func_lit, call, Exprs, more_exprs, Stmt, absent_stmt, expr_stmt, return_stmt, block_stmt,
  if_stmt, Stmts, no_stmts, more_stmts, is_call,
}

unfoldable mutual
  pub block_terminates : Stmts → Bool
  block_terminates no_stmts = false
  block_terminates (more_stmts s no_stmts) = stmt_terminates s
  block_terminates (more_stmts s (more_stmts t rest)) = block_terminates (more_stmts t rest)

  pub stmt_terminates : Stmt → Bool
  stmt_terminates (return_stmt results) = true
  stmt_terminates (expr_stmt x) = expr_terminates x
  stmt_terminates (block_stmt body) = block_terminates body
  stmt_terminates (if_stmt init cond body absent_stmt) = false
  stmt_terminates (if_stmt init cond body other) = block_terminates body && stmt_terminates other
  stmt_terminates _ = false

  pub expr_terminates : Expr → Bool
  expr_terminates (call fun args) =
      let tried = try_terminates args in
      if is_call (call fun args) "GhiThrow"
      then true
      else if is_call (call fun args) "panic"
      then true
      else if is_call (call fun args) "GhiTry"
      then tried
      else false
  expr_terminates _ = false

  pub try_terminates : Exprs → Bool
  try_terminates (more_exprs body (more_exprs handler (more_exprs finalizer rest))) =
      let final = finalizer_terminates finalizer in
      let tried = body_terminates body in
      let handled = handler_terminates handler in
      if final then true else if tried then handled else false
  try_terminates _ = false

  pub finalizer_terminates : Expr → Bool
  finalizer_terminates (func_lit params results body) = block_terminates body
  finalizer_terminates _ = false

  pub body_terminates : Expr → Bool
  body_terminates (func_lit params results body) = block_terminates body
  body_terminates _ = false

  -- Without a handler, what the body throws goes on.
  pub handler_terminates : Expr → Bool
  handler_terminates (func_lit params results body) = block_terminates body
  handler_terminates _ = true
