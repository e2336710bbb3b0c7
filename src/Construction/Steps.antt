-- ===== src/Construction/Steps.antt =====
-- internal/compiler/construction_flow.go: the cases of `step`, given the checks of the parts of
-- the statement; and `read` of construction.go.
use ghi.Prelude.{String, Option, Bool, none, some, List, [], ◌∷◌, ◌++◌, if◌then◌else◌}
use ghi.Syntax.{
  Expr, Exprs, no_exprs, more_exprs, Stmt, Specs, no_specs, value_spec, type_spec, is_call, Token,
}
use ghi.Construction.Visit.{this_field_of, visit, visit_stmt}
use ghi.Construction.Flow.{
  Initialized, falls, throws, Exit, Reason, Checked, merge_exits, read_visits,
}
use ghi.Construction.Exits.{
  at, one, join, after_errors, is_assign, is_infinite, has_default, loop_exits, range_exits,
  leaving, falling,
}

-- `name, ok := thisField(lhs); ok && s.Tok == token.ASSIGN`
abbrev pub plain_target : Expr → Token → Option String
plain_target x tok = if is_assign tok then this_field_of x else none

abbrev pub set_target : Option String → Initialized → Initialized
set_target none state = state
set_target (some name) state = name ∷ state

module _ (fields required : List String) where
  -- `c.read`
  unfoldable pub read : Expr → Initialized → List Reason
  unfolding read_visits
  read x state = read_visits fields required state (visit x)

  unfoldable pub read_exprs : Exprs → Initialized → List Reason
  unfolding read
  read_exprs no_exprs state = []
  read_exprs (more_exprs x xs) state = read x state ++ read_exprs xs state

  -- One target of an assignment: a plain assignment to `this.f` sets it, any other is read.
  abbrev pub target_errors : Option String → Expr → Initialized → List Reason
  target_errors none x state = read x state
  target_errors (some name) x state = []

  -- The loop over `s.Lhs`.
  unfoldable pub assign_targets : Exprs → Token → Initialized → Checked
  unfolding read
  assign_targets no_exprs tok state = one state falls []
  assign_targets (more_exprs x xs) tok state =
      after_errors (target_errors (plain_target x tok) x state)
        (assign_targets xs tok (set_target (plain_target x tok) state))

  unfoldable pub read_specs : Specs → Initialized → List Reason
  unfolding read_exprs
  read_specs no_specs state = []
  read_specs (value_spec names type values rest) state =
      read_exprs values state ++ read_specs rest state
  read_specs (type_spec name type rest) state = read_specs rest state

  -- A statement that is an expression, other than `GhiTry`.
  unfoldable pub plain_step : Expr → Initialized → Checked
  unfolding read
  plain_step x state =
      if is_call x "parent"
      then one ("@parent" ∷ state) falls (read x state)
      else if is_call x "GhiThrow"
      then one state throws (read x state)
      else one state falls (read x state)

  -- The default case: every expression in the statement is read.
  unfoldable pub inspect_step : Stmt → Initialized → Checked
  unfolding read_visits
  inspect_step s state = one state falls (read_visits fields required state (visit_stmt s))

  unfoldable pub if_step :
      Expr → (body : List Exit → Checked) (other : Initialized → Checked) → Initialized → Checked
  unfolding read
  if_step cond body other state =
      after_errors (read cond state) (join (body (at state falls ∷ [])) (other state))

  unfoldable pub for_step :
      Expr → (body : List Exit → Checked) (post : Initialized → Checked) → Initialized → Checked
  unfolding read loop_exits
  for_step cond body post state =
      let c = body (at state falls ∷ []) in
      let inside = after_errors c.errors (loop_exits post c.exits) in
      after_errors (read cond state)
        (if is_infinite cond then inside else join (one state falls []) inside)

  unfoldable pub range_step : Expr → (body : List Exit → Checked) → Initialized → Checked
  unfolding read range_exits
  range_step x body state =
      let c = body (at state falls ∷ []) in
      record {
        exits = merge_exits (at state falls ∷ range_exits c.exits);
        errors = read x state ++ c.errors;
      }

  -- One clause, and then the others with the exits that fell to them.
  unfoldable pub clause_step :
      (exprs : Exprs) (body : List Exit → Checked) (rest : List Exit → Checked) (fallen : List Exit)
      → Initialized
      → Checked
  unfolding read_exprs leaving falling
  clause_step exprs body rest fallen state =
      let c = body (merge_exits (at state falls ∷ fallen)) in
      after_errors (read_exprs exprs state)
        (join (record { exits = leaving c.exits; errors = c.errors }) (rest (falling c.exits)))

  unfoldable pub switch_step :
      Expr
      → (has_default : Bool) (clauses : List Exit → Initialized → Checked) → Initialized
      → Checked
  unfolding read
  switch_step tag has_default clauses state =
      let c = after_errors (read tag state) (clauses [] state) in
      if has_default then c else join c (one state falls [])
