-- ===== src/Construction/Examples.antt =====
-- A class with two fields that need a value, whose constructor sets one in both branches of a test
-- and returns early in one of them.
use ghi.Prelude.{String, ◌≡◌, refl, Bool, true, [], ◌∷◌}
use ghi.Syntax.{
  Expr, ident, selector, call, no_exprs, more_exprs, no_fields, Stmt, absent_stmt, assign_stmt,
  expr_stmt, return_stmt, block_stmt, if_stmt, Stmts, no_stmts, more_stmts, is_ident, assign_token,
}
use ghi.Construction.Visit.{visit}
use ghi.Construction.Flow.{merge_exits, returns, not_initialized}
use ghi.Construction.Runs.{
  ends, ExecList, goes_on, stops, assigns, expr, plain, if_then, skips, return,
}
use ghi.Construction.Lowered.{IsLoweredList}
use ghi.Construction.Class.{FieldDecl, ClassDecl, required_names, validate_construction}
use ghi.Construction.Accepted.{Initializes, validate_construction_sound}

abbrev field_of : String → String → FieldDecl
field_of name type = record { name = name; type = ident type }

abbrev this_dot : String → Expr
this_dot name = selector (ident "this") name

abbrev set_this : String → Expr → Stmt
set_this name x =
    assign_stmt (more_exprs (this_dot name) no_exprs) assign_token (more_exprs x no_exprs)

abbrev is_class : Expr → Bool
is_class x = is_ident x "Port"

abbrev early : Stmts
early = more_stmts (set_this "input" (ident "left")) (more_stmts (return_stmt no_exprs) no_stmts)

abbrev late : Stmts
late = more_stmts (set_this "input" (ident "right")) no_stmts

abbrev wires : Stmts
wires = more_stmts (expr_stmt (call (ident "parent") no_exprs)) (
    more_stmts (set_this "output" (ident "right")) (
      more_stmts (if_stmt absent_stmt (ident "swap") early (block_stmt late))
        (more_stmts (set_this "size" (this_dot "input")) no_stmts)))

abbrev pipe : Stmts → ClassDecl
pipe body = record {
  type_params = no_fields;
  has_parent = true;
  members = "input" ∷ "output" ∷ "size" ∷ [];
  fields = field_of "input" "Port" ∷ field_of "output" "Port" ∷ field_of "size" "int" ∷ [];
  constructor = body;
}

pipe_required : required_names is_class (pipe wires) ≡ "@parent" ∷ "input" ∷ "output" ∷ []
unfolding required_names
pipe_required = refl

pipe_accepted : validate_construction is_class (pipe wires) ≡ []
unfolding validate_construction visit merge_exits
pipe_accepted = refl

pipe_lowered : IsLoweredList wires
unfolding IsLoweredList
pipe_lowered = (tt, (tt, ((tt, (tt, (tt, tt)), (tt, tt)), (tt, tt))))

late_unset : validate_construction is_class (pipe late) ≡ not_initialized "output" ∷ []
unfolding validate_construction visit merge_exits
late_unset = refl

pipe_returns :
    ExecList
      (required_names is_class (pipe wires))
      wires
      []
      (ends returns ("input" ∷ "output" ∷ "@parent" ∷ []))
pipe_returns =
    goes_on (expr (plain refl))
      (goes_on assigns (stops (if_then skips (goes_on assigns (stops return refl))) refl))

validate_construction_sound_example :
    Initializes
      (required_names is_class (pipe wires))
      (ends returns ("input" ∷ "output" ∷ "@parent" ∷ []))
validate_construction_sound_example =
    validate_construction_sound is_class (pipe wires)
      (ends returns ("input" ∷ "output" ∷ "@parent" ∷ [])) pipe_accepted pipe_lowered pipe_returns
