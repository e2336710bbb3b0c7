-- ===== src/Construction/Exits.antt =====
-- internal/compiler/construction_flow.go: what `step`, `paths` and `tryPaths` do with lists of
-- exits. Maps are values here: the source clones a state wherever two paths would share it.
use ghi.Prelude.{String, Bool, true, false, Option, none, some, List, [], ◌∷◌, ◌++◌, if◌then◌else◌}
use ghi.Syntax.{
  Expr, absent, func_lit, Clauses, no_clauses, case_clause, default_clause, is_ident, Token,
  assign_token, BranchToken, break_token, continue_token, goto_token, fallthrough_token,
}
use ghi.Construction.Flow.{
  Initialized, Flow, falls, throws, returns, breaks, continues, goes, falls_through, flow_eq, Exit,
  Reason, labelled_jump, Checked, merge_exits,
}

abbrev pub at : Initialized → Flow → Exit
at state flow = record { state = state; flow = flow }

-- `normal()`, and other results with one exit.
abbrev pub one : Initialized → Flow → List Reason → Checked
one state flow errors = record { exits = at state flow ∷ []; errors = errors }

abbrev pub merged : Checked → Checked
merged c = record { exits = merge_exits c.exits; errors = c.errors }

abbrev pub join : Checked → Checked → Checked
join a b = record { exits = a.exits ++ b.exits; errors = a.errors ++ b.errors }

abbrev pub after_errors : List Reason → Checked → Checked
after_errors errors c = record { exits = c.exits; errors = errors ++ c.errors }

-- The loops over exits: an exit that does not fall through is passed on.
unfoldable pub each : (Initialized → Checked) → List Exit → Checked
each f [] = record { exits = []; errors = [] }
each f (e ∷ exits) =
    let rest = each f exits in
    if flow_eq e.flow falls
    then join (f e.state) rest
    else record { exits = e ∷ rest.exits; errors = rest.errors }

abbrev pub branch_flow : BranchToken → Flow
branch_flow break_token = breaks
branch_flow continue_token = continues
branch_flow goto_token = goes
branch_flow fallthrough_token = falls_through

-- `s.Label != nil || s.Tok == token.GOTO`
abbrev pub branch_errors : BranchToken → Option String → List Reason
branch_errors goto_token label = labelled_jump ∷ []
branch_errors _ none = []
branch_errors _ (some label) = labelled_jump ∷ []

abbrev pub is_assign : Token → Bool
is_assign assign_token = true
is_assign _ = false

-- `s.Cond == nil`, or the identifier `true`.
abbrev pub is_infinite : Expr → Bool
is_infinite absent = true
is_infinite cond = is_ident cond "true"

abbrev pub has_default : Clauses → Bool
has_default no_clauses = false
has_default (case_clause list body rest) = has_default rest
has_default (default_clause body rest) = true

abbrev pub is_func_lit : Expr → Bool
is_func_lit (func_lit params results body) = true
is_func_lit _ = false

-- How a `for` body's exits leave the loop: a break leaves it normally, and the post statement is
-- checked, but nothing more, where the body ends or continues.
unfoldable pub loop_exit : (Initialized → Checked) → Exit → Checked
loop_exit post e = elim e.flow [
  | breaks ↦ one e.state falls []
  | falls ↦ record { exits = []; errors = (post e.state).errors }
  | continues ↦ record { exits = []; errors = (post e.state).errors }
  | _ ↦ record { exits = e ∷ []; errors = [] }
]

unfoldable pub loop_exits : (Initialized → Checked) → List Exit → Checked
unfolding loop_exit
loop_exits post [] = record { exits = []; errors = [] }
loop_exits post (e ∷ exits) = join (loop_exit post e) (loop_exits post exits)

-- The exits of a `range` body that leave the loop by other than its end.
unfoldable pub range_exits : List Exit → List Exit
range_exits [] = []
range_exits (e ∷ exits) = elim e.flow [
  | returns ↦ e ∷ range_exits exits
  | throws ↦ e ∷ range_exits exits
  | _ ↦ range_exits exits
]

-- The exits of a clause's body: those that leave the switch, and those that fall to the next
-- clause.
unfoldable pub leaving : List Exit → List Exit
leaving [] = []
leaving (e ∷ exits) = elim e.flow [
  | breaks ↦ at e.state falls ∷ leaving exits
  | falls_through ↦ leaving exits
  | _ ↦ e ∷ leaving exits
]

unfoldable pub falling : List Exit → List Exit
falling [] = []
falling (e ∷ exits) = elim e.flow [
  | falls_through ↦ at e.state falls ∷ falling exits
  | _ ↦ falling exits
]

-- `exit.flow != constructorThrow`
unfoldable pub not_thrown : List Exit → List Exit
not_thrown [] = []
not_thrown (e ∷ exits) =
    let rest = not_thrown exits in if flow_eq e.flow throws then rest else e ∷ rest

-- A finalizer that ends normally goes on with the pending exit.
unfoldable pub resume : Flow → List Exit → List Exit
resume pending [] = []
resume pending (e ∷ exits) =
    (if flow_eq e.flow falls then at e.state pending else e) ∷ resume pending exits

unfoldable pub finalize : (List Exit → Checked) → List Exit → Checked
unfolding resume
finalize finalizer [] = record { exits = []; errors = [] }
finalize finalizer (pending ∷ exits) =
    let c = finalizer (at pending.state falls ∷ []) in
    join (record { exits = resume pending.flow c.exits; errors = c.errors })
      (finalize finalizer exits)

-- The exits that reach the finalizer.
unfoldable pub handled :
    (has_handler has_finalizer : Bool) (state : Initialized) → Checked → Checked → Checked
unfolding not_thrown
handled true has_finalizer state body handler =
    merged (join (record { exits = not_thrown body.exits; errors = body.errors }) handler)
handled false true state body handler = record {
  exits = body.exits ++ at state throws ∷ [];
  errors = body.errors;
}
handled false false state body handler = body

unfoldable pub finished : (has_finalizer : Bool) → (List Exit → Checked) → Checked → Checked
unfolding finalize
finished true finalizer c = merged (after_errors c.errors (finalize finalizer c.exits))
finished false finalizer c = c
