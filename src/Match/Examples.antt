-- ===== src/Match/Examples.antt =====
-- A match on an enum of two cases, with a duplicate and with one case missing.
use ghi.Prelude.{ℕ, String, ◌≡◌, refl, ◌↔◌, Option, none, some, List, [], ◌∷◌, if◌then◌else◌, ◌==◌}
use ghi.Syntax.{
  Expr, ident, paren, selector, call, Exprs, no_exprs, more_exprs, absent_stmt, switch_stmt,
  no_stmts, more_stmts, no_clauses, case_clause,
}
use ghi.Match.Exhaustive.{
  Object, EnumDecl, named, accepted, rejected, duplicate, missing, not_a_case, needs_default,
  enum_symbol, validate_arms, validate_match,
}
use ghi.Match.Exact.{IsExhaustive, validate_arms-IsExhaustive}

abbrev digits : ℕ → String
digits n = "5"

abbrev color : EnumDecl
color = record { pkg = 1; name = "Color"; backing = ""; cases = "Red" ∷ "Blue" ∷ [] }

abbrev object : Expr → Option Object
object (ident x) = some (record { pkg = 1; name = x })
object _ = none

abbrev red : Expr
red = call (ident "GhiEnum_5_Color_Red") no_exprs

abbrev blue : Expr
blue = call (selector (ident "colors") "GhiEnum_5_Color_Blue") no_exprs

abbrev one_expr : Expr → Exprs
one_expr x = more_exprs x no_exprs

abbrev both : List Exprs
both = one_expr (paren red) ∷ one_expr blue ∷ []

symbol_lem : enum_symbol digits "Color" "Red" ≡ "GhiEnum_5_Color_Red"
unfolding enum_symbol
symbol_lem = refl

verdicts :
    (validate_arms digits object color both ≡ accepted)
    × (validate_arms digits object color (one_expr red ∷ one_expr red ∷ [])
        ≡ rejected (duplicate "Red"))
    × (validate_arms digits object color (one_expr red ∷ []) ≡ rejected (missing ("Blue" ∷ [])))
    × (validate_arms digits object color (one_expr (ident "x") ∷ []) ≡ rejected not_a_case)
unfolding validate_arms
verdicts = (refl, refl, refl, refl)

-- A function of another package with the symbol of a case, and a name of two bytes.
foreign :
    validate_arms digits
      (λ x. some (record { pkg = 2; name = "GhiEnum_5_Color_Red" }))
      color
      (one_expr red ∷ [])
    ≡ rejected not_a_case
unfolding validate_arms
foreign = refl

abbrev two : ℕ → String
two n = if n == 2 then "2" else "1"

symbol_bytes : enum_symbol two "é" "A" ≡ "GhiEnum_2_é_A"
unfolding enum_symbol
symbol_bytes = refl

match_lem :
    (validate_match digits object
        (color ∷ [])
        (λ tag. named 1 "Color")
        (more_stmts
          (switch_stmt absent_stmt
            (ident "c")
            (case_clause (one_expr red) no_stmts (case_clause (one_expr blue) no_stmts no_clauses)))
          no_stmts)
      ≡ accepted)
    × (validate_match digits object []
          (λ tag. named 1 "Color")
          (more_stmts
            (switch_stmt absent_stmt (ident "c") (case_clause (one_expr red) no_stmts no_clauses))
            no_stmts)
        ≡ rejected needs_default)
unfolding validate_match
match_lem = (refl, refl)

validate_arms-IsExhaustive_example :
    (validate_arms digits object color both ≡ accepted) ↔ IsExhaustive digits object color both
validate_arms-IsExhaustive_example = validate_arms-IsExhaustive digits object color both
