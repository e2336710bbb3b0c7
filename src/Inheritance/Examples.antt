-- ===== src/Inheritance/Examples.antt =====
-- Tests of internal/compiler/inheritance.go: `Names[T]` extends `Pairs[string, []T]`, and `Pairs[K, V]`
-- extends `Store[map[K]V]`.
use ghi.Prelude.{String, ◌≡◌, refl, Bool, false, [], ◌∷◌}
use ghi.Syntax.{Expr, absent, ident, array_type, map_type}
use ghi.Inheritance.Types.{ClassDecl, Chain, itself, descends, ancestor_arguments}

abbrev never : String → Bool
never name = false

abbrev here : String → String → Expr → Expr
here from to e = e

abbrev store : ClassDecl
store = record { name = "Store"; parameters = "E" ∷ []; direct = [] }

abbrev pairs : ClassDecl
pairs = record {
  name = "Pairs";
  parameters = "K" ∷ "V" ∷ [];
  direct = map_type (ident "K") (ident "V") ∷ [];
}

abbrev names : ClassDecl
names = record {
  name = "Names";
  parameters = "T" ∷ [];
  direct = ident "string" ∷ array_type absent (ident "T") ∷ [];
}

abbrev chain : Chain
chain = descends names (descends pairs (itself store))

names_inherit :
    ancestor_arguments never here chain
    ≡ map_type (ident "string") (array_type absent (ident "T")) ∷ []
unfolding ancestor_arguments
names_inherit = refl
