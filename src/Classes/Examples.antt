-- ===== src/Classes/Examples.antt =====
-- Three classes, `Square` below `Shape` below `Base`.
use ghi.Prelude.{
  ℕ, ◌≤◌, IsDistinct, String, Bool, ◌≡◌, refl, ◌⊎◌, true, false, Option, none, some, List, [], ◌∷◌,
  arith, zero, suc,
}
use ghi.Classes.Model.{
  MethodDecl, ClassDecl, Visibility, public, protected, private, find_method, method, all_methods,
  accessible, visibility_rank, check_methods, no_accessible_parent,
}
use ghi.Syntax.{ident}
use ghi.Classes.Parameters.{
  Param, default_order, check_params, parameters, argument_names, signature_params,
}
use ghi.Classes.Arity.{EndsInDefaults, numbers, types, parameters-exact}
use ghi.Classes.Cycles.{walk, acyclic, cycle, Ends, Below, walk-exact}
use ghi.Classes.Members.{method_names, all_methods-exact}
use ghi.Classes.Overrides.{StandsFor, method-substitutable}

abbrev declared : String → Visibility → ℕ → MethodDecl
declared name visibility body = record {
  name = name;
  visibility = visibility;
  override = false;
  body = body;
}

abbrev class_of : ℕ → List MethodDecl → ClassDecl
class_of id methods = record {
  id = id;
  fields = record { name = "size"; owner = id } ∷ [];
  methods = methods;
}

abbrev area : MethodDecl
area = declared "area" protected 1

abbrev wider : MethodDecl
wider = record (declared "area" public 2) { override = true }

abbrev base : ClassDecl
base = class_of 0 (area ∷ declared "hidden" private 3 ∷ [])

abbrev shape : ClassDecl
shape = class_of 1 (declared "draw" public 4 ∷ [])

abbrev square : ClassDecl
square = class_of 2 (wider ∷ [])

abbrev chain : List ClassDecl
chain = square ∷ shape ∷ base ∷ []

abbrev text : MethodDecl → ClassDecl → String
text m c = m.name

abbrev parent_of : ℕ → Option ℕ
parent_of zero = none
parent_of (suc zero) = some 0
parent_of (suc (suc zero)) = some 1
parent_of (suc (suc (suc a))) = none

abbrev looped : ℕ → Option ℕ
looped zero = some 1
looped (suc zero) = some 0
looped (suc (suc a)) = none

walk_lem : (walk parent_of 4 [] (some 2) ≡ acyclic) × (walk looped 4 [] (some 0) ≡ cycle)
unfolding walk
walk_lem = (refl, refl)

accessible_lem :
    (accessible protected 0 chain ≡ true)
    × (accessible private 0 chain ≡ false)
    × (accessible protected 2 (shape ∷ base ∷ []) ≡ false)
    × (accessible public 2 [] ≡ true)
unfolding accessible
accessible_lem = (refl, refl, refl, refl)

hidden_override :
    check_methods text square
      (shape ∷ base ∷ [])
      (record (declared "hidden" public 5) { override = true } ∷ [])
    ≡ some no_accessible_parent
unfolding check_methods method
hidden_override = refl

chain_prepared :
    (check_methods text square (shape ∷ base ∷ []) (wider ∷ []) ≡ none)
    × (check_methods text shape (base ∷ []) (declared "draw" public 4 ∷ []) ≡ none)
    × (check_methods text base [] (area ∷ declared "hidden" private 3 ∷ []) ≡ none)
unfolding check_methods method
chain_prepared = (refl, refl, refl)

area_found : method (base ∷ []) "area" ≡ some area
unfolding method
area_found = refl

links-Below : (a : ℕ) → Below parent_of 3 (parent_of a)
links-Below zero = tt
links-Below (suc zero) = omega arith
links-Below (suc (suc zero)) = omega arith
links-Below (suc (suc (suc a))) = tt

walk-exact_example :
    ((walk parent_of 4 [] (some 2) ≡ acyclic) × Ends parent_of (some 2))
    ⊎ ((walk parent_of 4 [] (some 2) ≡ cycle) × (¬ Ends parent_of (some 2)))
walk-exact_example = walk-exact parent_of 3 2 links-Below (omega arith)

method-substitutable_example :
    (m : MethodDecl) × (method chain "area" ≡ some m)
    × StandsFor text chain m area
    × (visibility_rank protected ≤ visibility_rank m.visibility)
method-substitutable_example =
    method-substitutable text (square ∷ shape ∷ []) (base ∷ []) "area" area
      (chain_prepared.0, (chain_prepared.1, (chain_prepared.2, tt))) area_found

all_methods-exact_example :
    IsDistinct (method_names (all_methods chain))
    × (find_method (all_methods chain) "area" ≡ method chain "area")
all_methods-exact_example =
    all_methods-exact chain "area" ((refl, tt), ((refl, tt), ((refl, (refl, tt)), tt)))

abbrev param : String → String → Bool → Param
param name type has_default = record {
  names = name ∷ [];
  type = ident type;
  has_default = has_default;
}

abbrev params : List Param
params = param "this" "Shape" false ∷ param "x" "int" false ∷ param "label" "string" true ∷ []

params_checked :
    (check_params false params ≡ none)
    × (check_params false (param "x" "int" true ∷ param "y" "int" false ∷ []) ≡ some default_order)
unfolding check_params
params_checked = (refl, refl)

params_numbered : argument_names [] params ≡ 0 ∷ 1 ∷ []
unfolding argument_names
params_numbered = refl

parameters-exact_example :
    EndsInDefaults params
    × (numbers (parameters [] params) ≡ argument_names [] params)
    × (types (parameters [] params) ≡ signature_params params)
parameters-exact_example = parameters-exact params params_checked.0
