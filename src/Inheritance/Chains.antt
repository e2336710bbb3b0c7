-- ===== src/Inheritance/Chains.antt =====
-- Proofs about `ancestorArguments` of internal/compiler/inheritance.go: a chain of generic classes.
use ghi.Prelude.{String, ◌≡◌, Bool, false, some, List, [], map, length, All, IsDistinct}
use ghi.Syntax.{Expr}
use ghi.Inheritance.Types.{
  some_expr, class_bindings, substitute_type, ClassDecl, Chain, itself, unrelated, descends, bottom,
  ancestor_arguments,
}
use ghi.Inheritance.Compose.{Fits}

abbrev IsPresent : Expr → Type 0
IsPresent e = some_expr e ≡ some e

module _ (resolved : String → Bool) where
  abbrev IsOpen : String → Type 0
  IsOpen x = resolved x ≡ false

  -- One argument, which is not nil, for each of the parameters, which have names of their own.
  abbrev pub IsInstance : ClassDecl → List Expr → Type 0
  IsInstance c args =
      IsDistinct c.parameters
      × All IsOpen c.parameters
      × (length args ≡ length c.parameters)
      × All IsPresent args

  -- The arguments of the ancestor for a descendant with these arguments: each class gives its
  -- parent the arguments that its declaration says, with its own put in.
  unfoldable pub concrete_arguments : Chain → List Expr → List Expr
  concrete_arguments (itself c) args = args
  concrete_arguments (unrelated c) args = []
  concrete_arguments (descends c parent) args =
      concrete_arguments parent
        (map (substitute_type resolved (class_bindings c.parameters args [])) c.direct)

  module _ (relocate : (from to : String) → Expr → Expr)
      (local : (from to : String) (e : Expr) → relocate from to e ≡ e) where
    -- On the way up no name is caught: a name in an argument is a parameter of the class that it
    -- stands in, or none of the descendant's.
    abbrev pub IsChain : Chain → List Expr → Type 0
    IsChain (itself c) args = IsInstance c args
    IsChain (unrelated c) args = Unit
    IsChain (descends c parent) args =
        let own = class_bindings c.parameters args [] in
        All (Fits resolved (class_bindings (bottom parent).parameters c.direct []) own)
          (ancestor_arguments resolved relocate parent)
        × IsChain parent (map (substitute_type resolved own) c.direct)
