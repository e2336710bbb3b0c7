-- ===== src/Inheritance/Types.antt =====
-- internal/compiler/inheritance.go: `classBindings`, `substituteType` and `ancestorArguments`.
-- Whether a name is resolved by the parser, and how a type is written for another file (`typeText`),
-- are parameters. A class has its parameters and the arguments that it gives its parent, as the
-- parser reads them.
use ghi.Prelude.{String, Bool, Option, none, some, List, [], ◌∷◌, if◌then◌else◌, str_eq, map}
use ghi.Syntax.{
  Expr, absent, ident, ellipsis, paren, index_expr, index_list, star, unary, binary, array_type,
  struct_type, func_type, interface_type, map_type, chan_type, Exprs, no_exprs, more_exprs, Fields,
  no_fields, more_fields,
}

-- A map of names, the newest entry first.
abbrev pub Bindings : Type 0
Bindings = List (String × Expr)

-- An expression that is not nil.
abbrev pub some_expr : Expr → Option Expr
some_expr absent = none
some_expr e = some e

abbrev pub lookup : Bindings → String → Option Expr
lookup [] name = none
lookup ((key, value) ∷ bindings) name =
    let rest = lookup bindings name in if str_eq key name then some_expr value else rest

-- `classBindings`, from the entries that are there.
unfoldable pub class_bindings : (names : List String) → (args : List Expr) → Bindings → Bindings
class_bindings [] args bindings = bindings
class_bindings (n ∷ ns) [] bindings = bindings
class_bindings (n ∷ ns) (a ∷ rest) bindings = class_bindings ns rest ((n, a) ∷ bindings)

abbrev pub replaced : String → Option Expr → Expr
replaced name none = ident name
replaced name (some value) = value

module _ (resolved : String → Bool) (bindings : Bindings) where
  abbrev pub substitute_name : String → Expr
  substitute_name name = if resolved name then ident name else replaced name (lookup bindings name)

  -- `substituteType`. Names of fields and parameters, selectors and lengths stay.
  unfoldable mutual
    pub substitute_type : Expr → Expr
    substitute_type (ident name) = substitute_name name
    substitute_type (index_expr x index) = index_expr (substitute_type x) (substitute_type index)
    substitute_type (index_list x indices) =
        index_list (substitute_type x) (substitute_types indices)
    substitute_type (array_type len elt) = array_type len (substitute_type elt)
    substitute_type (star x) = star (substitute_type x)
    substitute_type (map_type key value) = map_type (substitute_type key) (substitute_type value)
    substitute_type (chan_type value) = chan_type (substitute_type value)
    substitute_type (ellipsis elt) = ellipsis (substitute_type elt)
    substitute_type (paren x) = paren (substitute_type x)
    substitute_type (func_type params results) =
        func_type (substitute_fields params) (substitute_fields results)
    substitute_type (struct_type fields) = struct_type (substitute_fields fields)
    substitute_type (interface_type methods) = interface_type (substitute_fields methods)
    substitute_type (unary op x) = unary op (substitute_type x)
    substitute_type (binary op x y) = binary op (substitute_type x) (substitute_type y)
    substitute_type x = x

    pub substitute_types : Exprs → Exprs
    substitute_types no_exprs = no_exprs
    substitute_types (more_exprs x xs) = more_exprs (substitute_type x) (substitute_types xs)

    pub substitute_fields : Fields → Fields
    substitute_fields no_fields = no_fields
    substitute_fields (more_fields names typ fields) =
        more_fields names (substitute_type typ) (substitute_fields fields)

pub record ClassDecl : Type 0 where
  pub name : String
  pub parameters : List String
  pub direct : List Expr

-- The classes from a descendant up to the ancestor, or to a class that has no parent.
pub data Chain : Type 0 where
  itself : ClassDecl → Chain
  unrelated : ClassDecl → Chain
  descends : ClassDecl → Chain → Chain

abbrev pub bottom : Chain → ClassDecl
bottom (itself c) = c
bottom (unrelated c) = c
bottom (descends c parent) = c

abbrev pub idents : List String → List Expr
idents [] = []
idents (n ∷ ns) = ident n ∷ idents ns

module _ (resolved : String → Bool) (relocate : (from to : String) → Expr → Expr) where
  -- `ancestorArguments`.
  unfoldable pub ancestor_arguments : Chain → List Expr
  unfolding class_bindings substitute_type
  ancestor_arguments (itself c) = idents c.parameters
  ancestor_arguments (unrelated c) = []
  ancestor_arguments (descends c parent) =
      let p = bottom parent in
      map
        (λ arg.
          substitute_type resolved (class_bindings p.parameters c.direct [])
            (relocate p.name c.name arg))
        (ancestor_arguments parent)
