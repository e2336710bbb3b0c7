-- ===== src/Construction/Class.antt =====
-- internal/compiler/construction.go: `validateConstruction` on one class, and
-- internal/compiler/generics.go: `mentionsTypeParameter`. Whether a type names a class
-- (`sourceNeedsInitialization`) is a parameter: it looks through all files of the program.
use ghi.Prelude.{
  String, Bool, true, false, ◌||◌, ◌&&◌, not, List, [], ◌∷◌, ◌++◌, if◌then◌else◌, contains,
}
use ghi.Syntax.{
  Expr, absent, ident, paren, array_type, struct_type, Fields, no_fields, more_fields, expr_stmt,
  Stmts, no_stmts, more_stmts, is_call,
}
use ghi.Construction.Flow.{Reason}
use ghi.Construction.Check.{check_body}

pub record FieldDecl : Type 0 where
  pub name : String
  pub type : Expr

-- A class as the check sees it: `members` are the names that `classDecl.field` finds, in the class
-- or in an ancestor.
pub record ClassDecl : Type 0 where
  pub type_params : Fields
  pub has_parent : Bool
  pub members : List String
  pub fields : List FieldDecl
  pub constructor : Stmts

unfoldable pub parameter_names : Fields → List String
parameter_names no_fields = []
parameter_names (more_fields names type rest) = names ++ parameter_names rest

abbrev pub is_absent : Expr → Bool
is_absent absent = true
is_absent _ = false

-- The closure `required` of `mentionsTypeParameter`.
unfoldable mutual
  pub mentions : (parameters : List String) → Expr → Bool
  mentions parameters (ident name) = contains parameters name
  mentions parameters (paren x) = mentions parameters x
  mentions parameters (array_type len elt) =
      let inner = mentions parameters elt in not (is_absent len) && inner
  mentions parameters (struct_type fields) = fields_mention parameters fields
  mentions parameters _ = false

  fields_mention : (parameters : List String) → Fields → Bool
  fields_mention parameters no_fields = false
  fields_mention parameters (more_fields names type rest) =
      mentions parameters type || fields_mention parameters rest

unfoldable pub mentions_type_parameter : ClassDecl → Expr → Bool
unfolding parameter_names mentions
mentions_type_parameter c type = mentions (parameter_names c.type_params) type

-- Whether a top-level statement of the constructor calls the parent's constructor.
unfoldable pub calls_parent : Stmts → Bool
calls_parent no_stmts = false
calls_parent (more_stmts (expr_stmt x) ss) = is_call x "parent" || calls_parent ss
calls_parent (more_stmts s ss) = calls_parent ss

module _ (needs_initialization : Expr → Bool) where
  unfoldable pub field_names : ClassDecl → List FieldDecl → List String
  unfolding mentions_type_parameter
  field_names c [] = []
  field_names c (f ∷ fs) =
      let rest = field_names c fs in
      if needs_initialization f.type || mentions_type_parameter c f.type
      then f.name ∷ rest
      else rest

  unfoldable pub required_names : ClassDecl → List String
  unfolding calls_parent field_names
  required_names c =
      (if c.has_parent && calls_parent c.constructor then "@parent" ∷ [] else [])
      ++ field_names c c.fields

  -- The errors of the class. The program stops at the first one.
  unfoldable pub validate_construction : ClassDecl → List Reason
  unfolding required_names check_body
  validate_construction c = check_body c.members (required_names c) c.constructor
