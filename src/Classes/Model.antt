-- ===== src/Classes/Model.antt =====
-- internal/compiler/class_model.go: member lookup, access, and the checks of `prepareClasses`. A
-- class is given with its ancestors, as the list that starts with it: after the cycle check the
-- links of `Parent` end. The text of a signature is a parameter.
use ghi.Prelude.{
  ℕ, String, Bool, true, false, ◌&&◌, ◌||◌, not, Option, none, some, List, [], ◌∷◌, ◌++◌, ltb, ◌==◌,
  if◌then◌else◌, str_eq,
}

-- `Visibility`: a text other than these three ranks as private.
pub data Visibility : Type 0 where
  public protected private : Visibility

pub record MethodDecl : Type 0 where
  pub name : String
  pub visibility : Visibility
  pub override : Bool
  pub body : ℕ

pub record FieldDecl : Type 0 where
  pub name : String
  pub owner : ℕ

-- `id` stands for the pointer.
pub record ClassDecl : Type 0 where
  pub id : ℕ
  pub fields : List FieldDecl
  pub methods : List MethodDecl

unfoldable pub find_method : List MethodDecl → String → Option MethodDecl
find_method [] name = none
find_method (m ∷ ms) name =
    let rest = find_method ms name in if str_eq m.name name then some m else rest

abbrev pub or_else {ℓ} : {A : Type ℓ} → Option A → Option A → Option A
or_else (some a) other = some a
or_else none other = other

-- `method` and `field`: the class first, then its parent.
unfoldable pub method : List ClassDecl → String → Option MethodDecl
unfolding find_method
method [] name = none
method (c ∷ parents) name = or_else (find_method c.methods name) (method parents name)

unfoldable pub find_field : List FieldDecl → String → Option FieldDecl
find_field [] name = none
find_field (f ∷ fs) name =
    let rest = find_field fs name in if str_eq f.name name then some f else rest

unfoldable pub field : List ClassDecl → String → Option FieldDecl
unfolding find_field
field [] name = none
field (c ∷ parents) name = or_else (find_field c.fields name) (field parents name)

unfoldable pub all_fields : List ClassDecl → List FieldDecl
all_fields [] = []
all_fields (c ∷ parents) = all_fields parents ++ c.fields

-- The loop over `result` in `allMethods`: the method takes the place of the one with its name.
unfoldable pub put_method : List MethodDecl → MethodDecl → List MethodDecl
put_method [] m = m ∷ []
put_method (old ∷ result) m =
    let rest = put_method result m in if str_eq old.name m.name then m ∷ result else old ∷ rest

unfoldable pub put_methods : List MethodDecl → List MethodDecl → List MethodDecl
unfolding put_method
put_methods result [] = result
put_methods result (m ∷ ms) = put_methods (put_method result m) ms

unfoldable pub all_methods : List ClassDecl → List MethodDecl
unfolding put_methods
all_methods [] = []
all_methods (c ∷ parents) = put_methods (all_methods parents) c.methods

abbrev pub visibility_rank : Visibility → ℕ
visibility_rank public = 2
visibility_rank protected = 1
visibility_rank private = 0

abbrev pub among : List ClassDecl → ℕ → Bool
among [] owner = false
among (c ∷ parents) owner = (c.id == owner) || among parents owner

abbrev is_class : List ClassDecl → ℕ → Bool
is_class [] owner = false
is_class (c ∷ parents) owner = owner == c.id

-- `accessible`: the caller comes with its ancestors, and is empty where it is nil.
unfoldable pub accessible : Visibility → ℕ → List ClassDecl → Bool
accessible public owner caller = true
accessible protected owner caller = if is_class caller owner then true else among caller owner
accessible private owner caller = if is_class caller owner then true else false

pub data OverrideError : Type 0 where
  no_accessible_parent override_missing incompatible_signature reduces_visibility : OverrideError

abbrev pub is_private : Visibility → Bool
is_private private = true
is_private _ = false

module _ (signature : MethodDecl → ClassDecl → String) where
  -- The checks of one method, against the method of its name in the parent.
  unfoldable pub check_override :
      ClassDecl → MethodDecl → (base : Option MethodDecl) → Option OverrideError
  check_override c m none = if m.override then some no_accessible_parent else none
  check_override c m (some base) =
      if m.override && is_private base.visibility
      then some no_accessible_parent
      else if not m.override
      then some override_missing
      else if not (str_eq (signature m c) (signature base c))
      then some incompatible_signature
      else if ltb (visibility_rank m.visibility) (visibility_rank base.visibility)
      then some reduces_visibility
      else none

  unfoldable pub check_methods :
      ClassDecl → (parents : List ClassDecl) → List MethodDecl → Option OverrideError
  unfolding check_override method
  check_methods c parents [] = none
  check_methods c parents (m ∷ ms) =
      or_else (check_override c m (method parents m.name)) (check_methods c parents ms)
