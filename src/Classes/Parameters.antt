-- ===== src/Classes/Parameters.antt =====
-- internal/compiler/frontend.go: the checks of `parseFunction` on parameters; and
-- internal/compiler/class_model.go: `parameters`, `results`, `argumentNames` and `signature`, before
-- they are joined to texts. The text of a type stands as its expression, an argument name
-- `ghi_arg_%d` as its number.
use ghi.Prelude.{
  ℕ, String, Bool, true, false, ◌&&◌, ◌||◌, not, Option, none, some, List, [], ◌∷◌, ◌++◌,
  if◌then◌else◌, str_eq, length,
}
use ghi.Syntax.{Expr}

-- A field of the parameter list, and whether `defaults` has its index.
pub record Param : Type 0 where
  pub names : List String
  pub type : Expr
  pub has_default : Bool

pub data ParamsError : Type 0 where
  own_name default_order : ParamsError

abbrev pub one_name : List String → Bool
one_name [] = false
one_name (n ∷ []) = true
one_name (n ∷ m ∷ ns) = false

-- `before`: an earlier parameter has a default.
unfoldable pub check_params : (before : Bool) → List Param → Option ParamsError
check_params before [] = none
check_params before (p ∷ ps) =
    let rest = check_params (before || p.has_default) ps in
    if not (one_name p.names)
    then some own_name
    else if not p.has_default && before
    then some default_order
    else rest

pub record Argument : Type 0 where
  pub number : ℕ
  pub type : Expr

-- `param.Names[0].Name == "this"`
abbrev pub is_this : List String → Bool
is_this [] = false
is_this (n ∷ ns) = str_eq n "this"

abbrev pub number_names : List String → Expr → List Argument → List Argument
number_names [] type result = result
number_names (n ∷ ns) type result =
    number_names ns type (result ++ (record { number = length result; type = type } ∷ []))

unfoldable pub parameters : List Argument → List Param → List Argument
parameters result [] = result
parameters result (p ∷ ps) =
    if is_this p.names
    then parameters result ps
    else parameters (number_names p.names p.type result) ps

abbrev pub add_arguments : List String → List ℕ → List ℕ
add_arguments [] numbers = numbers
add_arguments (n ∷ ns) numbers =
    if str_eq n "this"
    then add_arguments ns numbers
    else add_arguments ns (numbers ++ (length numbers ∷ []))

unfoldable pub argument_names : List ℕ → List Param → List ℕ
argument_names numbers [] = numbers
argument_names numbers (p ∷ ps) = argument_names (add_arguments p.names numbers) ps

-- The types on the left of a signature, and those on its right: one for each name, or one.
unfoldable pub signature_params : List Param → List Expr
signature_params [] = []
signature_params (p ∷ ps) =
    let rest = signature_params ps in if is_this p.names then rest else p.type ∷ rest

abbrev pub repeat_type : List String → Expr → List Expr
repeat_type [] type = []
repeat_type (n ∷ ns) type = type ∷ repeat_type ns type

abbrev pub result_types : List String → Expr → List Expr
result_types [] type = type ∷ []
result_types (n ∷ ns) type = repeat_type (n ∷ ns) type

-- The types of `results` and of the right side of `signature`.
unfoldable pub results : List Param → List Expr
results [] = []
results (p ∷ ps) = result_types p.names p.type ++ results ps
