-- ===== src/Classes/Arity.antt =====
-- Proofs about the parameters of internal/compiler/class_model.go.
use ghi.Prelude.{
  ℕ, suc, String, ◌≡◌, refl, sym, ◌∙◌, ap, subst, Bool, true, false, ◌&&◌, ◌||◌, not, Option, none,
  some, List, [], ◌∷◌, ◌++◌, if◌then◌else◌, str_eq, length, Bool-cases, inl, inr, All,
}
use ghi.Syntax.{Expr}
use ghi.Classes.Parameters.{
  Param, ParamsError, own_name, default_order, one_name, check_params, Argument, parameters,
  argument_names, signature_params,
}

abbrev pub numbers : List Argument → List ℕ
numbers [] = []
numbers (a ∷ xs) = a.number ∷ numbers xs

abbrev pub types : List Argument → List Expr
types [] = []
types (a ∷ xs) = a.type ∷ types xs

-- The parameters with defaults come last.
abbrev pub EndsInDefaults : List Param → Type 0
EndsInDefaults ps =
    (front back : List Param) × (ps ≡ front ++ back)
    × All (λ p. p.has_default ≡ false) front
    × All (λ p. p.has_default ≡ true) back

numbers-append : (xs bs : List Argument) → numbers (xs ++ bs) ≡ numbers xs ++ numbers bs
numbers-append [] bs = refl
numbers-append (a ∷ xs) bs = ap (λ r. a.number ∷ r) (numbers-append xs bs)

types-append : (xs bs : List Argument) → types (xs ++ bs) ≡ types xs ++ types bs
types-append [] bs = refl
types-append (a ∷ xs) bs = ap (λ r. a.type ∷ r) (types-append xs bs)

length-numbers : (xs : List Argument) → length (numbers xs) ≡ length xs
length-numbers [] = refl
length-numbers (a ∷ xs) = ap suc (length-numbers xs)

append_assoc : (xs ys zs : List Expr) → (xs ++ ys) ++ zs ≡ xs ++ (ys ++ zs)
append_assoc [] ys zs = refl
append_assoc (x ∷ xs) ys zs = ap (λ r. x ∷ r) (append_assoc xs ys zs)

append_nil : (xs : List Expr) → xs ++ [] ≡ xs
append_nil [] = refl
append_nil (x ∷ xs) = ap (λ r. x ∷ r) (append_nil xs)

-- Each parameter has one name.
abbrev OneNamed : List Param → Type 0
OneNamed = All (λ p. (n : String) × (p.names ≡ n ∷ []))

one_name-cases : (ns : List String) → one_name ns ≡ true → (n : String) × (ns ≡ n ∷ [])
one_name-cases [] h = absurd (cc)
one_name-cases (n ∷ []) h = (n, refl)
one_name-cases (n ∷ m ∷ ns) h = absurd (cc)

check_params-step :
    (before : Bool) (p : Param) (ps : List Param)
    → check_params before (p ∷ ps) ≡ none
    → (one_name p.names ≡ true)
      × ((not p.has_default && before) ≡ false)
      × (check_params (before || p.has_default) ps ≡ none)
unfolding check_params
check_params-step before p ps h =
    split (one_name p.names) (not p.has_default && before)
      (check_params (before || p.has_default) ps) h
  where
    split :
        (one late : Bool) (rest : Option ParamsError)
        → (if not one then some own_name else if late then some default_order else rest) ≡ none
        → (one ≡ true) × (late ≡ false) × (rest ≡ none)
    split true false rest e = (refl, refl, e)
    split true true rest e = cc
    split false late rest e = cc

check_params-OneNamed :
    (before : Bool) (ps : List Param) → check_params before ps ≡ none → OneNamed ps
check_params-OneNamed before [] h = tt
check_params-OneNamed before (p ∷ ps) h =
    let (one, order, rest) = check_params-step before p ps h in
    (one_name-cases p.names one, check_params-OneNamed (before || p.has_default) ps rest)

check_params-All :
    (ps : List Param) → check_params true ps ≡ none → All (λ p. p.has_default ≡ true) ps
check_params-All [] h = tt
check_params-All (p ∷ ps) h =
    let (one, order, rest) = check_params-step true p ps h in
    (marked p.has_default order, check_params-All ps rest)
  where
    marked : (d : Bool) → (not d && true) ≡ false → d ≡ true
    marked true e = refl
    marked false e = cc

check_params-EndsInDefaults : (ps : List Param) → check_params false ps ≡ none → EndsInDefaults ps
check_params-EndsInDefaults [] h = ([], [], refl, tt, tt)
check_params-EndsInDefaults (p ∷ ps) h =
    let (one, order, rest) = check_params-step false p ps h in
    elim (Bool-cases p.has_default) [
      | inl marked ↦ (
        [],
        p ∷ ps,
        refl,
        tt,
        (marked, check_params-All ps (subst (λ b. check_params b ps ≡ none) marked rest)),
      )
      | inr plain ↦
          let (front, back, split, before, after) =
            check_params-EndsInDefaults ps (subst (λ b. check_params b ps ≡ none) plain rest) in
          (p ∷ front, back, ap (λ r. p ∷ r) split, (plain, before), after)
    ]

parameters-agree :
    (ps : List Param) (result : List Argument)
    → OneNamed ps
    → (numbers (parameters result ps) ≡ argument_names (numbers result) ps)
      × (types (parameters result ps) ≡ types result ++ signature_params ps)
unfolding parameters argument_names signature_params
parameters-agree [] result h = (refl, sym (append_nil (types result)))
parameters-agree (p ∷ ps) result ((n, named), h) = elim (Bool-cases (str_eq n "this")) [
  | inl receiver ↦ rw (named, receiver) (parameters-agree ps result h)
  | inr other ↦
      let new : List Argument = record { number = length result; type = p.type } ∷ [] in
      let (same, kinds) = parameters-agree ps (result ++ new) h in
      rw (named, other)
        (
          same
              ∙ ap (λ ns. argument_names ns ps)
                  (numbers-append result new
                    ∙ ap (λ k. numbers result ++ (k ∷ [])) (sym (length-numbers result))),
          kinds
              ∙ ap (λ ts. ts ++ signature_params ps) (types-append result new)
              ∙ append_assoc (types result) (p.type ∷ []) (signature_params ps),
        )
]

-- Of a function whose parameters are accepted, the parameters with defaults come last; a wrapper
-- declares the arguments under the same numbers under which it passes them on; and their types are
-- those on the left of the signature, one for each argument, in order.
pub parameters-exact :
    (ps : List Param)
    → check_params false ps ≡ none
    → EndsInDefaults ps
      × (numbers (parameters [] ps) ≡ argument_names [] ps)
      × (types (parameters [] ps) ≡ signature_params ps)
parameters-exact ps h =
    let (same, kinds) = parameters-agree ps [] (check_params-OneNamed false ps h) in
    (check_params-EndsInDefaults ps h, same, kinds)
