-- ===== src/Classes/Members.antt =====
-- Proofs about `allMethods` and `method` of internal/compiler/class_model.go.
use ghi.Prelude.{
  String, ◌≡◌, refl, ◌∙◌, ap, subst, Bool, true, false, ◌||◌, Option, none, some, List, [], ◌∷◌,
  arith, Bool-cases, inl, inr, str_eq, eq_iff, if◌then◌else◌, contains, IsDistinct,
}
use ghi.Classes.Model.{
  MethodDecl, ClassDecl, find_method, method, put_method, put_methods, all_methods, or_else,
}

abbrev pub method_names : List MethodDecl → List String
method_names [] = []
method_names (m ∷ ms) = m.name ∷ method_names ms

-- In each class no method name is declared twice.
abbrev pub AreDistinct : List ClassDecl → Type 0
AreDistinct [] = Unit
AreDistinct (c ∷ parents) = IsDistinct (method_names c.methods) × AreDistinct parents

abbrev newest : Option MethodDecl → Option MethodDecl → Option MethodDecl
newest (some m) old = some m
newest none old = old

str_eq_trans : (a b c : String) → str_eq a b ≡ true → str_eq a c ≡ str_eq b c
str_eq_trans a b c same = ap (λ x. str_eq x c) ((eq_iff a b).0 same)

str_eq_sym : (a b : String) → str_eq b a ≡ str_eq a b
str_eq_sym a b = ground (arith, eq_iff a b, eq_iff b a)

find-put_method :
    (result : List MethodDecl) (m : MethodDecl) (name : String)
    → find_method (put_method result m) name
      ≡ (if str_eq m.name name then some m else find_method result name)
unfolding find_method put_method
find-put_method [] m name = refl
find-put_method (old ∷ result) m name =
    let rest = find-put_method result m name in
    elim (Bool-cases (str_eq old.name m.name)) [
      | inl same ↦ rw (same, str_eq_trans old.name m.name name same) (keep (str_eq m.name name))
      | inr other ↦ elim (Bool-cases (str_eq m.name name)) [
        | inl here ↦
            let apart : str_eq old.name name ≡ false =
              subst (λ n. str_eq old.name n ≡ false) ((eq_iff m.name name).0 here) other in
            rw (other, apart, find_method) rest
        | inr there ↦
            rw (other, there, find_method)
              (ap (λ o. if str_eq old.name name then some old else o) (rw there at rest))
      ]
    ]
  where
    keep :
        (b : Bool)
        → (if b then some m else find_method result name)
          ≡ (if b then some m else if b then some old else find_method result name)
    keep true = refl
    keep false = refl

contains-find :
    (ms : List MethodDecl) (name : String)
    → contains (method_names ms) name ≡ false
    → find_method ms name ≡ none
unfolding find_method
contains-find [] name h = refl
contains-find (m ∷ ms) name h = ground (arith, contains-find ms name)

find-put_methods :
    (result ms : List MethodDecl) (name : String)
    → IsDistinct (method_names ms)
    → find_method (put_methods result ms) name
      ≡ newest (find_method ms name) (find_method result name)
unfolding put_methods find_method
find-put_methods result [] name distinct = refl
find-put_methods result (m ∷ ms) name (new, distinct) = elim (Bool-cases (str_eq m.name name)) [
  | inl here ↦
      let later : find_method ms name ≡ none =
        contains-find ms name
          (subst (λ n. contains (method_names ms) n ≡ false) ((eq_iff m.name name).0 here) new) in
      find-put_methods (put_method result m) ms name distinct
      ∙ rw (later, find-put_method result m name, here) refl
  | inr there ↦
      find-put_methods (put_method result m) ms name distinct
      ∙ rw (find-put_method result m name, there) refl
]

find-all_methods :
    (chain : List ClassDecl) (name : String)
    → AreDistinct chain
    → find_method (all_methods chain) name ≡ method chain name
unfolding all_methods find_method method
find-all_methods [] name distinct = refl
find-all_methods (c ∷ parents) name (own, distinct) =
    find-put_methods (all_methods parents) c.methods name own
    ∙ rw (find-all_methods parents name distinct)
        (agree (find_method c.methods name) (method parents name))
  where
    agree : (a b : Option MethodDecl) → newest a b ≡ or_else a b
    agree none b = refl
    agree (some m) b = refl

contains-put_method :
    (result : List MethodDecl) (m : MethodDecl) (n : String)
    → contains (method_names (put_method result m)) n
      ≡ (contains (method_names result) n || str_eq m.name n)
unfolding put_method
contains-put_method [] m n = ground arith
contains-put_method (old ∷ result) m n =
    let rest = contains-put_method result m n in
    elim (Bool-cases (str_eq old.name m.name)) [
      | inl same ↦
          rw (same, str_eq_trans old.name m.name n same)
            (absorb (str_eq m.name n) (contains (method_names result) n))
      | inr other ↦ rw (other, rest) (ground arith)
    ]
  where
    absorb : (a b : Bool) → (a || b) ≡ ((a || b) || a)
    absorb true b = refl
    absorb false true = refl
    absorb false false = refl

put_method-IsDistinct :
    (result : List MethodDecl) (m : MethodDecl)
    → IsDistinct (method_names result)
    → IsDistinct (method_names (put_method result m))
unfolding put_method
put_method-IsDistinct [] m h = (refl, tt)
put_method-IsDistinct (old ∷ result) m (new, h) = elim (Bool-cases (str_eq old.name m.name)) [
  | inl same ↦ rw same (
    subst (λ n. contains (method_names result) n ≡ false) ((eq_iff old.name m.name).0 same) new,
    h,
  )
  | inr other ↦ rw other (
    contains-put_method result m old.name ∙ rw (new, str_eq_sym old.name m.name, other) refl,
    put_method-IsDistinct result m h,
  )
]

put_methods-IsDistinct :
    (result ms : List MethodDecl)
    → IsDistinct (method_names result)
    → IsDistinct (method_names (put_methods result ms))
unfolding put_methods
put_methods-IsDistinct result [] h = h
put_methods-IsDistinct result (m ∷ ms) h =
    put_methods-IsDistinct (put_method result m) ms (put_method-IsDistinct result m h)

all_methods-IsDistinct : (chain : List ClassDecl) → IsDistinct (method_names (all_methods chain))
unfolding all_methods
all_methods-IsDistinct [] = tt
all_methods-IsDistinct (c ∷ parents) =
    put_methods-IsDistinct (all_methods parents) c.methods (all_methods-IsDistinct parents)

-- Where no class of the chain declares a name twice, `allMethods` lists no method name twice, and
-- the method that it lists under a name is the one that `method` finds.
pub all_methods-exact :
    (chain : List ClassDecl) (name : String)
    → AreDistinct chain
    → IsDistinct (method_names (all_methods chain))
      × (find_method (all_methods chain) name ≡ method chain name)
all_methods-exact chain name distinct =
    (all_methods-IsDistinct chain, find-all_methods chain name distinct)
