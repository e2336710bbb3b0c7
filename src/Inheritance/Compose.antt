-- ===== src/Inheritance/Compose.antt =====
-- Proofs about `substituteType` of internal/compiler/inheritance.go: one substitution after another.
use ghi.Prelude.{
  String, ◌≡◌, refl, ◌∙◌, ap, inl, inr, Bool, true, false, Option, none, some, List, [], ◌∷◌,
  str_eq, map, Bool-cases, ◌⊎◌,
}
use ghi.Syntax.{
  Expr, absent, ident, ellipsis, paren, index_expr, index_list, star, unary, binary, array_type,
  struct_type, func_type, interface_type, map_type, chan_type, Exprs, no_exprs, more_exprs, Fields,
  no_fields, more_fields,
}
use ghi.Inheritance.Types.{
  Bindings, some_expr, lookup, class_bindings, replaced, substitute_name, substitute_type,
  substitute_types, substitute_fields,
}

abbrev pub map_option : (Expr → Expr) → Option Expr → Option Expr
map_option f none = none
map_option f (some e) = some (f e)

abbrev pub map_values : (Expr → Expr) → Bindings → Bindings
map_values f [] = []
map_values f ((n, e) ∷ b) = (n, f e) ∷ map_values f b

pub class_bindings-map :
    (f : Expr → Expr) (ns : List String) (args : List Expr) (b : Bindings)
    → class_bindings ns (map f args) (map_values f b) ≡ map_values f (class_bindings ns args b)
unfolding class_bindings
class_bindings-map f [] args b = refl
class_bindings-map f (n ∷ ns) [] b = refl
class_bindings-map f (n ∷ ns) (a ∷ args) b = class_bindings-map f ns args ((n, a) ∷ b)

some_expr_idem : (e v : Expr) → some_expr e ≡ some v → some_expr v ≡ some v
some_expr_idem absent v h = cc
some_expr_idem e v h = ap some_expr (inj e v h) ∙ h
  where
    inj : (a b : Expr) → ◌≡◌ {A = Option Expr} (some a) (some b) → b ≡ a
    inj a b h = cc

lookup-present : (b : Bindings) (x : String) (v : Expr) → lookup b x ≡ some v → some_expr v ≡ some v
lookup-present [] x v h = cc
lookup-present ((n, e) ∷ b) x v h = elim (Bool-cases (str_eq n x)) [
  | inl here ↦ some_expr_idem e v (rw here at h)
  | inr other ↦ lookup-present b x v (rw other at h)
]

module _ (resolved : String → Bool) where
  some-replaced :
      (b : Bindings) (x : String) (o : Option Expr)
      → lookup b x ≡ o
      → some_expr (replaced x o) ≡ some (replaced x o)
  some-replaced b x none h = refl
  some-replaced b x (some v) h = lookup-present b x v h

  some-substitute_name :
      (b : Bindings) (x : String)
      → some_expr (substitute_name resolved b x) ≡ some (substitute_name resolved b x)
  some-substitute_name b x = elim (Bool-cases (resolved x)) [
    | inl free ↦ rw free refl
    | inr bound ↦ rw bound (some-replaced b x (lookup b x) refl)
  ]

  -- A type that is there stays there.
  some-substitute_type :
      (b : Bindings) (e : Expr)
      → some_expr (substitute_type resolved b e)
        ≡ map_option (substitute_type resolved b) (some_expr e)
  unfolding substitute_type
  some-substitute_type b (ident x) = some-substitute_name b x
  some-substitute_type b absent = refl
  some-substitute_type b _ = refl

  lookup-map_values :
      (b c : Bindings) (x : String)
      → lookup (map_values (substitute_type resolved c) b) x
        ≡ map_option (substitute_type resolved c) (lookup b x)
  lookup-map_values [] c x = refl
  lookup-map_values ((n, e) ∷ b) c x = elim (Bool-cases (str_eq n x)) [
    | inl here ↦ rw here (some-substitute_type c e)
    | inr other ↦ rw other (lookup-map_values b c x)
  ]

  -- A name is a parameter of the inner substitution, or the outer one leaves it.
  abbrev pub NameFits : Bindings → Bindings → String → Type 0
  NameFits b c x = (resolved x ≡ true) ⊎ ((v : Expr) × (lookup b x ≡ some v)) ⊎ (lookup c x ≡ none)

  unfoldable mutual
    -- Every name of a type that a substitution reads.
    pub Fits : Bindings → Bindings → Expr → Type 0
    Fits b c (ident x) = NameFits b c x
    Fits b c (index_expr x index) = Fits b c x × Fits b c index
    Fits b c (index_list x indices) = Fits b c x × AllFit b c indices
    Fits b c (array_type len elt) = Fits b c elt
    Fits b c (star x) = Fits b c x
    Fits b c (map_type key value) = Fits b c key × Fits b c value
    Fits b c (chan_type value) = Fits b c value
    Fits b c (ellipsis elt) = Fits b c elt
    Fits b c (paren x) = Fits b c x
    Fits b c (func_type params results) = FieldsFit b c params × FieldsFit b c results
    Fits b c (struct_type fields) = FieldsFit b c fields
    Fits b c (interface_type methods) = FieldsFit b c methods
    Fits b c (unary op x) = Fits b c x
    Fits b c (binary op x y) = Fits b c x × Fits b c y
    Fits b c _ = Unit

    AllFit : Bindings → Bindings → Exprs → Type 0
    AllFit b c no_exprs = Unit
    AllFit b c (more_exprs x xs) = Fits b c x × AllFit b c xs

    FieldsFit : Bindings → Bindings → Fields → Type 0
    FieldsFit b c no_fields = Unit
    FieldsFit b c (more_fields names typ fields) = Fits b c typ × FieldsFit b c fields

  replaced_compose :
      (c : Bindings) (x : String) (o : Option Expr)
      → resolved x ≡ false
      → (o ≡ none → lookup c x ≡ none)
      → substitute_type resolved c (replaced x o)
        ≡ replaced x (map_option (substitute_type resolved c) o)
  unfolding substitute_type
  replaced_compose c x none open_ stays = rw (open_, stays refl) refl
  replaced_compose c x (some v) open_ stays = refl

  NameFits-none :
      (b c : Bindings) (x : String)
      → NameFits b c x
      → resolved x ≡ false
      → lookup b x ≡ none
      → lookup c x ≡ none
  NameFits-none b c x (inl free) open_ missing = absurd (cc)
  NameFits-none b c x (inr (inl (v, bound))) open_ missing = absurd (cc)
  NameFits-none b c x (inr (inr stays)) open_ missing = stays

  substitute_name_compose :
      (b c : Bindings) (x : String)
      → NameFits b c x
      → substitute_type resolved c (substitute_name resolved b x)
        ≡ substitute_name resolved (map_values (substitute_type resolved c) b) x
  unfolding substitute_type
  substitute_name_compose b c x fits = elim (Bool-cases (resolved x)) [
    | inl free ↦ rw free (rw free refl)
    | inr open_ ↦
        rw (open_, lookup-map_values b c x)
          (replaced_compose c x (lookup b x) open_
            (λ missing. NameFits-none b c x fits open_ missing))
  ]

  -- One substitution after another is the one that puts the second into the values of the first.
  mutual
    unfolding substitute_type Fits

    pub substitute_type_compose :
        (b c : Bindings) (e : Expr)
        → Fits b c e
        → substitute_type resolved c (substitute_type resolved b e)
          ≡ substitute_type resolved (map_values (substitute_type resolved c) b) e
    substitute_type_compose b c (ident x) h = substitute_name_compose b c x h
    substitute_type_compose b c (index_expr x index) h =
        rw (substitute_type_compose b c x h.0, substitute_type_compose b c index h.1) refl
    substitute_type_compose b c (index_list x indices) h =
        rw (substitute_type_compose b c x h.0, substitute_types_compose b c indices h.1) refl
    substitute_type_compose b c (array_type len elt) h =
        ap (array_type len) (substitute_type_compose b c elt h)
    substitute_type_compose b c (star x) h = ap star (substitute_type_compose b c x h)
    substitute_type_compose b c (map_type key value) h =
        rw (substitute_type_compose b c key h.0, substitute_type_compose b c value h.1) refl
    substitute_type_compose b c (chan_type value) h =
        ap chan_type (substitute_type_compose b c value h)
    substitute_type_compose b c (ellipsis elt) h = ap ellipsis (substitute_type_compose b c elt h)
    substitute_type_compose b c (paren x) h = ap paren (substitute_type_compose b c x h)
    substitute_type_compose b c (func_type params results) h =
        rw (substitute_fields_compose b c params h.0, substitute_fields_compose b c results h.1)
          refl
    substitute_type_compose b c (struct_type fields) h =
        ap struct_type (substitute_fields_compose b c fields h)
    substitute_type_compose b c (interface_type methods) h =
        ap interface_type (substitute_fields_compose b c methods h)
    substitute_type_compose b c (unary op x) h = ap (unary op) (substitute_type_compose b c x h)
    substitute_type_compose b c (binary op x y) h =
        rw (substitute_type_compose b c x h.0, substitute_type_compose b c y h.1) refl
    substitute_type_compose b c _ h = refl

    substitute_types_compose :
        (b c : Bindings) (es : Exprs)
        → AllFit b c es
        → substitute_types resolved c (substitute_types resolved b es)
          ≡ substitute_types resolved (map_values (substitute_type resolved c) b) es
    substitute_types_compose b c no_exprs h = refl
    substitute_types_compose b c (more_exprs x xs) h =
        rw (substitute_type_compose b c x h.0, substitute_types_compose b c xs h.1) refl

    substitute_fields_compose :
        (b c : Bindings) (fs : Fields)
        → FieldsFit b c fs
        → substitute_fields resolved c (substitute_fields resolved b fs)
          ≡ substitute_fields resolved (map_values (substitute_type resolved c) b) fs
    substitute_fields_compose b c no_fields h = refl
    substitute_fields_compose b c (more_fields names typ fields) h =
        rw (substitute_type_compose b c typ h.0, substitute_fields_compose b c fields h.1) refl
