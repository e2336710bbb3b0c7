-- ===== src/Classes/Overrides.antt =====
-- Proofs about the override checks of `prepareClasses` in internal/compiler/class_model.go.
use ghi.Prelude.{
  ◌≤◌, String, ◌≡◌, refl, subst, Bool, true, false, ◌&&◌, not, Option, none, some, List, [], ◌∷◌,
  ◌++◌, arith, ltb, Bool-cases, Option-cases, inl, inr, str_eq, eq_iff, if◌then◌else◌,
}
use ghi.Classes.Model.{
  MethodDecl, ClassDecl, find_method, method, or_else, visibility_rank, OverrideError,
  no_accessible_parent, override_missing, incompatible_signature, reduces_visibility, is_private,
  check_override, check_methods,
}

all_passed :
    (marked hidden same less : Bool)
    → (if marked && hidden
        then some no_accessible_parent
        else if not marked
        then some override_missing
        else if not same
        then some incompatible_signature
        else if less
        then some reduces_visibility
        else none)
      ≡ none
    → (marked ≡ true) × (hidden ≡ false) × (same ≡ true) × (less ≡ false)
all_passed true false true false h = (refl, refl, refl, refl)
all_passed true false true true h = cc
all_passed true false false less h = cc
all_passed true true same less h = cc
all_passed false hidden same less h = cc

or_else-none : (a b : Option OverrideError) → or_else a b ≡ none → (a ≡ none) × (b ≡ none)
or_else-none none b h = (refl, h)
or_else-none (some e) b h = cc

module _ (signature : MethodDecl → ClassDecl → String) where
  -- All methods of the classes passed the override checks.
  abbrev pub ArePrepared : List ClassDecl → Type 0
  ArePrepared [] = Unit
  ArePrepared (c ∷ parents) =
      (check_methods signature c parents c.methods ≡ none) × ArePrepared parents

  -- In `c`, `m` is a declared override of a method that is not private, at least as visible as it
  -- and with the same signature text.
  pub record Overrides (c : ClassDecl) (m base : MethodDecl) : Type 0 where
    pub declared : m.override ≡ true
    pub visible : is_private base.visibility ≡ false
    pub same : signature m c ≡ signature base c
    pub rank : visibility_rank base.visibility ≤ visibility_rank m.visibility

  check_override-Overrides :
      (c : ClassDecl) (m base : MethodDecl)
      → check_override signature c m (some base) ≡ none
      → Overrides c m base
  unfolding check_override
  check_override-Overrides c m base h =
      let (marked, shown, same, kept) =
        all_passed m.override (is_private base.visibility)
          (str_eq (signature m c) (signature base c))
          (ltb (visibility_rank m.visibility) (visibility_rank base.visibility)) h in
      record {
        declared = marked;
        visible = shown;
        same = (eq_iff (signature m c) (signature base c)).0 same;
        rank = ground arith;
      }

  check_methods-each :
      (c : ClassDecl) (parents : List ClassDecl) (ms : List MethodDecl) (name : String)
      (m : MethodDecl)
      → check_methods signature c parents ms ≡ none
      → find_method ms name ≡ some m
      → check_override signature c m (method parents name) ≡ none
  unfolding check_methods find_method
  check_methods-each c parents [] name m h found = cc
  check_methods-each c parents (n ∷ ms) name m h found =
      let (now, later) = or_else-none (check_override signature c n (method parents n.name)) _ h in
      elim (Bool-cases (str_eq n.name name)) [
        | inl here ↦
            let same : n ≡ m = cc (rw here at found) in
            subst (λ x. check_override signature c x (method parents name) ≡ none) same
              (subst (λ t. check_override signature c n (method parents t) ≡ none)
                ((eq_iff n.name name).0 here) now)
        | inr there ↦ check_methods-each c parents ms name m later (rw there at found)
      ]

  -- The method that a lookup finds stands in for another one: it is that method, or it overrides it
  -- where it is declared, perhaps over others between them.
  pub data StandsFor : List ClassDecl → MethodDecl → MethodDecl → Type 0 where
    itself : {chain : List ClassDecl} {m : MethodDecl} → StandsFor chain m m
    inherited :
        {c : ClassDecl} {parents : List ClassDecl} {m base : MethodDecl}
        → StandsFor parents m base
        → StandsFor (c ∷ parents) m base
    overriding :
        {c : ClassDecl} {parents : List ClassDecl} {m next base : MethodDecl}
        → Overrides c m next
        → StandsFor parents next base
        → StandsFor (c ∷ parents) m base

  StandsFor-rank :
      {chain : List ClassDecl} {m base : MethodDecl}
      → StandsFor chain m base
      → visibility_rank base.visibility ≤ visibility_rank m.visibility
  StandsFor-rank itself = omega arith
  StandsFor-rank (inherited rest) = StandsFor-rank rest
  StandsFor-rank (overriding over rest) = omega (arith, over.rank, StandsFor-rank rest)

  method-StandsFor :
      (front back : List ClassDecl) (name : String) (base : MethodDecl)
      → ArePrepared (front ++ back)
      → method back name ≡ some base
      → (m : MethodDecl) × (method (front ++ back) name ≡ some m) × StandsFor (front ++ back) m base
  unfolding method
  method-StandsFor [] back name base prepared found = (base, found, itself)
  method-StandsFor (c ∷ front) back name base (checked, prepared) found =
      let (next, above, rest) = method-StandsFor front back name base prepared found in
      elim (Option-cases (find_method c.methods name)) [
        | inl nothing ↦ (next, rw nothing above, inherited rest)
        | inr (m, own) ↦ (
          m,
          rw own refl,
          overriding
              (check_override-Overrides c m next
                (rw above at (check_methods-each c (front ++ back) c.methods name m checked own)))
              rest,
        )
      ]

  -- Where all classes of a chain passed the override checks, a method that a lookup finds from an
  -- ancestor is found from every descendant too: as the same method or as one that overrides it, by
  -- declared overrides with the same signature of methods that are not private, and never with less
  -- visibility.
  pub method-substitutable :
      (front back : List ClassDecl) (name : String) (base : MethodDecl)
      → ArePrepared (front ++ back)
      → method back name ≡ some base
      → (m : MethodDecl) × (method (front ++ back) name ≡ some m)
        × StandsFor (front ++ back) m base
        × (visibility_rank base.visibility ≤ visibility_rank m.visibility)
  method-substitutable front back name base prepared found =
      let (m, lookup, stands) = method-StandsFor front back name base prepared found in
      (m, lookup, stands, StandsFor-rank stands)
