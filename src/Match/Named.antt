-- ===== src/Match/Named.antt =====
-- Proofs about `validateExhaustiveMatches` of internal/compiler/match_exhaustive.go: which case a
-- candidate names.
use ghi.Prelude.{
  ℕ, String, ◌≡◌, refl, sym, ◌∙◌, ap, inl, inr, ◌||◌, arith, Bool, true, Option, none, some, List,
  [], ◌∷◌, ◌==◌, ==_iff, Bool-cases, Option-cases, str_eq, eq_iff, text_append, text_length,
  text_append_cancel, contains, eq_refl,
}
use ghi.Syntax.{Expr, paren, call, ident, selector, Exprs}
use ghi.Match.Exhaustive.{
  Object, EnumDecl, enum_symbol, unparen, called, case_named, case_of, candidate,
}

-- An expression is, within parentheses or not, a call of a function by its name, alone or after
-- what selects it, and the name stands for this object.
pub data Calls (object_of : Expr → Option Object) (o : Object) : Expr → Type 0 where
  by_name :
      {x : String} {args : Exprs}
      → object_of (ident x) ≡ some o
      → Calls object_of o (call (ident x) args)
  selected :
      {x : Expr} {name : String} {args : Exprs}
      → object_of (ident name) ≡ some o
      → Calls object_of o (call (selector x name) args)
  in_parens : {x : Expr} → Calls object_of o x → Calls object_of o (paren x)

enum_symbol-inj :
    (itoa : ℕ → String) (name c d : String)
    → enum_symbol itoa name c ≡ enum_symbol itoa name d
    → c ≡ d
unfolding enum_symbol
enum_symbol-inj itoa name c d same = text_append_cancel "_" c d (
    text_append_cancel name (text_append "_" c) (text_append "_" d) (
      text_append_cancel "_" _ _ (
        text_append_cancel (itoa (text_length name)) _ _ (text_append_cancel "GhiEnum_" _ _ same))))

some_inj : {c d : String} → ◌≡◌ {A = Option String} (some c) (some d) → c ≡ d
some_inj h = cc

module _ (itoa : ℕ → String) (object_of : Expr → Option Object) where
  case_named_sound :
      (enum symbol : String) (cs : List String) (c : String)
      → case_named itoa object_of enum symbol cs ≡ some c
      → (symbol ≡ enum_symbol itoa enum c) × (contains cs c ≡ true)
  unfolding case_named
  case_named_sound enum symbol [] c h = absurd (cc)
  case_named_sound enum symbol (d ∷ cs) c h =
      elim (Option-cases (case_named itoa object_of enum symbol cs)) [
        | inl none_ ↦ elim (Bool-cases (str_eq symbol (enum_symbol itoa enum d))) [
          | inl same ↦
              let is_d : d ≡ c = some_inj (rw (none_, same) at h) in
              (
                (eq_iff symbol (enum_symbol itoa enum d)).0 same ∙ ap (enum_symbol itoa enum) is_d,
                rw (sym is_d, eq_refl d) refl,
              )
          | inr other ↦ absurd (cc (rw (none_, other) at h))
        ]
        | inr (later, found) ↦
            let is_later : later ≡ c = some_inj (rw found at h) in
            let (symbol_is, member) =
              case_named_sound enum symbol cs c (found ∙ ap some is_later) in
            (symbol_is, or_later (str_eq d c) (contains cs c) member)
      ]
    where
      or_later : (a b : Bool) → b ≡ true → (a || b) ≡ true
      or_later a b h = ground arith

  case_named_complete :
      (enum : String) (cs : List String) (c : String)
      → contains cs c ≡ true
      → case_named itoa object_of enum (enum_symbol itoa enum c) cs ≡ some c
  unfolding case_named
  case_named_complete enum [] c member = absurd (cc)
  case_named_complete enum (d ∷ cs) c member =
      elim (Option-cases (case_named itoa object_of enum (enum_symbol itoa enum c) cs)) [
        | inl none_ ↦ elim (Bool-cases (str_eq d c)) [
          | inl same ↦
              let is_c : d ≡ c = (eq_iff d c).0 same in
              rw (none_, is_c, eq_refl (enum_symbol itoa enum c)) refl
          | inr other ↦
              absurd (not_both (sym none_ ∙ case_named_complete enum cs c (rw other at member)))
        ]
        | inr (later, found) ↦
            let (symbol_is, member') =
              case_named_sound enum (enum_symbol itoa enum c) cs later found in
            rw found (ap some (sym (enum_symbol-inj itoa enum c later symbol_is)))
      ]
    where
      not_both : {c : String} → ◌≡◌ {A = Option String} none (some c) → ⊥
      not_both h = cc

  -- A candidate calls the function of a case of the enum: one of the enum's package, with the
  -- symbol of that case.
  abbrev pub IsNamed : EnumDecl → Expr → String → Type 0
  IsNamed e x c =
      (o : Object) × Calls object_of o x
      × (o.pkg ≡ e.pkg)
      × (o.name ≡ enum_symbol itoa e.name c)
      × (contains e.cases c ≡ true)

  case_of_sound :
      (e : EnumDecl) (found : Option Object) (c : String)
      → case_of itoa object_of e found ≡ some c
      → (o : Object) × (found ≡ some o)
        × (o.pkg ≡ e.pkg)
        × (o.name ≡ enum_symbol itoa e.name c)
        × (contains e.cases c ≡ true)
  unfolding case_of
  case_of_sound e none c h = absurd (cc)
  case_of_sound e (some o) c h = elim (Bool-cases (o.pkg == e.pkg)) [
    | inl same ↦
        let (named, member) = case_named_sound e.name o.name e.cases c (rw same at h) in
        (o, refl, (==_iff o.pkg e.pkg).0 same, named, member)
    | inr other ↦ absurd (cc (rw other at h))
  ]

  case_of_complete :
      (e : EnumDecl) (o : Object) (c : String)
      → o.pkg ≡ e.pkg
      → o.name ≡ enum_symbol itoa e.name c
      → contains e.cases c ≡ true
      → case_of itoa object_of e (some o) ≡ some c
  unfolding case_of
  case_of_complete e o c pkg name member =
      rw ((==_iff o.pkg e.pkg).1 pkg, name) (case_named_complete e.name e.cases c member)

  pub candidate_sound :
      (e : EnumDecl) (x : Expr) (c : String)
      → candidate itoa object_of e (unparen x) ≡ some c
      → IsNamed e x c
  unfolding candidate unparen called
  candidate_sound e (paren x) c h =
      let (o, calls, pkg, named, member) = candidate_sound e x c h in
      (o, in_parens calls, pkg, named, member)
  candidate_sound e (call (ident x) args) c h =
      let (o, found, pkg, named, member) = case_of_sound e (object_of (ident x)) c h in
      (o, by_name found, pkg, named, member)
  candidate_sound e (call (selector x name) args) c h =
      let (o, found, pkg, named, member) = case_of_sound e (object_of (ident name)) c h in
      (o, selected found, pkg, named, member)
  candidate_sound e (call _ args) c h = absurd (cc (case_of_sound e none c h).1)
  candidate_sound e _ c h = absurd (cc)

  candidate-Calls :
      (e : EnumDecl) (o : Object) {x : Expr}
      → Calls object_of o x
      → candidate itoa object_of e (unparen x) ≡ case_of itoa object_of e (some o)
  unfolding candidate unparen called
  candidate-Calls e o (by_name found) = ap (case_of itoa object_of e) found
  candidate-Calls e o (selected found) = ap (case_of itoa object_of e) found
  candidate-Calls e o (in_parens calls) = candidate-Calls e o calls

  pub candidate_complete :
      (e : EnumDecl) (x : Expr) (c : String)
      → IsNamed e x c
      → candidate itoa object_of e (unparen x) ≡ some c
  candidate_complete e x c (o, calls, pkg, name, member) =
      candidate-Calls e o calls ∙ case_of_complete e o c pkg name member
