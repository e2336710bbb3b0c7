-- ===== src/Construction/Parts.antt =====
-- Proofs about the parts of `step` in internal/compiler/construction_flow.go: the reads of
-- expressions and the assignments.
use ghi.Prelude.{
  String, ◌≡◌, refl, ◌⊎◌, inl, inr, Bool, true, false, List, [], ◌∷◌, ◌++◌, Option, none, some,
  arith, eq_iff, str_eq, Bool-cases, if◌then◌else◌,
}
use ghi.Syntax.{
  Expr, Exprs, no_exprs, more_exprs, Specs, no_specs, value_spec, type_spec, Token, is_call,
}
use ghi.Construction.Visit.{
  Visit, this_field, parent_method, this_itself, this_field_of, visit, visit_exprs,
}
use ghi.Construction.Flow.{
  Initialized, Flow, falls, throws, returns, breaks, continues, goes, falls_through, flow_eq, Exit,
  read_visits,
}
use ghi.Construction.Exits.{is_assign}
use ghi.Construction.Steps.{
  read, read_exprs, set_target, target_errors, assign_targets, read_specs, plain_step,
}
use ghi.Construction.Runs.{
  Sub, Outcome, ends, faults, Faults, target_visit, target_visits, set_field, assigned,
  value_visits, is_normal, plain_end,
}
use ghi.Construction.Covers.{Covers, Good, append-eq-nil}
use ghi.Construction.Lowered.{SimpleTargets}

-- A map of exits that keeps the covers of every flow but the normal one.
pub Good-abrupt :
    (xs ys : List Exit) (r : Outcome)
    → is_normal r ≡ false
    → ((flow : Flow) (σ : Initialized)
        → flow_eq flow falls ≡ false
        → Covers xs flow σ
        → Covers ys flow σ)
    → Good xs r
    → Good ys r
Good-abrupt xs ys faults a h g = g
Good-abrupt xs ys (ends throws σ) a h g = tt
Good-abrupt xs ys (ends falls σ) a h g = absurd (cc)
Good-abrupt xs ys (ends returns σ) a h g = h returns σ refl g
Good-abrupt xs ys (ends breaks σ) a h g = h breaks σ refl g
Good-abrupt xs ys (ends continues σ) a h g = h continues σ refl g
Good-abrupt xs ys (ends goes σ) a h g = h goes σ refl g
Good-abrupt xs ys (ends falls_through σ) a h g = h falls_through σ refl g

pub Good-of_Covers :
    (xs : List Exit) (flow : Flow) (σ : Initialized) → Covers xs flow σ → Good xs (ends flow σ)
Good-of_Covers xs falls σ c = c
Good-of_Covers xs throws σ c = tt
Good-of_Covers xs returns σ c = c
Good-of_Covers xs breaks σ c = c
Good-of_Covers xs continues σ c = c
Good-of_Covers xs goes σ c = c
Good-of_Covers xs falls_through σ c = c

pub Faults-append :
    (required : List String) (xs ys : List Visit) (σ : Initialized)
    → Faults required (xs ++ ys) σ
    → Faults required xs σ ⊎ Faults required ys σ
Faults-append required [] ys σ h = inr h
Faults-append required (this_field g ∷ xs) ys σ (f, rd, need, unset) =
    elim (Bool-cases (str_eq g f)) [
      | inl same ↦ inl (f, rw same, need, unset)
      | inr other ↦ elim (Faults-append required xs ys σ (f, rw other at rd, need, unset)) [
        | inl (f', rd', need', unset') ↦ inl (f', ground arith, need', unset')
        | inr there ↦ inr there
      ]
    ]
Faults-append required (parent_method m ∷ xs) ys σ h = Faults-append required xs ys σ h
Faults-append required (this_itself ∷ xs) ys σ h = Faults-append required xs ys σ h

module _ (fields required : List String) (st σ : Initialized) (sub : Sub st σ) where
  pub read_visits_sound :
      (vs : List Visit) → read_visits fields required st vs ≡ [] → ¬ Faults required vs σ
  unfolding read_visits
  read_visits_sound [] quiet (f, rd, need, unset) = cc
  read_visits_sound (this_field g ∷ vs) quiet (f, rd, need, unset) =
      elim (Bool-cases (str_eq g f)) [
        | inl same ↦ ground (arith, (eq_iff g f).0 same, sub f)
        | inr other ↦
            read_visits_sound vs (append-eq-nil _ _ quiet).1 (f, rw other at rd, need, unset)
      ]
  read_visits_sound (parent_method m ∷ vs) quiet h = cc
  read_visits_sound (this_itself ∷ vs) quiet h = cc

  pub read_sound : (x : Expr) → read fields required x st ≡ [] → ¬ Faults required (visit x) σ
  unfolding read
  read_sound x quiet = read_visits_sound (visit x) quiet

  pub read_exprs_sound :
      (xs : Exprs) → read_exprs fields required xs st ≡ [] → ¬ Faults required (visit_exprs xs) σ
  unfolding read_exprs visit
  read_exprs_sound no_exprs quiet (f, rd, need, unset) = cc
  read_exprs_sound (more_exprs x xs) quiet h =
      let (q, qs) = append-eq-nil _ _ quiet in
      elim (Faults-append required (visit x) (visit_exprs xs) σ h) [
        | inl now ↦ read_sound x q now
        | inr later ↦ read_exprs_sound xs qs later
      ]

  pub read_specs_sound :
      (specs : Specs)
      → read_specs fields required specs st ≡ []
      → ¬ Faults required (value_visits specs) σ
  unfolding read_specs
  read_specs_sound no_specs quiet (f, rd, need, unset) = cc
  read_specs_sound (value_spec names type values rest) quiet h =
      let (q, qs) = append-eq-nil _ _ quiet in
      elim (Faults-append required (visit_exprs values) (value_visits rest) σ h) [
        | inl now ↦ read_exprs_sound values q now
        | inr later ↦ read_specs_sound rest qs later
      ]
  read_specs_sound (type_spec name type rest) quiet h = read_specs_sound rest quiet h

  nothing_read : ¬ Faults required [] σ
  nothing_read (f, rd, need, unset) = cc

  target_sound :
      (plain : Bool) (field : Option String) (x : Expr)
      → target_errors fields required (if plain then field else none) x st ≡ []
      → ¬ Faults required (target_visit plain field x) σ
  target_sound true (some name) x quiet = nothing_read
  target_sound true none x quiet = read_sound x quiet
  target_sound false field x quiet = read_sound x quiet

  pub targets_sound :
      (lhs : Exprs) (tok : Token)
      → SimpleTargets lhs tok
      → (assign_targets fields required lhs tok st).errors ≡ []
      → ¬ Faults required (target_visits lhs tok) σ
  unfolding assign_targets
  targets_sound no_exprs tok simple quiet h = nothing_read h
  targets_sound (more_exprs x no_exprs) tok simple quiet h =
      elim (Faults-append required (target_visit (is_assign tok) (this_field_of x) x) [] σ h) [
        | inl now ↦ target_sound (is_assign tok) (this_field_of x) x (append-eq-nil _ _ quiet).0 now
        | inr later ↦ nothing_read later
      ]
  targets_sound (more_exprs x (more_exprs y ys)) tok simple quiet h = nothing_read (rw simple at h)

set_target-Sub :
    (plain : Bool) (field : Option String) (st σ : Initialized)
    → Sub st σ
    → Sub (set_target (if plain then field else none) st) (set_field plain field σ)
set_target-Sub true (some name) st σ sub f m = ground (arith, sub f)
set_target-Sub true none st σ sub f m = sub f m
set_target-Sub false field st σ sub f m = sub f m

pub assign_targets-Covers :
    (fields required : List String) (lhs : Exprs) (tok : Token) (st σ : Initialized)
    → Sub st σ
    → Covers (assign_targets fields required lhs tok st).exits falls (assigned lhs tok σ)
unfolding assign_targets
assign_targets-Covers fields required no_exprs tok st σ sub = inl (refl, sub)
assign_targets-Covers fields required (more_exprs x xs) tok st σ sub =
    assign_targets-Covers fields required xs tok _ _
      (set_target-Sub (is_assign tok) (this_field_of x) st σ sub)

pub plain_step-errors :
    (fields required : List String) (x : Expr) (st : Initialized)
    → (plain_step fields required x st).errors ≡ read fields required x st
unfolding plain_step
plain_step-errors fields required x st = ground arith

pub plain_step-Good :
    (fields required : List String) (x : Expr) (st σ : Initialized)
    → Sub st σ
    → Good (plain_step fields required x st).exits (plain_end x σ)
unfolding plain_step
plain_step-Good fields required x st σ sub = elim (Bool-cases (is_call x "parent")) [
  | inl p ↦ rw p (inl (refl, λ f m. ground (arith, sub f)))
  | inr p ↦ elim (Bool-cases (is_call x "GhiThrow")) [
    | inl t ↦ rw (p, t) tt
    | inr t ↦ elim (Bool-cases (is_call x "panic")) [
      | inl a ↦ rw (p, t, a) tt
      | inr a ↦ rw (p, t, a) (inl (refl, sub))
    ]
  ]
]
