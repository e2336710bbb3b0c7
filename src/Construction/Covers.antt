-- ===== src/Construction/Covers.antt =====
-- When a list of exits covers an outcome, for the list operations of
-- internal/compiler/construction_flow.go.
use ghi.Prelude.{
  String, ◌≡◌, refl, ◌⊎◌, inl, inr, true, false, List, [], ◌∷◌, ◌++◌, arith, eq_iff, contains,
  Bool-cases,
}
use ghi.Construction.Flow.{
  Initialized, intersect_fields, Flow, falls, throws, returns, breaks, continues, goes,
  falls_through, flow_eq, Exit, Reason, Checked, add_exit, merge_into, merge_exits,
}
use ghi.Construction.Exits.{each}
use ghi.Construction.Runs.{Sub, Outcome, ends, faults}

-- Some exit leaves by `flow` and has no field set that `σ` has not.
abbrev pub Covers : List Exit → Flow → Initialized → Type 0
Covers [] flow σ = ⊥
Covers (e ∷ exits) flow σ = ((flow_eq e.flow flow ≡ true) × Sub e.state σ) ⊎ Covers exits flow σ

pub Sub-trans : (a b c : Initialized) → Sub a b → Sub b c → Sub a c
Sub-trans a b c h k f m = k f (h f m)

pub flow_eq_sound : (a b : Flow) → flow_eq a b ≡ true → a ≡ b
flow_eq_sound a b h = ground arith

pub flow_eq_refl : (a : Flow) → flow_eq a a ≡ true
flow_eq_refl falls = refl
flow_eq_refl throws = refl
flow_eq_refl returns = refl
flow_eq_refl breaks = refl
flow_eq_refl continues = refl
flow_eq_refl goes = refl
flow_eq_refl falls_through = refl

pub Covers-mono :
    (exits : List Exit) (flow : Flow) (σ σ' : Initialized)
    → Sub σ σ'
    → Covers exits flow σ
    → Covers exits flow σ'
Covers-mono [] flow σ σ' s c = c
Covers-mono (e ∷ exits) flow σ σ' s (inl (same, sub)) = inl (same, Sub-trans e.state σ σ' sub s)
Covers-mono (e ∷ exits) flow σ σ' s (inr c) = inr (Covers-mono exits flow σ σ' s c)

pub Covers-left :
    (xs ys : List Exit) (flow : Flow) (σ : Initialized)
    → Covers xs flow σ
    → Covers (xs ++ ys) flow σ
Covers-left [] ys flow σ c = absurd c
Covers-left (x ∷ xs) ys flow σ (inl here) = inl here
Covers-left (x ∷ xs) ys flow σ (inr c) = inr (Covers-left xs ys flow σ c)

pub Covers-right :
    (xs ys : List Exit) (flow : Flow) (σ : Initialized)
    → Covers ys flow σ
    → Covers (xs ++ ys) flow σ
Covers-right [] ys flow σ c = c
Covers-right (x ∷ xs) ys flow σ c = inr (Covers-right xs ys flow σ c)

contains-intersect_fields :
    (a b : Initialized) (f : String)
    → contains (intersect_fields a b) f ≡ true
    → (contains a f ≡ true) × (contains b f ≡ true)
unfolding intersect_fields
contains-intersect_fields [] b f h = cc
contains-intersect_fields (k ∷ a) b f h =
    ground (arith, eq_iff k f, contains-intersect_fields a b f)

add_exit-keeps :
    (acc : List Exit) (e : Exit) (flow : Flow) (σ : Initialized)
    → Covers acc flow σ
    → Covers (add_exit acc e) flow σ
unfolding add_exit
add_exit-keeps [] e flow σ c = absurd c
add_exit-keeps (p ∷ acc) e flow σ c = elim (Bool-cases (flow_eq p.flow e.flow)) [
  | inl same ↦ rw same (elim c [
    | inl (eq, sub) ↦ inl (eq, λ f m. sub f (contains-intersect_fields p.state e.state f m).0)
    | inr c' ↦ inr c'
  ])
  | inr other ↦
      rw other (elim c [ inl here ↦ inl here | inr c' ↦ inr (add_exit-keeps acc e flow σ c') ])
]

add_exit-adds :
    (acc : List Exit) (e : Exit) (flow : Flow) (σ : Initialized)
    → flow_eq e.flow flow ≡ true
    → Sub e.state σ
    → Covers (add_exit acc e) flow σ
unfolding add_exit
add_exit-adds [] e flow σ eq sub = inl (eq, sub)
add_exit-adds (p ∷ acc) e flow σ eq sub = elim (Bool-cases (flow_eq p.flow e.flow)) [
  | inl same ↦ rw same (
      inl (
        ground (arith, flow_eq_sound p.flow e.flow, flow_eq_sound e.flow flow),
        λ f m. sub f (contains-intersect_fields p.state e.state f m).1,
      ))
  | inr other ↦ rw other (inr (add_exit-adds acc e flow σ eq sub))
]

merge_into-Covers :
    (acc exits : List Exit) (flow : Flow) (σ : Initialized)
    → Covers acc flow σ ⊎ Covers exits flow σ
    → Covers (merge_into acc exits) flow σ
unfolding merge_into
merge_into-Covers acc [] flow σ (inl c) = c
merge_into-Covers acc [] flow σ (inr c) = absurd c
merge_into-Covers acc (e ∷ exits) flow σ (inl c) =
    merge_into-Covers (add_exit acc e) exits flow σ (inl (add_exit-keeps acc e flow σ c))
merge_into-Covers acc (e ∷ exits) flow σ (inr (inl (eq, sub))) =
    merge_into-Covers (add_exit acc e) exits flow σ (inl (add_exit-adds acc e flow σ eq sub))
merge_into-Covers acc (e ∷ exits) flow σ (inr (inr c)) =
    merge_into-Covers (add_exit acc e) exits flow σ (inr c)

-- Merging keeps what is covered: it only intersects the states of exits of one flow.
pub merge_exits-Covers :
    (exits : List Exit) (flow : Flow) (σ : Initialized)
    → Covers exits flow σ
    → Covers (merge_exits exits) flow σ
unfolding merge_exits
merge_exits-Covers exits flow σ c = merge_into-Covers [] exits flow σ (inr c)

-- An outcome is covered: it is no fault, and unless it is an exception some exit covers it. An
-- exception may come at any point, and needs no exit.
abbrev pub Good : List Exit → Outcome → Type 0
Good exits faults = ⊥
Good exits (ends throws σ) = Unit
Good exits (ends falls σ) = Covers exits falls σ
Good exits (ends returns σ) = Covers exits returns σ
Good exits (ends breaks σ) = Covers exits breaks σ
Good exits (ends continues σ) = Covers exits continues σ
Good exits (ends goes σ) = Covers exits goes σ
Good exits (ends falls_through σ) = Covers exits falls_through σ

-- A map of exits that keeps covers keeps good outcomes.
pub Good-map :
    (xs ys : List Exit) (r : Outcome)
    → ((flow : Flow) (σ : Initialized) → Covers xs flow σ → Covers ys flow σ)
    → Good xs r
    → Good ys r
Good-map xs ys faults h g = g
Good-map xs ys (ends throws σ) h g = tt
Good-map xs ys (ends falls σ) h g = h falls σ g
Good-map xs ys (ends returns σ) h g = h returns σ g
Good-map xs ys (ends breaks σ) h g = h breaks σ g
Good-map xs ys (ends continues σ) h g = h continues σ g
Good-map xs ys (ends goes σ) h g = h goes σ g
Good-map xs ys (ends falls_through σ) h g = h falls_through σ g

pub Good-left : (xs ys : List Exit) (r : Outcome) → Good xs r → Good (xs ++ ys) r
Good-left xs ys r = Good-map xs (xs ++ ys) r (Covers-left xs ys)

pub Good-right : (xs ys : List Exit) (r : Outcome) → Good ys r → Good (xs ++ ys) r
Good-right xs ys r = Good-map ys (xs ++ ys) r (Covers-right xs ys)

pub Good-merge : (exits : List Exit) (r : Outcome) → Good exits r → Good (merge_exits exits) r
Good-merge exits r = Good-map exits (merge_exits exits) r (merge_exits-Covers exits)

pub append-eq-nil : (xs ys : List Reason) → xs ++ ys ≡ [] → (xs ≡ []) × (ys ≡ [])
append-eq-nil [] ys h = (refl, h)
append-eq-nil (x ∷ xs) ys h = cc

-- `each` on exits that cover a normal state.
pub each-Good :
    (f : Initialized → Checked) (exits : List Exit) (σ : Initialized) (r : Outcome)
    → Covers exits falls σ
    → (each f exits).errors ≡ []
    → ((st : Initialized) → Sub st σ → (f st).errors ≡ [] → Good (f st).exits r)
    → Good (each f exits).exits r
unfolding each
each-Good f [] σ r c quiet k = absurd c
each-Good f (e ∷ exits) σ r c quiet k = elim (Bool-cases (flow_eq e.flow falls)) [
  | inl normal ↦
      let quiet' = rw normal at quiet in
      let (q, qs) = append-eq-nil _ _ quiet' in
      rw normal (elim c [
        | inl (eq, sub) ↦ Good-left _ _ r (k e.state sub q)
        | inr c' ↦ Good-right _ _ r (each-Good f exits σ r c' qs k)
      ])
  | inr other ↦
      let qs = rw other at quiet in
      rw other (elim c [
        | inl (eq, sub) ↦ absurd (cc)
        | inr c' ↦ Good-right (e ∷ []) _ r (each-Good f exits σ r c' qs k)
      ])
]

-- `each` passes other exits on.
pub each-passes :
    (f : Initialized → Checked) (exits : List Exit) (flow : Flow) (σ : Initialized)
    → flow_eq flow falls ≡ false
    → Covers exits flow σ
    → Covers (each f exits).exits flow σ
unfolding each
each-passes f [] flow σ abrupt c = absurd c
each-passes f (e ∷ exits) flow σ abrupt c = elim (Bool-cases (flow_eq e.flow falls)) [
  | inl normal ↦ rw normal (elim c [
    | inl (eq, sub) ↦ absurd (ground (arith, flow_eq_sound e.flow flow))
    | inr c' ↦ Covers-right _ _ flow σ (each-passes f exits flow σ abrupt c')
  ])
  | inr other ↦
      rw other
        (elim c [ inl here ↦ inl here | inr c' ↦ inr (each-passes f exits flow σ abrupt c') ])
]
