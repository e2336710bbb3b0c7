-- ===== src/Construction/Accepted.antt =====
-- Proofs about `validateConstruction` of internal/compiler/construction.go.
use ghi.Prelude.{
  String, ◌≡◌, Bool, true, false, ◌||◌, List, [], ◌∷◌, inl, inr, Bool-cases, contains, str_eq,
  if◌then◌else◌, arith, refl, eq_iff, subst, sym,
}
use ghi.Syntax.{Expr}
use ghi.Construction.Flow.{Initialized, Flow, falls, returns, flow_eq, Exit, Reason}
use ghi.Construction.Exits.{at}
use ghi.Construction.Check.{paths, complete, complete_exits, check_body}
use ghi.Construction.Runs.{Outcome, ends, faults, ExecList}
use ghi.Construction.Covers.{Covers, Good, append-eq-nil, flow_eq_sound}
use ghi.Construction.Lowered.{IsLoweredList}
use ghi.Construction.Sound.{sound-list}
use ghi.Construction.Class.{ClassDecl, required_names, validate_construction}

-- A name that `complete` does not reject is set.
quiet-set :
    (set parent : Bool) (a b : Reason)
    → (if set then [] else if parent then a ∷ [] else b ∷ []) ≡ []
    → set ≡ true
quiet-set true parent a b quiet = refl
quiet-set false true a b quiet = cc
quiet-set false false a b quiet = cc

complete-contains :
    (fields required : List String) (names : List String) (state : Initialized) (f : String)
    → complete fields required names state ≡ []
    → contains names f ≡ true
    → contains state f ≡ true
unfolding complete
complete-contains fields required [] state f quiet m = cc
complete-contains fields required (name ∷ names) state f quiet m =
    let (q, qs) = append-eq-nil _ (complete fields required names state) quiet in
    elim (Bool-cases (str_eq name f)) [
      | inl same ↦
          subst (λ n. contains state n ≡ true) ((eq_iff name f).0 same)
            (quiet-set (contains state name) (str_eq name "@parent") _ _ q)
      | inr other ↦ complete-contains fields required names state f qs (ground arith)
    ]

-- The flows that `complete` is run for.
abbrev pub is_exit : Flow → Bool
is_exit flow = flow_eq flow falls || flow_eq flow returns

complete_exits-contains :
    (fields required : List String) (exits : List Exit) (flow : Flow) (σ : Initialized) (f : String)
    → is_exit flow ≡ true
    → Covers exits flow σ
    → complete_exits fields required exits ≡ []
    → contains required f ≡ true
    → contains σ f ≡ true
unfolding complete_exits
complete_exits-contains fields required [] flow σ f leaves c quiet m = absurd c
complete_exits-contains fields required (e ∷ exits) flow σ f leaves (inl (same, sub)) quiet m =
    let e_flow : is_exit e.flow ≡ true =
      subst (λ a. is_exit a ≡ true) (sym (flow_eq_sound e.flow flow same)) leaves in
    let (q, qs) = append-eq-nil _ (complete_exits fields required exits) quiet in
    sub f (complete-contains fields required required e.state f (rw e_flow at q) m)
complete_exits-contains fields required (e ∷ exits) flow σ f leaves (inr c) quiet m =
    complete_exits-contains fields required exits flow σ f leaves c
      (append-eq-nil _ (complete_exits fields required exits) quiet).1 m

Covers-of_Good :
    (exits : List Exit) (flow : Flow) (σ : Initialized)
    → is_exit flow ≡ true
    → Good exits (ends flow σ)
    → Covers exits flow σ
Covers-of_Good exits falls σ leaves good = good
Covers-of_Good exits returns σ leaves good = good
Covers-of_Good exits _ σ leaves good = absurd (cc)

-- What a run of a constructor promises: it reads no required field that is not set, and when it
-- ends normally or returns, all of them are set.
abbrev pub Initializes : List String → Outcome → Type 0
Initializes required faults = ⊥
Initializes required (ends flow σ) =
    (f : String) → is_exit flow ≡ true → contains required f ≡ true → contains σ f ≡ true

module _ (needs_initialization : Expr → Bool) where
  -- If the check rejects nothing in a class whose constructor has a shape that it takes apart
  -- (IsLoweredList: no `return` or jump inside a labelled statement, a type switch or a select, no
  -- assignment to several targets one of which reads something, no range over a target that reads
  -- something, and `try` handlers that end by rethrowing), then no run of the constructor that
  -- starts with no field set reads a required field before it is set, and every run that ends
  -- normally or returns has all required fields set, and the parent's constructor run if the
  -- constructor calls it.
  pub validate_construction_sound :
      (c : ClassDecl) (r : Outcome)
      → validate_construction needs_initialization c ≡ []
      → IsLoweredList c.constructor
      → ExecList (required_names needs_initialization c) c.constructor [] r
      → Initializes (required_names needs_initialization c) r
  unfolding validate_construction check_body
  validate_construction_sound c (ends flow σ) quiet low run =
      let required = required_names needs_initialization c in
      let exits = (paths c.members required c.constructor (at [] falls ∷ [])).exits in
      let (q, qs) = append-eq-nil _ (complete_exits c.members required exits) quiet in
      λ f leaves m.
        complete_exits-contains c.members required _ flow σ f leaves
          (Covers-of_Good _ flow σ leaves
            (sound-list c.members required run (at [] falls ∷ []) (inl (refl, λ g h. h)) low q))
          qs m
  validate_construction_sound c faults quiet low run =
      let required = required_names needs_initialization c in
      let exits = (paths c.members required c.constructor (at [] falls ∷ [])).exits in
      sound-list c.members required run (at [] falls ∷ []) (inl (refl, λ g h. h)) low
        (append-eq-nil _ (complete_exits c.members required exits) quiet).0
