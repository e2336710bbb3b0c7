-- ===== src/Match/Sorted.antt =====
-- Proofs about `normalizeMatches` of internal/compiler/match_parse.go: the edits of the arms.
use ghi.Prelude.{
  ℕ, suc, ◌≤◌, ◌<◌, ◌≡◌, refl, Bool, true, false, ◌&&◌, Option, none, some, List, [], ◌∷◌, ◌++◌,
  if◌then◌else◌, arith, ltb, ◌==◌, str_eq, drop,
}
use ghi.Coverage.Edits.{SourceEdit}
use ghi.Format.Kinds.{semicolon, comma, default, lbrace, is_kind, FormatToken}
use ghi.Match.Arms.{
  skip_group, Armed, unarmed, armed, emit_edits, ArmState, between, candidates, results, ArmStep,
  rejects, moves, is_arrow, goes_past, arrow_step, candidate_step, result_step, arm_step, arms_end,
}

-- The tokens stand one after another, from `previous` on and up to `n`, and none is empty.
abbrev pub IsTight : (n previous : ℕ) → List FormatToken → Type 0
IsTight n previous [] = previous ≤ n
IsTight n previous (t ∷ ts) = (previous ≤ t.start) × (t.start < t.end) × IsTight n t.end ts

pub IsTight-bound : (n previous : ℕ) (ts : List FormatToken) → IsTight n previous ts → previous ≤ n
IsTight-bound n previous [] h = h
IsTight-bound n previous (t ∷ ts) h = omega (arith, h.0, h.1, IsTight-bound n t.end ts h.2)

-- Edits in order that all begin before `n`.
abbrev pub Within : (n previous : ℕ) → List SourceEdit → Type 0
Within n previous [] = previous ≤ n
Within n previous (e ∷ es) =
    (previous ≤ e.start) × (e.start ≤ e.end) × (e.start < n) × Within n e.end es

Within-from : (n p q : ℕ) (es : List SourceEdit) → p ≤ q → Within n q es → Within n p es
Within-from n p q [] h k = omega (arith, h, k)
Within-from n p q (e ∷ es) h k = (omega (arith, h, k.0), k.1, k.2, k.3)

abbrev pub ArmedWithin : ℕ → ℕ → Armed → Type 0
ArmedWithin n previous (unarmed e) = Unit
ArmedWithin n previous (armed es found) = Within n previous es

-- The tokens that are not passed over begin from `p` on.
abbrev pub Clear : (n p i skip : ℕ) → List FormatToken → Type 0
Clear n p i skip [] = p ≤ n
Clear n p i skip (t ∷ ts) =
    (ltb i skip ≡ true → Clear n p (suc i) skip ts) × (ltb i skip ≡ false → p ≤ t.start)

pub IsTight-Clear :
    (n p q i skip : ℕ) (ts : List FormatToken) → p ≤ q → IsTight n q ts → Clear n p i skip ts
IsTight-Clear n p q i skip [] less h = omega (arith, less, h)
IsTight-Clear n p q i skip (t ∷ ts) less h = (
  λ _. IsTight-Clear n p t.end (suc i) skip ts (omega (arith, less, h.0, h.1)) h.2,
  λ _. omega (arith, less, h.0),
)

-- Where the edits that a state leads to begin at the earliest.
abbrev pub mark : ArmState → ℕ → ℕ
mark (candidates arm start is_default) p = start
mark _ p = p

-- The edits of a step stand from `p` on, and those that follow from where they end.
abbrev pub StepFits : (n p i : ℕ) → (later : List FormatToken) → ArmStep → Type 0
StepFits n p i later (rejects e) = Unit
StepFits n p i later (moves es state found skip) =
    (p' : ℕ) × ((rest : List SourceEdit) → Within n p' rest → Within n p (es ++ rest))
    × Clear n (mark state p') (suc i) skip later
    × (p' ≤ mark state p')

StepFits-if :
    (c : Bool) (n p i : ℕ) (later : List FormatToken) (x y : ArmStep)
    → (c ≡ true → StepFits n p i later x)
    → (c ≡ false → StepFits n p i later y)
    → StepFits n p i later (if c then x else y)
StepFits-if true n p i later x y f g = f refl
StepFits-if false n p i later x y f g = g refl

module _ (n p i : ℕ) (t : FormatToken) (later : List FormatToken) (tight : IsTight n t.end later)
    (proper : t.start < t.end) where
  goes_past-StepFits :
      (state : ArmState) (found : Bool) (o : Option ℕ)
      → mark state p ≤ t.start
      → p ≤ mark state p
      → StepFits n p i later (goes_past state found o)
  goes_past-StepFits state found none low high = tt
  goes_past-StepFits state found (some k) low high = (
    p,
    λ rest h. h,
    IsTight-Clear n (mark state p) t.end (suc i) (suc k) later (omega (arith, low, proper)) tight,
    high,
  )

  arrow_step-StepFits :
      (arm start : ℕ) (is_default found : Bool)
      → is_arrow t later ≡ true
      → p ≤ start
      → start ≤ t.start
      → StepFits n p i later (arrow_step arm start i is_default found t later)
  arrow_step-StepFits arm start is_default found arrow low begun = at later tight arrow
    where
      past :
          (u : FormatToken) (us : List FormatToken)
          → IsTight n t.end (u ∷ us)
          → Clear n u.end (suc i) (suc (suc i)) (u ∷ us)
      past u us h = (
        λ _. IsTight-Clear n u.end u.end (suc (suc i)) (suc (suc i)) us (omega arith) h.2,
        λ same. absurd (ground arith),
      )

      at :
          (us : List FormatToken)
          → IsTight n t.end us
          → is_arrow t us ≡ true
          → StepFits n p i us (arrow_step arm start i is_default found t us)
      at [] h arrow = absurd (cc)
      at (u ∷ us) h arrow =
          let last = IsTight-bound n u.end us h.2 in
          StepFits-if (i == arm) n p i (u ∷ us) _ _ (λ _. tt)
            (λ _.
              StepFits-if is_default n p i (u ∷ us) _ _
                (λ _.
                  StepFits-if (i == suc arm) n p i (u ∷ us) _ _
                    (λ _. (
                      u.end,
                      λ rest k. (
                        omega (arith, low, begun),
                        omega (arith, proper, h.0, h.1),
                        omega (arith, proper, h.0, h.1, last),
                        k,
                      ),
                      past u us h,
                      omega arith,
                    ))
                    (λ _. tt))
                (λ _. (
                  u.end,
                  λ rest k. (
                    low,
                    omega arith,
                    omega (arith, begun, proper, h.0, h.1, last),
                    (
                      begun,
                      omega (arith, proper, h.0, h.1),
                      omega (arith, proper, h.0, h.1, last),
                      k,
                    ),
                  ),
                  past u us h,
                  omega arith,
                )))

  module _ (ts : List FormatToken) where
    candidate_step-StepFits :
        (arm start : ℕ) (is_default found : Bool)
        → p ≤ start
        → start ≤ t.start
        → StepFits n p i later (candidate_step ts arm start i is_default found t later)
    unfolding candidate_step
    candidate_step-StepFits arm start is_default found low begun =
        StepFits-if (is_arrow t later) n p i later _ _
          (λ arrow. arrow_step-StepFits arm start is_default found arrow low begun)
          (λ _.
            StepFits-if (is_kind t.kind semicolon) n p i later _ _ (λ _. tt)
              (λ _.
                goes_past-StepFits (candidates arm start is_default) found
                  (skip_group i t.kind (drop i ts)) begun low))

    result_step-StepFits :
        (result : ℕ) (found : Bool)
        → p ≤ t.start
        → StepFits n p i later (result_step ts result i found t)
    unfolding result_step
    result_step-StepFits result found low =
        let last = IsTight-bound n t.end later tight in
        StepFits-if ((i == result) && is_kind t.kind lbrace) n p i later _ _ (λ _. tt)
          (λ _.
            StepFits-if (is_kind t.kind comma) n p i later _ _
              (λ _.
                StepFits-if (i == result) n p i later _ _ (λ _. tt)
                  (λ _. (
                    t.end,
                    λ rest k. (low, omega (arith, proper), omega (arith, proper, last), k),
                    IsTight-Clear n t.end t.end (suc i) (suc i) later (omega arith) tight,
                    omega arith,
                  )))
              (λ _.
                StepFits-if (is_kind t.kind semicolon) n p i later _ _ (λ _. tt)
                  (λ _.
                    goes_past-StepFits (results result) found (skip_group i t.kind (drop i ts)) low
                      (omega arith))))

    pub arm_step-StepFits :
        (state : ArmState) (found : Bool)
        → mark state p ≤ t.start
        → p ≤ mark state p
        → StepFits n p i later (arm_step ts state i found t later)
    unfolding arm_step
    arm_step-StepFits between found low high =
        StepFits-if (is_kind t.kind semicolon && str_eq t.text "\n") n p i later _ _
          (λ _. goes_past-StepFits between found (some i) low high)
          (λ _.
            StepFits-if found n p i later _ _ (λ _. tt)
              (λ _.
                candidate_step-StepFits i t.start (is_kind t.kind default) found low (omega arith)))
    arm_step-StepFits (candidates arm start is_default) found low high =
        candidate_step-StepFits arm start is_default found high low
    arm_step-StepFits (results result) found low high = result_step-StepFits result found low

pub arms_end-ArmedWithin :
    (ts : List FormatToken) (n p i skip : ℕ) (state : ArmState) (found : Bool)
    → Clear n (mark state p) i skip []
    → ArmedWithin n p (arms_end ts state found)
arms_end-ArmedWithin ts n p i skip between found h = h
arms_end-ArmedWithin ts n p i skip (candidates arm start is_default) found h = tt
arms_end-ArmedWithin ts n p i skip (results result) found h = tt

pub emit_edits-ArmedWithin :
    (n p p' : ℕ) (es : List SourceEdit) (a : Armed)
    → ((rest : List SourceEdit) → Within n p' rest → Within n p (es ++ rest))
    → ArmedWithin n p' a
    → ArmedWithin n p (emit_edits es a)
emit_edits-ArmedWithin n p p' es (unarmed e) f h = tt
emit_edits-ArmedWithin n p p' es (armed edits found) f h = f edits h
