-- ===== src/Construction/Cases.antt =====
-- Proofs about single cases of `step` in internal/compiler/construction_flow.go.
use ghi.Prelude.{String, ◌≡◌, refl, ◌⊎◌, inl, inr, Bool, true, false, List, [], ◌∷◌, Bool-cases}
use ghi.Syntax.{
  Expr, call, Stmt, labeled_stmt, inc_dec_stmt, send_stmt, go_stmt, defer_stmt, type_switch_stmt,
  select_stmt, is_call,
}
use ghi.Construction.Flow.{
  Initialized, Flow, falls, throws, returns, breaks, continues, goes, falls_through, Exit, Checked,
  merge_exits,
}
use ghi.Construction.Exits.{at, is_func_lit, is_infinite, loop_exits}
use ghi.Construction.Steps.{read, plain_step, inspect_step, for_step, switch_step}
use ghi.Construction.Check.{step, expr_step}
use ghi.Construction.Runs.{
  Sub, Outcome, ends, faults, is_next, is_opaque, exits_inside, ExecLit, lit,
}
use ghi.Construction.Covers.{
  Sub-trans, Covers, Covers-right, merge_exits-Covers, Good, Good-left, Good-right, append-eq-nil,
  flow_eq_refl,
}
use ghi.Construction.Lowered.{IsLowered}
use ghi.Construction.Grows.{Grows}
use ghi.Construction.Tries.{Thrown, SubOutcome}

-- One exit covers its own state.
pub self : (st σ : Initialized) (flow : Flow) → Sub st σ → Covers (at st flow ∷ []) flow σ
self st σ flow sub = inl (flow_eq_refl flow, sub)

pub inspect_step-opaque :
    (fields required : List String) (s : Stmt) (st : Initialized)
    → is_opaque s ≡ true
    → step fields required s st ≡ inspect_step fields required s st
unfolding step
inspect_step-opaque fields required (labeled_stmt label s) st h = refl
inspect_step-opaque fields required (inc_dec_stmt x) st h = refl
inspect_step-opaque fields required (send_stmt chan value) st h = refl
inspect_step-opaque fields required (go_stmt x) st h = refl
inspect_step-opaque fields required (defer_stmt x) st h = refl
inspect_step-opaque fields required (type_switch_stmt init assign body) st h = refl
inspect_step-opaque fields required (select_stmt body) st h = refl
inspect_step-opaque fields required _ st h = absurd (cc)

pub opaque-no_exit : (s : Stmt) → is_opaque s ≡ true → exits_inside s ≡ true → ¬ IsLowered s
unfolding IsLowered exits_inside
opaque-no_exit (labeled_stmt label s) o e l = cc
opaque-no_exit (type_switch_stmt init assign body) o e l = cc
opaque-no_exit (select_stmt body) o e l = cc
opaque-no_exit _ o e l = cc

pub expr_step-plain :
    (fields required : List String) (x : Expr) (st : Initialized)
    → is_call x "GhiTry" ≡ false
    → expr_step fields required x st ≡ plain_step fields required x st
unfolding step
expr_step-plain fields required (call fun args) st h = rw h
expr_step-plain fields required _ st h = refl

pub lit-is_func_lit :
    {required : List String} {x : Expr} {σ : Initialized} {r : Outcome}
    → ExecLit required x σ r
    → is_func_lit x ≡ true
lit-is_func_lit (lit body) = refl

pub Covers-of_next :
    (exits : List Exit) (flow : Flow) (σ : Initialized)
    → is_next flow ≡ true
    → Good exits (ends flow σ)
    → Covers exits flow σ
Covers-of_next exits falls σ next good = good
Covers-of_next exits continues σ next good = good
Covers-of_next exits _ σ next good = absurd (cc)

pub SubOutcome-after : (st σ : Initialized) (r : Outcome) → Sub st σ → Grows σ r → SubOutcome st r
SubOutcome-after st σ (ends flow σ') sub grows = Sub-trans st σ σ' sub grows
SubOutcome-after st σ faults sub grows = tt

pub Thrown-of :
    (exits : List Exit) (st : Initialized) (r : Outcome)
    → SubOutcome st r
    → ((σ : Initialized) → Sub st σ → Covers exits throws σ)
    → Thrown true exits r
Thrown-of exits st (ends throws σ) sub k = k σ sub
Thrown-of exits st (ends falls σ) sub k = tt
Thrown-of exits st (ends returns σ) sub k = tt
Thrown-of exits st (ends breaks σ) sub k = tt
Thrown-of exits st (ends continues σ) sub k = tt
Thrown-of exits st (ends goes σ) sub k = tt
Thrown-of exits st (ends falls_through σ) sub k = tt
Thrown-of exits st faults sub k = tt

-- The exits with which a clause begins.
pub incoming :
    (st : Initialized) (fallen : List Exit) (σ : Initialized)
    → Sub st σ ⊎ Covers fallen falls σ
    → Covers (merge_exits (at st falls ∷ fallen)) falls σ
incoming st fallen σ (inl sub) = merge_exits-Covers _ falls σ (inl (refl, sub))
incoming st fallen σ (inr c) = merge_exits-Covers _ falls σ (inr c)

module _ (fields required : List String) (st : Initialized) where
  pub for_step-errors :
      (cond : Expr) (body : List Exit → Checked) (post : Initialized → Checked)
      → (for_step fields required cond body post st).errors ≡ []
      → (read fields required cond st ≡ [])
        × ((body (at st falls ∷ [])).errors ≡ [])
        × ((loop_exits post (body (at st falls ∷ [])).exits).errors ≡ [])
  unfolding for_step
  for_step-errors cond body post quiet = elim (Bool-cases (is_infinite cond)) [
    | inl inf ↦
        let (q, qs) = append-eq-nil (read fields required cond st) _ (rw inf at quiet) in
        let (qb, ql) = append-eq-nil (body (at st falls ∷ [])).errors _ qs in (q, qb, ql)
    | inr fin ↦
        let (q, qs) = append-eq-nil (read fields required cond st) _ (rw fin at quiet) in
        let (qb, ql) = append-eq-nil (body (at st falls ∷ [])).errors _ qs in (q, qb, ql)
  ]

  pub for_step-Good :
      (cond : Expr) (body : List Exit → Checked) (post : Initialized → Checked) (r : Outcome)
      → Good (loop_exits post (body (at st falls ∷ [])).exits).exits r
      → Good (for_step fields required cond body post st).exits r
  unfolding for_step
  for_step-Good cond body post r good = elim (Bool-cases (is_infinite cond)) [
    | inl inf ↦ rw inf good
    | inr fin ↦ rw fin (Good-right (at st falls ∷ []) _ r good)
  ]

  pub for_step-ends :
      (cond : Expr) (body : List Exit → Checked) (post : Initialized → Checked) (σ : Initialized)
      → is_infinite cond ≡ false
      → Sub st σ
      → Covers (for_step fields required cond body post st).exits falls σ
  unfolding for_step
  for_step-ends cond body post σ fin sub = rw fin (inl (refl, sub))

  pub switch_step-errors :
      (tag : Expr) (has : Bool) (cs : List Exit → Initialized → Checked)
      → (switch_step fields required tag has cs st).errors ≡ []
      → (read fields required tag st ≡ []) × ((cs [] st).errors ≡ [])
  unfolding switch_step
  switch_step-errors tag true cs quiet = append-eq-nil (read fields required tag st) _ quiet
  switch_step-errors tag false cs quiet =
      append-eq-nil (read fields required tag st) (cs [] st).errors (append-eq-nil _ [] quiet).0

  pub switch_step-Good :
      (tag : Expr) (has : Bool) (cs : List Exit → Initialized → Checked) (r : Outcome)
      → Good (cs [] st).exits r
      → Good (switch_step fields required tag has cs st).exits r
  unfolding switch_step
  switch_step-Good tag true cs r good = good
  switch_step-Good tag false cs r good = Good-left (cs [] st).exits _ r good

  pub switch_step-none :
      (tag : Expr) (has : Bool) (cs : List Exit → Initialized → Checked) (σ : Initialized)
      → has ≡ false
      → Sub st σ
      → Covers (switch_step fields required tag has cs st).exits falls σ
  unfolding switch_step
  switch_step-none tag true cs σ none sub = cc
  switch_step-none tag false cs σ none sub =
      Covers-right (cs [] st).exits _ falls σ (inl (refl, sub))
