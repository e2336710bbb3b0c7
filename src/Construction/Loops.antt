-- ===== src/Construction/Loops.antt =====
-- Proofs about the loops over exits of internal/compiler/construction_flow.go.
use ghi.Prelude.{String, ◌≡◌, refl, inl, inr, true, false, List, [], ◌∷◌, arith, Bool-cases}
use ghi.Syntax.{Stmts, no_stmts, more_stmts}
use ghi.Construction.Flow.{
  Initialized, Flow, falls, throws, returns, breaks, continues, goes, falls_through, flow_eq, Exit,
  Checked,
}
use ghi.Construction.Exits.{
  at, loop_exit, loop_exits, range_exits, leaving, falling, not_thrown, resume, finalize,
}
use ghi.Construction.Check.{step, paths}
use ghi.Construction.Runs.{
  Sub, Outcome, ends, faults, is_thrown, leaves_loop, is_next, leaves_clause,
}
use ghi.Construction.Covers.{
  Covers, Covers-left, Covers-right, merge_exits-Covers, Good, Good-left, Good-right, append-eq-nil,
  each-passes, flow_eq_sound, flow_eq_refl,
}

-- Later statements pass an exit that does not fall through on.
pub paths-passes :
    (fields required : List String) (ss : Stmts) (exits : List Exit) (flow : Flow) (σ : Initialized)
    → flow_eq flow falls ≡ false
    → Covers exits flow σ
    → Covers (paths fields required ss exits).exits flow σ
unfolding step
paths-passes fields required no_stmts exits flow σ abrupt c = c
paths-passes fields required (more_stmts s ss) exits flow σ abrupt c =
    paths-passes fields required ss _ flow σ abrupt
      (merge_exits-Covers _ flow σ (each-passes (step fields required s) exits flow σ abrupt c))

loop_exits-keeps :
    (post : Initialized → Checked) (exits : List Exit) (σ : Initialized)
    → Covers exits returns σ
    → Covers (loop_exits post exits).exits returns σ
unfolding loop_exits
loop_exits-keeps post [] σ c = c
loop_exits-keeps post (e ∷ exits) σ (inl (same, sub)) =
    Covers-left (loop_exit post e).exits _ returns σ
      (rw (flow_eq_sound e.flow returns same) (inl (refl, sub)))
loop_exits-keeps post (e ∷ exits) σ (inr c) =
    Covers-right _ _ returns σ (loop_exits-keeps post exits σ c)

-- An outcome that leaves a `for` loop is kept.
pub loop_exits-Good :
    (post : Initialized → Checked) (exits : List Exit) (r : Outcome)
    → leaves_loop r ≡ true
    → Good exits r
    → Good (loop_exits post exits).exits r
loop_exits-Good post exits (ends returns σ) l g = loop_exits-keeps post exits σ g
loop_exits-Good post exits (ends throws σ) l g = tt
loop_exits-Good post exits faults l g = g
loop_exits-Good post exits (ends falls σ) l g = cc
loop_exits-Good post exits (ends breaks σ) l g = cc
loop_exits-Good post exits (ends continues σ) l g = cc
loop_exits-Good post exits (ends goes σ) l g = cc
loop_exits-Good post exits (ends falls_through σ) l g = cc

-- A break leaves it normally.
pub loop_exits-breaks :
    (post : Initialized → Checked) (exits : List Exit) (σ : Initialized)
    → Covers exits breaks σ
    → Covers (loop_exits post exits).exits falls σ
unfolding loop_exits
loop_exits-breaks post [] σ c = c
loop_exits-breaks post (e ∷ exits) σ (inl (same, sub)) =
    Covers-left (loop_exit post e).exits _ falls σ
      (rw (flow_eq_sound e.flow breaks same) (inl (refl, sub)))
loop_exits-breaks post (e ∷ exits) σ (inr c) =
    Covers-right _ _ falls σ (loop_exits-breaks post exits σ c)

-- After an exit that goes on with the loop the post statement was checked.
pub loop_exits-post {ℓ} :
    (post : Initialized → Checked) (exits : List Exit) (flow : Flow) (σ : Initialized) (X : Type ℓ)
    → is_next flow ≡ true
    → Covers exits flow σ
    → (loop_exits post exits).errors ≡ []
    → ((st : Initialized) → Sub st σ → (post st).errors ≡ [] → X)
    → X
unfolding loop_exits
loop_exits-post post [] flow σ X next c quiet k = absurd c
loop_exits-post post (e ∷ exits) falls σ X next (inl (same, sub)) quiet k =
    k e.state sub
      (rw (flow_eq_sound e.flow falls same) at (append-eq-nil (loop_exit post e).errors _ quiet).0)
loop_exits-post post (e ∷ exits) continues σ X next (inl (same, sub)) quiet k = k e.state sub (
    rw (flow_eq_sound e.flow continues same) at (append-eq-nil (loop_exit post e).errors _ quiet).0)
loop_exits-post post (e ∷ exits) flow σ X next (inl (same, sub)) quiet k = cc
loop_exits-post post (e ∷ exits) flow σ X next (inr c) quiet k =
    loop_exits-post post exits flow σ X next c (append-eq-nil (loop_exit post e).errors _ quiet).1 k

range_exits-keeps :
    (exits : List Exit) (σ : Initialized)
    → Covers exits returns σ
    → Covers (range_exits exits) returns σ
unfolding range_exits
range_exits-keeps [] σ c = c
range_exits-keeps (e ∷ exits) σ (inl (same, sub)) =
    rw (flow_eq_sound e.flow returns same) (inl (same, sub))
range_exits-keeps (e ∷ exits) σ (inr c) = by_flow e.flow (range_exits-keeps exits σ c)
  where
    by_flow :
        (flow : Flow)
        → Covers (range_exits exits) returns σ
        → Covers (range_exits (at e.state flow ∷ exits)) returns σ
    by_flow returns k = inr k
    by_flow throws k = inr k
    by_flow falls k = k
    by_flow breaks k = k
    by_flow continues k = k
    by_flow goes k = k
    by_flow falls_through k = k

-- An outcome that leaves a `range` loop is kept.
pub range_exits-Good :
    (exits : List Exit) (r : Outcome)
    → leaves_loop r ≡ true
    → Good exits r
    → Good (range_exits exits) r
range_exits-Good exits (ends returns σ) l g = range_exits-keeps exits σ g
range_exits-Good exits (ends throws σ) l g = tt
range_exits-Good exits faults l g = g
range_exits-Good exits (ends falls σ) l g = cc
range_exits-Good exits (ends breaks σ) l g = cc
range_exits-Good exits (ends continues σ) l g = cc
range_exits-Good exits (ends goes σ) l g = cc
range_exits-Good exits (ends falls_through σ) l g = cc

leaving-keeps :
    (exits : List Exit) (flow : Flow) (σ : Initialized)
    → flow_eq flow breaks ≡ false
    → flow_eq flow falls_through ≡ false
    → Covers exits flow σ
    → Covers (leaving exits) flow σ
unfolding leaving
leaving-keeps [] flow σ b f c = c
leaving-keeps (e ∷ exits) flow σ b f (inl (same, sub)) = by_flow e.flow same
  where
    by_flow :
        (at_flow : Flow)
        → flow_eq at_flow flow ≡ true
        → Covers (leaving (at e.state at_flow ∷ exits)) flow σ
    by_flow breaks h = absurd (ground (arith, flow_eq_sound breaks flow))
    by_flow falls_through h = absurd (ground (arith, flow_eq_sound falls_through flow))
    by_flow falls h = inl (h, sub)
    by_flow throws h = inl (h, sub)
    by_flow returns h = inl (h, sub)
    by_flow continues h = inl (h, sub)
    by_flow goes h = inl (h, sub)
leaving-keeps (e ∷ exits) flow σ b f (inr c) = by_flow e.flow (leaving-keeps exits flow σ b f c)
  where
    by_flow :
        (at_flow : Flow)
        → Covers (leaving exits) flow σ
        → Covers (leaving (at e.state at_flow ∷ exits)) flow σ
    by_flow breaks k = inr k
    by_flow falls_through k = k
    by_flow falls k = inr k
    by_flow throws k = inr k
    by_flow returns k = inr k
    by_flow continues k = inr k
    by_flow goes k = inr k

pub leaving-Good :
    (exits : List Exit) (r : Outcome)
    → leaves_clause r ≡ true
    → Good exits r
    → Good (leaving exits) r
leaving-Good exits (ends returns σ) l g = leaving-keeps exits returns σ refl refl g
leaving-Good exits (ends throws σ) l g = tt
leaving-Good exits faults l g = g
leaving-Good exits (ends falls σ) l g = leaving-keeps exits falls σ refl refl g
leaving-Good exits (ends breaks σ) l g = cc
leaving-Good exits (ends continues σ) l g = leaving-keeps exits continues σ refl refl g
leaving-Good exits (ends goes σ) l g = leaving-keeps exits goes σ refl refl g
leaving-Good exits (ends falls_through σ) l g = cc

pub leaving-breaks :
    (exits : List Exit) (σ : Initialized) → Covers exits breaks σ → Covers (leaving exits) falls σ
unfolding leaving
leaving-breaks [] σ c = c
leaving-breaks (e ∷ exits) σ (inl (same, sub)) =
    rw (flow_eq_sound e.flow breaks same) (inl (refl, sub))
leaving-breaks (e ∷ exits) σ (inr c) = by_flow e.flow (leaving-breaks exits σ c)
  where
    by_flow :
        (at_flow : Flow)
        → Covers (leaving exits) falls σ
        → Covers (leaving (at e.state at_flow ∷ exits)) falls σ
    by_flow breaks k = inr k
    by_flow falls_through k = k
    by_flow falls k = inr k
    by_flow throws k = inr k
    by_flow returns k = inr k
    by_flow continues k = inr k
    by_flow goes k = inr k

pub falling-Covers :
    (exits : List Exit) (σ : Initialized)
    → Covers exits falls_through σ
    → Covers (falling exits) falls σ
unfolding falling
falling-Covers [] σ c = c
falling-Covers (e ∷ exits) σ (inl (same, sub)) =
    rw (flow_eq_sound e.flow falls_through same) (inl (refl, sub))
falling-Covers (e ∷ exits) σ (inr c) = by_flow e.flow (falling-Covers exits σ c)
  where
    by_flow :
        (at_flow : Flow)
        → Covers (falling exits) falls σ
        → Covers (falling (at e.state at_flow ∷ exits)) falls σ
    by_flow falls_through k = inr k
    by_flow breaks k = k
    by_flow falls k = k
    by_flow throws k = k
    by_flow returns k = k
    by_flow continues k = k
    by_flow goes k = k

not_thrown-keeps :
    (exits : List Exit) (flow : Flow) (σ : Initialized)
    → flow_eq flow throws ≡ false
    → Covers exits flow σ
    → Covers (not_thrown exits) flow σ
unfolding not_thrown
not_thrown-keeps [] flow σ other c = c
not_thrown-keeps (e ∷ exits) flow σ other (inl (same, sub)) =
    let kept : flow_eq e.flow throws ≡ false = rw (flow_eq_sound e.flow flow same) other in
    rw kept (inl (same, sub))
not_thrown-keeps (e ∷ exits) flow σ other (inr c) = elim (Bool-cases (flow_eq e.flow throws)) [
  | inl thrown ↦ rw thrown (not_thrown-keeps exits flow σ other c)
  | inr kept ↦ rw kept (inr (not_thrown-keeps exits flow σ other c))
]

pub not_thrown-Good :
    (exits : List Exit) (r : Outcome)
    → is_thrown r ≡ false
    → Good exits r
    → Good (not_thrown exits) r
not_thrown-Good exits (ends throws σ) t g = tt
not_thrown-Good exits faults t g = g
not_thrown-Good exits (ends falls σ) t g = not_thrown-keeps exits falls σ refl g
not_thrown-Good exits (ends returns σ) t g = not_thrown-keeps exits returns σ refl g
not_thrown-Good exits (ends breaks σ) t g = not_thrown-keeps exits breaks σ refl g
not_thrown-Good exits (ends continues σ) t g = not_thrown-keeps exits continues σ refl g
not_thrown-Good exits (ends goes σ) t g = not_thrown-keeps exits goes σ refl g
not_thrown-Good exits (ends falls_through σ) t g = not_thrown-keeps exits falls_through σ refl g

pub resume-falls :
    (pending : Flow) (exits : List Exit) (σ : Initialized)
    → Covers exits falls σ
    → Covers (resume pending exits) pending σ
unfolding resume
resume-falls pending [] σ c = c
resume-falls pending (e ∷ exits) σ (inl (same, sub)) = rw same (inl (flow_eq_refl pending, sub))
resume-falls pending (e ∷ exits) σ (inr c) = inr (resume-falls pending exits σ c)

pub resume-abrupt :
    (pending : Flow) (exits : List Exit) (flow : Flow) (σ : Initialized)
    → flow_eq flow falls ≡ false
    → Covers exits flow σ
    → Covers (resume pending exits) flow σ
unfolding resume
resume-abrupt pending [] flow σ a c = c
resume-abrupt pending (e ∷ exits) flow σ a (inl (same, sub)) =
    let e_flow : e.flow ≡ flow = flow_eq_sound e.flow flow same in
    rw (e_flow, a) (inl (flow_eq_refl flow, sub))
resume-abrupt pending (e ∷ exits) flow σ a (inr c) = inr (resume-abrupt pending exits flow σ a c)

-- The finalizer ran from every exit that reaches it.
pub finalize-Good :
    (finalizer : List Exit → Checked) (exits : List Exit) (flow : Flow) (σ : Initialized)
    (r : Outcome)
    → Covers exits flow σ
    → (finalize finalizer exits).errors ≡ []
    → ((st : Initialized)
        → Sub st σ
        → (finalizer (at st falls ∷ [])).errors ≡ []
        → Good (resume flow (finalizer (at st falls ∷ [])).exits) r)
    → Good (finalize finalizer exits).exits r
unfolding finalize
finalize-Good finalizer [] flow σ r c quiet k = absurd c
finalize-Good finalizer (e ∷ exits) flow σ r (inl (same, sub)) quiet k =
    Good-left (resume e.flow (finalizer (at e.state falls ∷ [])).exits) _ r (
      rw (flow_eq_sound e.flow flow same)
        (k e.state sub (append-eq-nil (finalizer (at e.state falls ∷ [])).errors _ quiet).0))
finalize-Good finalizer (e ∷ exits) flow σ r (inr c) quiet k = Good-right _ _ r (
    finalize-Good finalizer exits flow σ r c
      (append-eq-nil (finalizer (at e.state falls ∷ [])).errors _ quiet).1 k)
