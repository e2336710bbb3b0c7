-- ===== src/Match/Rewritten.antt =====
-- Proofs about `normalizeMatches` of internal/compiler/match_parse.go: the edits of a round.
use ghi.Prelude.{
  ℕ, suc, ◌≤◌, ◌≡◌, refl, sym, ◌∙◌, ap, subst, Bool, true, false, List, [], ◌∷◌, ◌++◌,
  if◌then◌else◌, arith, ltb,
}
use ghi.Coverage.Edits.{SourceEdit}
use ghi.Coverage.Moved.{IsOrdered}
use ghi.Format.Kinds.{FormatToken}
use ghi.Match.Arms.{Armed, ArmState, ArmStep, rejects, moves, arm_step, after_step, scan_arms_from}
use ghi.Match.Round.{insert_edit, sort_edits}
use ghi.Match.Sorted.{
  IsTight, Within, ArmedWithin, Clear, mark, StepFits, arm_step-StepFits, arms_end-ArmedWithin,
  emit_edits-ArmedWithin,
}

after_step-ArmedWithin :
    (n p i : ℕ) (later : List FormatToken) (s : ArmStep) (next : ArmState → Bool → ℕ → Armed)
    → StepFits n p i later s
    → ((state : ArmState) (found : Bool) (skip p' : ℕ)
        → Clear n (mark state p') (suc i) skip later
        → p' ≤ mark state p'
        → ArmedWithin n p' (next state found skip))
    → ArmedWithin n p (after_step [] s next)
after_step-ArmedWithin n p i later (rejects e) next fits f = tt
after_step-ArmedWithin n p i later (moves es state found skip) next (p', weave, clear, high) f =
    emit_edits-ArmedWithin n p p' es (next state found skip) weave
      (f state found skip p' clear high)

ArmedWithin-if :
    (c : Bool) (n p : ℕ) (x y : Armed)
    → (c ≡ true → ArmedWithin n p x)
    → (c ≡ false → ArmedWithin n p y)
    → ArmedWithin n p (if c then x else y)
ArmedWithin-if true n p x y f g = f refl
ArmedWithin-if false n p x y f g = g refl

pub scan_arms_from-ArmedWithin :
    (ts : List FormatToken) (n : ℕ) (body : List FormatToken) (state : ArmState) (found : Bool)
    (p q i skip : ℕ)
    → IsTight n q body
    → Clear n (mark state p) i skip body
    → p ≤ mark state p
    → ArmedWithin n p (scan_arms_from ts state found i skip body)
unfolding scan_arms_from
scan_arms_from-ArmedWithin ts n [] state found p q i skip tight clear high =
    arms_end-ArmedWithin ts n p i skip state found clear
scan_arms_from-ArmedWithin ts n (t ∷ later) state found p q i skip tight clear high =
    ArmedWithin-if (ltb i skip) n p _ _
      (λ past.
        scan_arms_from-ArmedWithin ts n later state found p t.end (suc i) skip tight.2
          (clear.0 past) high)
      (λ here.
        after_step-ArmedWithin n p i later (arm_step ts state i found t later) _
          (arm_step-StepFits n p i t later tight.2 tight.1 ts state found (clear.1 here) high)
          (λ state' found' skip' p' clear' high'.
            scan_arms_from-ArmedWithin ts n later state' found' p' t.end (suc i) skip' tight.2
              clear' high'))

insert_before :
    (e x : SourceEdit) (xs : List SourceEdit)
    → e.start ≤ x.start
    → insert_edit e (x ∷ xs) ≡ e ∷ (x ∷ xs)
unfolding insert_edit
insert_before e x xs h = let late : ltb x.start e.start ≡ false = ground arith in rw late refl

insert_first :
    (n : ℕ) (e : SourceEdit) (es : List SourceEdit)
    → Within n e.start es
    → insert_edit e es ≡ e ∷ es
unfolding insert_edit
insert_first n e [] h = refl
insert_first n e (x ∷ xs) h = insert_before e x xs h.0

insert_last :
    (p : ℕ) (e : SourceEdit) (es : List SourceEdit)
    → Within e.start p es
    → insert_edit e es ≡ es ++ (e ∷ [])
unfolding insert_edit
insert_last p e [] h = refl
insert_last p e (x ∷ xs) h =
    let early : ltb x.start e.start ≡ true = ground arith in
    rw early (ap (λ r. x ∷ r) (insert_last x.end e xs h.3))

Within-from : (n p q : ℕ) (es : List SourceEdit) → p ≤ q → Within n q es → Within n p es
Within-from n p q [] h k = omega (arith, h, k)
Within-from n p q (e ∷ es) h k = (omega (arith, h, k.0), k.1, k.2, k.3)

sort_edits-same : (n p : ℕ) (es : List SourceEdit) → Within n p es → sort_edits es ≡ es
unfolding sort_edits
sort_edits-same n p [] h = refl
sort_edits-same n p (e ∷ es) h =
    ap (insert_edit e) (sort_edits-same n e.end es h.3)
    ∙ insert_first n e es (Within-from n e.start e.end es h.1 h.3)

Within-IsOrdered :
    (n p : ℕ) (e : SourceEdit) (es : List SourceEdit)
    → Within e.start p es
    → e.start ≤ e.end
    → e.end ≤ n
    → IsOrdered n p (es ++ (e ∷ []))
Within-IsOrdered n p e [] h proper fits = (h, proper, fits)
Within-IsOrdered n p e (x ∷ xs) h proper fits =
    (h.0, h.1, Within-IsOrdered n x.end e xs h.3 proper fits)

-- The edits of a round: the match, its arms in their order, and the end of its body.
pub sorted-IsOrdered :
    (n : ℕ) (a z : SourceEdit) (arms : List SourceEdit)
    → a.start ≤ a.end
    → Within z.start a.end arms
    → z.start ≤ z.end
    → z.end ≤ n
    → IsOrdered n 0 (sort_edits (a ∷ z ∷ arms))
unfolding sort_edits
sorted-IsOrdered n a z arms first within proper fits =
    let last : insert_edit z (sort_edits arms) ≡ arms ++ (z ∷ []) =
      ap (insert_edit z) (sort_edits-same z.start a.end arms within)
      ∙ insert_last a.end z arms within in
    let all : insert_edit a (arms ++ (z ∷ [])) ≡ a ∷ (arms ++ (z ∷ [])) = begin_first arms within in
    subst (IsOrdered n 0) (sym (ap (insert_edit a) last ∙ all))
      (omega arith, first, Within-IsOrdered n a.end z arms within proper fits)
  where
    begin_first :
        (es : List SourceEdit)
        → Within z.start a.end es
        → insert_edit a (es ++ (z ∷ [])) ≡ a ∷ (es ++ (z ∷ []))
    begin_first [] h = insert_before a z [] (omega (arith, first, h))
    begin_first (x ∷ xs) h = insert_before a x (xs ++ (z ∷ [])) (omega (arith, first, h.0))
