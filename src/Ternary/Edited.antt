-- ===== src/Ternary/Edited.antt =====
-- Proofs about `normalizeTernaries` of internal/compiler/ternary_parse.go: the edits of a round.
use ghi.Prelude.{
  ℕ, zero, suc, ◌+◌, ◌-◌, ◌≤◌, ◌<◌, ◌≡◌, ◌≢◌, refl, sym, ◌∙◌, ap, subst, Bool, true, false, Option,
  none, some, List, [], ◌∷◌, ◌++◌, if◌then◌else◌, arith, length, str_eq,
}
use ghi.Coverage.Edits.{edited, fits as fits_source}
use ghi.Coverage.Moved.{IsOrdered, IsOrdered-fits}
use ghi.Format.Kinds.{FormatToken, is_kind, comment}
use ghi.Ternary.Tokens.{grammar_tokens, groups_of, Ternary, find_ternaries, ternary_at}
use ghi.Ternary.Bounds.{
  start_at, end_at, Operands, Bounded, refused, bounded, ternary_edits, bound_ternary,
}
use ghi.Ternary.Loop.{
  Normalizing, Round, rewritten, panicked, apply_edits, rewrite_bounded, round_of, round_after,
  ternary_round,
}
use ghi.Format.Printer.{text_at}
use ghi.Ternary.Ordered.{
  bound_ternary-question, AllPlaced, find_ternaries-AllPlaced, IsBounded, bound_ternary-IsBounded,
}

-- The tokens stand in order, from `previous` on and within a source of `n` bytes.
abbrev pub InOrder : (n previous : ℕ) → List FormatToken → Type 0
InOrder n previous [] = previous ≤ n
InOrder n previous (t ∷ ts) = (previous ≤ t.start) × (t.start ≤ t.end) × InOrder n t.end ts

InOrder-from : (n p q : ℕ) (ts : List FormatToken) → p ≤ q → InOrder n q ts → InOrder n p ts
InOrder-from n p q [] h k = omega (arith, h, k)
InOrder-from n p q (t ∷ ts) h k = (omega (arith, h, k.0), k.1, k.2)

InOrder-if :
    (c : Bool) (n p : ℕ) (xs ys : List FormatToken)
    → InOrder n p xs
    → InOrder n p ys
    → InOrder n p (if c then xs else ys)
InOrder-if true n p xs ys h k = h
InOrder-if false n p xs ys h k = k

grammar_tokens-InOrder :
    (n p : ℕ) (ts : List FormatToken) → InOrder n p ts → InOrder n p (grammar_tokens ts)
unfolding grammar_tokens
grammar_tokens-InOrder n p [] h = h
grammar_tokens-InOrder n p (t ∷ ts) h =
    let ih = grammar_tokens-InOrder n t.end ts h.2 in
    InOrder-if (is_kind t.kind comment) n p _ _
      (InOrder-from n p t.end _ (omega (arith, h.0, h.1)) ih) (h.0, h.1, ih)

pub within_source :
    (n p : ℕ) (ts : List FormatToken) (i : ℕ)
    → InOrder n p ts
    → i < length ts
    → (p ≤ start_at ts i) × (start_at ts i ≤ end_at ts i) × (end_at ts i ≤ n)
within_source n p [] i h less = absurd (omega arith)
within_source n p (t ∷ []) zero h less = h
within_source n p (t ∷ u ∷ ts) zero h less =
    (h.0, h.1, omega (arith, within_source n t.end (u ∷ ts) zero h.2 (omega arith)))
within_source n p (t ∷ ts) (suc i) h less =
    let later = within_source n t.end ts i h.2 (omega arith) in
    (omega (arith, h.0, h.1, later), later.1, later.2)

pub in_turn :
    (n p : ℕ) (ts : List FormatToken) (i j : ℕ)
    → InOrder n p ts
    → i < j
    → j < length ts
    → end_at ts i ≤ start_at ts j
in_turn n p [] i j h less long = absurd (omega arith)
in_turn n p (t ∷ ts) i zero h less long = absurd (omega arith)
in_turn n p (t ∷ ts) zero (suc j) h less long = (within_source n t.end ts j h.2 (omega arith)).0
in_turn n p (t ∷ ts) (suc i) (suc j) h less long =
    in_turn n t.end ts i j h.2 (omega arith) (omega arith)

ternary_edits-IsOrdered :
    (n : ℕ) (ts : List FormatToken) (o : Operands)
    → InOrder n 0 ts
    → IsBounded (length ts) o
    → IsOrdered n 0 (ternary_edits ts o)
unfolding ternary_edits
ternary_edits-IsOrdered n ts o h (first, second, third, inside) =
    let at_start = within_source n 0 ts o.start h (omega arith) in
    let at_question = within_source n 0 ts o.question h (omega arith) in
    let at_colon = within_source n 0 ts o.colon h (omega arith) in
    let at_end = within_source n 0 ts (o.end - 1) h (omega arith) in
    let to_question = in_turn n 0 ts o.start o.question h first (omega arith) in
    let to_colon = in_turn n 0 ts o.question o.colon h (omega arith) (omega arith) in
    let to_end = in_turn n 0 ts o.colon (o.end - 1) h (omega arith) (omega arith) in
    (
      omega arith,
      omega arith,
      (
        omega (arith, at_start, to_question),
        at_question.1,
        (to_colon, at_colon.1, (omega (arith, to_end, at_end), omega arith, at_end.2)),
      ),
    )

-- The questions are the tokens `?`.
abbrev pub IsAsked : List FormatToken → ℕ → Type 0
IsAsked ts q = str_eq (text_at ts q) "?" ≡ true

abbrev AllAsked : List FormatToken → List Ternary → Type 0
AllAsked ts [] = Unit
AllAsked ts (t ∷ rest) = IsAsked ts t.question × AllAsked ts rest

AllAsked-append :
    (ts : List FormatToken) (xs ys : List Ternary)
    → AllAsked ts xs
    → AllAsked ts ys
    → AllAsked ts (xs ++ ys)
AllAsked-append ts [] ys h k = k
AllAsked-append ts (x ∷ xs) ys h k = (h.0, AllAsked-append ts xs ys h.1 k)

text-here :
    (before : List FormatToken) (t : FormatToken) (after : List FormatToken)
    → text_at (before ++ (t ∷ after)) (length before) ≡ t.text
text-here [] t after = refl
text-here (x ∷ before) t after = text-here before t after

append_one :
    (before : List FormatToken) (t : FormatToken) (after : List FormatToken)
    → (before ++ (t ∷ [])) ++ after ≡ before ++ (t ∷ after)
append_one [] t after = refl
append_one (x ∷ before) t after = ap (λ r. x ∷ r) (append_one before t after)

length-append_one :
    (before : List FormatToken) (t : FormatToken)
    → length (before ++ (t ∷ [])) ≡ suc (length before)
length-append_one [] t = refl
length-append_one (x ∷ before) t = ap suc (length-append_one before t)

AllAsked-at :
    (ts : List FormatToken) (i : ℕ) (asks : Bool) (o : Option ℕ)
    → (asks ≡ true → IsAsked ts i)
    → AllAsked ts (if asks then ternary_at i o else [])
AllAsked-at ts i true none h = tt
AllAsked-at ts i true (some j) h = (h refl, tt)
AllAsked-at ts i false o h = tt

find_ternaries-AllAsked :
    (groups : List (ℕ × ℕ)) (whole before ts : List FormatToken) (i : ℕ)
    → whole ≡ before ++ ts
    → i ≡ length before
    → AllAsked whole (find_ternaries groups i ts)
unfolding find_ternaries
find_ternaries-AllAsked groups whole before [] i same place = tt
find_ternaries-AllAsked groups whole before (t ∷ ts) i same place =
    AllAsked-append whole _ _
      (AllAsked-at whole i (str_eq t.text "?") _
        (λ asks. rw (same, place, text-here before t ts) asks))
      (find_ternaries-AllAsked groups whole (before ++ (t ∷ [])) ts (suc i)
        (same ∙ sym (append_one before t ts)) (ap suc place ∙ sym (length-append_one before t)))

module _ (scan : List ℕ → Option (List FormatToken)) (complete : List ℕ → Bool) where
  -- A round that has this result for these tokens has made these edits.
  abbrev pub Rewrites : List FormatToken → Normalizing → Normalizing → Type 0
  Rewrites ts n n' =
      (o : Operands) × IsBounded (length ts) o
      × IsOrdered (length n.source) 0 (ternary_edits ts o)
      × IsAsked ts o.question
      × (n'.source ≡ edited (ternary_edits ts o) n.source)

  rewrite_bounded-Rewrites :
      (ts : List FormatToken) (n n' : Normalizing) (b : Bounded)
      → InOrder (length n.source) 0 ts
      → ((o : Operands) → b ≡ bounded o → IsBounded (length ts) o × IsAsked ts o.question)
      → rewrite_bounded ts n b ≡ rewritten n'
      → Rewrites ts n n'
  unfolding apply_edits
  rewrite_bounded-Rewrites ts n n' (refused e) h inside done = absurd (cc)
  rewrite_bounded-Rewrites ts n n' (bounded o) h inside done =
      let fits = inside o refl in
      (
        o,
        fits.0,
        ternary_edits-IsOrdered (length n.source) ts o h fits.0,
        fits.1,
        ap (source_after n) (sym (rw (fitting h fits.0) at done)),
      )
    where
      fitting :
          InOrder (length n.source) 0 ts
          → IsBounded (length ts) o
          → fits_source (length n.source) 0 (ternary_edits ts o) ≡ true
      fitting h inside =
          IsOrdered-fits (length n.source) 0 (ternary_edits ts o)
            (ternary_edits-IsOrdered (length n.source) ts o h inside)

      source_after : Normalizing → Round → List ℕ
      source_after n (rewritten m) = m.source
      source_after n _ = n.source

  round_of-Rewrites :
      (ts : List FormatToken) (pairs : List Ternary) (n n' : Normalizing)
      → InOrder (length n.source) 0 ts
      → AllPlaced 0 (length ts) pairs
      → AllAsked ts pairs
      → round_of scan complete ts pairs n ≡ rewritten n'
      → Rewrites ts n n'
  round_of-Rewrites ts [] n n' h placed asked done = absurd (cc)
  round_of-Rewrites ts (t ∷ rest) n n' h placed asked done =
      let groups = groups_of ts in
      rewrite_bounded-Rewrites ts n n' (bound_ternary complete n.source ts groups (t ∷ rest) t) h
        (λ o same. (
          bound_ternary-IsBounded complete n.source ts groups (t ∷ rest) t o placed.0 same,
          subst (IsAsked ts)
              (bound_ternary-question complete n.source ts groups (t ∷ rest) t o same) asked.0,
        ))
        done

  rewrite_bounded-safe :
      (ts : List FormatToken) (n : Normalizing) (b : Bounded)
      → InOrder (length n.source) 0 ts
      → ((o : Operands) → b ≡ bounded o → IsBounded (length ts) o)
      → rewrite_bounded ts n b ≢ panicked
  rewrite_bounded-safe ts n (refused e) h inside done = absurd (cc)
  rewrite_bounded-safe ts n (bounded o) h inside done =
      let fitted =
        IsOrdered-fits (length n.source) 0 (ternary_edits ts o)
          (ternary_edits-IsOrdered (length n.source) ts o h (inside o refl)) in
      absurd (cc (rw fitted at done))

  round_of-safe :
      (ts : List FormatToken) (pairs : List Ternary) (n : Normalizing)
      → InOrder (length n.source) 0 ts
      → AllPlaced 0 (length ts) pairs
      → round_of scan complete ts pairs n ≢ panicked
  round_of-safe ts [] n h placed done = absurd (cc)
  round_of-safe ts (t ∷ rest) n h placed done =
      let groups = groups_of ts in
      rewrite_bounded-safe ts n (bound_ternary complete n.source ts groups (t ∷ rest) t) h
        (λ o same. bound_ternary-IsBounded complete n.source ts groups (t ∷ rest) t o placed.0 same)
        done

  -- A round slices the source within its range.
  pub ternary_round-safe :
      (n : Normalizing) (all : List FormatToken)
      → scan n.source ≡ some all
      → InOrder (length n.source) 0 all
      → ternary_round scan complete n ≢ panicked
  unfolding ternary_round
  ternary_round-safe n all scanned ordered done =
      let ts = grammar_tokens all in
      let size : 0 + length ts ≡ length ts = omega arith in
      round_of-safe ts (find_ternaries (groups_of ts) 0 ts) n
        (grammar_tokens-InOrder (length n.source) 0 all ordered)
        (subst (λ k. AllPlaced 0 k (find_ternaries (groups_of ts) 0 ts)) size
          (find_ternaries-AllPlaced (groups_of ts) 0 ts))
        (ap (λ s. round_after scan complete s n) (sym scanned) ∙ done)

  -- Where the scanner's tokens stand in order within the source, a round that rewrites the source
  -- has found a condition, a token `?`, and two values of at least one token each, in this order,
  -- and its four edits stand in order within the source: the new source is the old one with these edits.
  pub ternary_round-IsOrdered :
      (n n' : Normalizing) (all : List FormatToken)
      → scan n.source ≡ some all
      → InOrder (length n.source) 0 all
      → ternary_round scan complete n ≡ rewritten n'
      → Rewrites (grammar_tokens all) n n'
  unfolding ternary_round
  ternary_round-IsOrdered n n' all scanned ordered done =
      let ts = grammar_tokens all in
      let groups = groups_of ts in
      let size : 0 + length ts ≡ length ts = omega arith in
      round_of-Rewrites ts (find_ternaries groups 0 ts) n n'
        (grammar_tokens-InOrder (length n.source) 0 all ordered)
        (subst (λ k. AllPlaced 0 k (find_ternaries groups 0 ts)) size
          (find_ternaries-AllPlaced groups 0 ts))
        (find_ternaries-AllAsked groups ts [] ts 0 refl refl)
        (ap (λ s. round_after scan complete s n) (sym scanned) ∙ done)
