-- ===== src/Format/Levels.antt =====
-- Proofs about `formatStructure` of internal/compiler/format_structure.go: the rounds of the loop,
-- for tokens with balanced delimiters.
use ghi.Prelude.{
  ℕ, suc, ◌≡◌, ◌⊎◌, refl, subst, Bool, true, false, ◌&&◌, not, Option, none, some, List, [], ◌∷◌,
  if◌then◌else◌, Bool-cases, arith, inl, inr, str_eq,
}
use ghi.Tokens.Pairs.{Bracket, round, square, curly, Kind, other}
use ghi.Tokens.Balance.{accepts}
use ghi.Format.Kinds.{
  FormatKind, semicolon, is_kind, FormatToken, lbrace, lparen, lbrack, rbrace, comma, gtr, colon,
}
use ghi.Format.Printer.{Frame, Printer, emit, kind_at, last_code, header, is_clause}
use ghi.Format.Steps.{
  gap, trail, end_arm, label, close_frame, split_clause, before_return, semicolon_step, write,
  mark_statement, top_of, set_top, top_is, is_block_close, is_match,
}
use ghi.Format.Layout.{
  enter, after_comma, after_arrow, after_colon, body_step, step, begin_clause, after_brace,
  next_code, is_literal, joined, stays,
}
use ghi.Format.Depth.{
  bracket_kind, Tracks, PrinterTracks, Tracks-newline, Tracks-set_top, Tracks-label, pushed,
  Remaining, close_frame-Tracks,
}
use ghi.Format.Indented.{
  trail-IsLevel, gap-IsLevel, emit-IsLevel, split_clause-IsLevel, before_return-IsLevel,
  Tracks-level, end_arm-Tracks, mark_statement-Tracks, write-Tracks, open_brace-Tracks,
  open_paren-Tracks,
}

module _ (ts : List FormatToken) where
  Tracks-if :
      (c : Bool) (x y : Printer) (bs : List Bracket)
      → PrinterTracks ts x bs
      → PrinterTracks ts y bs
      → PrinterTracks ts (if c then x else y) bs
  Tracks-if true x y bs h k = h
  Tracks-if false x y bs h k = k

  begin_clause-Tracks :
      (i : ℕ) (s : Printer) (bs : List Bracket)
      → PrinterTracks ts s bs
      → PrinterTracks ts (begin_clause i s) bs
  begin_clause-Tracks i s bs h = Tracks-newline ts 1 (record s { clause = suc i }) bs h

  after_comma-Tracks :
      (i : ℕ) (top : Option Frame) (s : Printer) (bs : List Bracket)
      → PrinterTracks ts s bs
      → PrinterTracks ts (after_comma i top s) bs
  unfolding after_comma
  after_comma-Tracks i top s bs h =
      let change : Frame → Frame = λ f. record f { match_result = false; arm_end = true } in
      let s' = if top_is (λ f. str_eq f.header "enum") top then begin_clause i s else s in
      let h' : PrinterTracks ts s' bs =
        Tracks-if (top_is (λ f. str_eq f.header "enum") top) (begin_clause i s) s bs
          (begin_clause-Tracks i s bs h) h in
      let arm : Printer = record s' { stack = set_top change s'.stack } in
      let s'' = if top_is (λ f. is_match f && f.match_result) top then begin_clause i arm else s' in
      let after : PrinterTracks ts s'' bs =
        Tracks-if (top_is (λ f. is_match f && f.match_result) top) (begin_clause i arm) s' bs
          (begin_clause-Tracks i arm bs
            (Tracks-set_top ts change s'.depth s'.stack bs (λ f. (refl, refl, refl, refl)) h'))
          h' in
      Tracks-if (top_is (λ f. f.literal) top) (begin_clause i s'') s'' bs
        (begin_clause-Tracks i s'' bs after) after

  after_arrow-Tracks :
      (i : ℕ) (t : FormatToken) (top : Option Frame) (s : Printer) (bs : List Bracket)
      → PrinterTracks ts s bs
      → PrinterTracks ts (after_arrow i t top s) bs
  unfolding after_arrow
  after_arrow-Tracks i t top s bs h =
      Tracks-if (top_is is_match top && joined s.prev t) _ s bs
        (Tracks-set_top ts (λ f. record f { match_result = true }) s.depth s.stack bs
          (λ f. (refl, refl, refl, refl)) h)
        h

  after_brace-Tracks :
      (i : ℕ) (next : Option FormatToken) (s : Printer) (bs : List Bracket)
      → PrinterTracks ts s bs
      → PrinterTracks ts (after_brace i next s) bs
  after_brace-Tracks i none s bs h = h
  after_brace-Tracks i (some t) s bs h = Tracks-if (stays t) s _ bs h (begin_clause-Tracks i s bs h)

  Tracks-begin_case :
      (d : ℕ) (stack : List Frame) (bs : List Bracket)
      → top_is (λ f. f.cases && not f.active_case) (top_of stack) ≡ true
      → Tracks ts d stack bs
      → Tracks ts
          (suc d)
          (set_top (λ f. record f { active_case = true; statement = false }) stack)
          bs
  Tracks-begin_case d [] [] begins h = absurd (cc)
  Tracks-begin_case d (f ∷ fs) (curly ∷ bs) begins h = ground arith
  Tracks-begin_case d (f ∷ fs) (round ∷ bs) begins h = ground arith
  Tracks-begin_case d (f ∷ fs) (square ∷ bs) begins h = ground arith
  Tracks-begin_case d _ _ begins h = absurd h.1

  after_colon-Tracks :
      (i : ℕ) (t : FormatToken) (s : Printer) (bs : List Bracket)
      → PrinterTracks ts s bs
      → PrinterTracks ts (after_colon i t s) bs
  unfolding after_colon
  after_colon-Tracks i t s bs h = choose (not t.ternary) (Bool-cases begins)
    where
      begins : Bool
      begins = top_is (λ f. f.cases && not f.active_case) (top_of s.stack)

      cased : Printer
      cased = record s {
        stack = set_top (λ f. record f { active_case = true; statement = false }) s.stack;
        depth = suc s.depth;
      }

      begun : Printer
      begun = begin_clause i cased

      choose :
          (plain : Bool)
          → (begins ≡ true) ⊎ (begins ≡ false)
          → PrinterTracks ts (if plain && begins then begun else s) bs
      choose plain (inl yes_begins) =
          Tracks-if (plain && begins) begun s bs
            (begin_clause-Tracks i cased bs (Tracks-begin_case s.depth s.stack bs yes_begins h)) h
      choose true (inr ends) = rw ends h
      choose false (inr ends) = h

module _ (ts : List FormatToken) (pairs : List (ℕ × ℕ)) where
  enter-Tracks :
      (k : FormatKind) (i : ℕ) (t : FormatToken) (p : Option ℕ) (later : List FormatToken)
      (s : Printer) (bs : List Bracket)
      → kind_at ts i ≡ k
      → PrinterTracks ts s bs
      → PrinterTracks ts (enter ts pairs k i t p later s) (pushed (bracket_kind k) bs)
  unfolding enter
  enter-Tracks lbrace i t p later s bs here h =
      let head = header ts pairs s i in
      open_brace-Tracks ts pairs i head (is_literal ts pairs head p (top_of s.stack)) s bs here h
  enter-Tracks lparen i t p later s bs here h =
      open_paren-Tracks ts pairs i lparen round p s bs here refl refl h
  enter-Tracks lbrack i t p later s bs here h =
      open_paren-Tracks ts pairs i lbrack square p s bs here refl refl h
  enter-Tracks comma i t p later s bs here h = after_comma-Tracks ts i (top_of s.stack) s bs h
  enter-Tracks gtr i t p later s bs here h = after_arrow-Tracks ts i t (top_of s.stack) s bs h
  enter-Tracks colon i t p later s bs here h = after_colon-Tracks ts i t s bs h
  enter-Tracks rbrace i t p later s bs here h = after_brace-Tracks ts i (next_code later) s bs h
  enter-Tracks _ i t p later s bs here h = h

  -- The stack of brackets that is left after a round, which the later delimiters close.
  unfoldable pub Closes : Printer → List Kind → Type 0
  Closes s rest = (bs : List Bracket) × PrinterTracks ts s bs × (accepts bs rest ≡ true)

  Closes-if :
      (c : Bool) (x y : Printer) (rest : List Kind)
      → (c ≡ true → Closes x rest)
      → Closes y rest
      → Closes (if c then x else y) rest
  Closes-if true x y rest f h = f refl
  Closes-if false x y rest f h = h

  body_step-Closes :
      (i : ℕ) (t : FormatToken) (p : Option ℕ) (later : List FormatToken) (s : Printer)
      (bs : List Bracket) (rest : List Kind)
      → kind_at ts i ≡ t.kind
      → accepts bs (bracket_kind t.kind ∷ rest) ≡ true
      → PrinterTracks ts s bs
      → Closes (body_step ts pairs i t p later s) rest
  unfolding body_step Closes Remaining
  body_step-Closes i t p later s bs rest here ok h =
      let top = top_of s.stack in
      let split = split_clause ts i t p s in
      let labelled = label i t split in
      let opened = close_frame i t labelled in
      let ready = before_return ts t top opened in
      let written = write ts pairs i t p top ready in
      let (cs, closed, left) = close_frame-Tracks ts i t labelled bs rest ok (
        Tracks-label ts i t split bs
          (Tracks-level ts s split bs (split_clause-IsLevel ts i t p s) h)) in
      (
        pushed (bracket_kind t.kind) cs,
        enter-Tracks t.kind i t p later (mark_statement ts t written) cs here (
            mark_statement-Tracks ts t written cs (
              write-Tracks ts pairs i t p top ready cs
                (Tracks-level ts opened ready cs (before_return-IsLevel ts t top opened) closed))),
        left,
      )

  semicolon_step-Tracks :
      (i : ℕ) (t : FormatToken) (p : Option ℕ) (s : Printer) (bs : List Bracket)
      → PrinterTracks ts s bs
      → PrinterTracks ts (semicolon_step ts pairs i t p s) bs
  unfolding semicolon_step
  semicolon_step-Tracks i t p s bs h =
      Tracks-if ts (is_clause (header ts pairs s i) && not (is_block_close ts p s)) _ _ bs
        (Tracks-level ts s (emit ";" false s) bs (emit-IsLevel ";" false s) h)
        (begin_clause-Tracks ts i s bs h)

  semicolon-other : (k : FormatKind) → is_kind k semicolon ≡ true → bracket_kind k ≡ other
  semicolon-other semicolon h = refl
  semicolon-other _ h = cc

  pub step-Closes :
      (i : ℕ) (t : FormatToken) (later : List FormatToken) (s : Printer) (bs : List Bracket)
      (rest : List Kind)
      → kind_at ts i ≡ t.kind
      → accepts bs (bracket_kind t.kind ∷ rest) ≡ true
      → PrinterTracks ts s bs
      → Closes (step ts pairs i t later s) rest
  unfolding step Closes accepts
  step-Closes i t later s bs rest here ok h =
      let p = last_code ts i in
      let s' = end_arm t (trail t (gap t s)) in
      let h' : PrinterTracks ts s' bs = end_arm-Tracks ts t (trail t (gap t s)) bs (
        Tracks-level ts (gap t s) (trail t (gap t s)) bs (trail-IsLevel t (gap t s))
          (Tracks-level ts s (gap t s) bs (gap-IsLevel t s) h)) in
      Closes-if (is_kind t.kind semicolon) (semicolon_step ts pairs i t p s')
        (body_step ts pairs i t p later s') rest
        (λ semi. (
          bs,
          semicolon_step-Tracks i t p s' bs h',
          subst (λ k. accepts bs (k ∷ rest) ≡ true) (semicolon-other t.kind semi) ok,
        ))
        (body_step-Closes i t p later s' bs rest here ok h')
