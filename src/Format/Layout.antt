-- ===== src/Format/Layout.antt =====
-- internal/compiler/format_structure.go: the switch on the kind of the token that was written, the
-- loop over the tokens.
use ghi.Prelude.{
  ℕ, suc, ◌-◌, String, Bool, true, false, ◌&&◌, ◌||◌, not, Option, none, some, List, [], ◌∷◌,
  if◌then◌else◌, ltb, ◌==◌, str_eq,
}
use ghi.Format.Kinds.{
  FormatKind, comment, ident, lparen, lbrack, lbrace, rparen, rbrack, rbrace, semicolon, comma,
  colon, gtr, assign, func, import, period, is_kind, is_operator, FormatToken,
}
use ghi.Format.Printer.{
  Frame, Piece, Printer, start_printer, newline, kind_at, text_at, pair_at, pairs_from, last_code,
  header,
}
use ghi.Format.Steps.{
  top_of, set_top, top_is, kind_before, is_match, gap, trail, end_arm, label, close_frame,
  split_clause, before_return, semicolon_step, write, mark_statement,
}

abbrev pub next_code : List FormatToken → Option FormatToken
next_code [] = none
next_code (t ∷ ts) = let rest = next_code ts in if is_kind t.kind comment then rest else some t

-- The tokens that stay on the line of a closing brace.
abbrev pub stays : FormatToken → Bool
stays t =
    is_kind t.kind comma
    || is_kind t.kind rparen
    || is_kind t.kind rbrack
    || is_kind t.kind period
    || is_kind t.kind lparen
    || is_kind t.kind lbrace
    || str_eq t.text "else"
    || str_eq t.text "catch"
    || str_eq t.text "finally"
    || is_operator t.kind

-- A line break that begins a clause.
abbrev pub begin_clause : ℕ → Printer → Printer
begin_clause i s = newline 1 (record s { clause = suc i })

abbrev pub after_brace : ℕ → Option FormatToken → Printer → Printer
after_brace i none s = s
after_brace i (some t) s = if stays t then s else begin_clause i s

abbrev pub blank_frame : Frame
blank_frame = record {
  index = 0;
  clause = 0;
  literal = false;
  cases = false;
  active_case = false;
  indented = false;
  parameters = false;
  statement = false;
  match_result = false;
  arm_end = false;
  header = "";
}

abbrev pub joined : Option FormatToken → FormatToken → Bool
joined none t = false
joined (some p) t = is_kind p.kind assign && (p.end == t.start)

abbrev is_value : FormatKind → Bool
is_value k =
    is_kind k ident
    || is_kind k rbrack
    || is_kind k rbrace
    || is_kind k comma
    || is_kind k colon
    || is_kind k lbrace

abbrev pub brace_frame : ℕ → Bool → (h : String) → Printer → Frame
brace_frame i literal h s = record blank_frame {
  index = i;
  clause = s.clause;
  literal = literal;
  cases = str_eq h "switch" || str_eq h "select";
  header = h;
}

unfoldable pub after_comma : ℕ → Option Frame → Printer → Printer
unfolding newline
after_comma i top s =
    let s' = if top_is (λ f. str_eq f.header "enum") top then begin_clause i s else s in
    let s'' =
      if top_is (λ f. is_match f && f.match_result) top
      then begin_clause i (record s' {
        stack = set_top (λ f. record f { match_result = false; arm_end = true }) s'.stack;
      })
      else s' in
    if top_is (λ f. f.literal) top then begin_clause i s'' else s''

unfoldable pub after_arrow : ℕ → FormatToken → Option Frame → Printer → Printer
after_arrow i t top s =
    if top_is is_match top && joined s.prev t
    then record s {
      stack = set_top (λ f. record f { match_result = true }) s.stack;
      clause = suc i;
    }
    else s

unfoldable pub after_colon : ℕ → FormatToken → Printer → Printer
unfolding newline
after_colon i t s =
    if not t.ternary && top_is (λ f. f.cases && not f.active_case) (top_of s.stack)
    then begin_clause i (record s {
      stack = set_top (λ f. record f { active_case = true; statement = false }) s.stack;
      depth = suc s.depth;
    })
    else s

module _ (ts : List FormatToken) (pairs : List (ℕ × ℕ)) where
  abbrev within_literal : (p : ℕ) → Option Frame → Bool
  within_literal p none = false
  within_literal p (some f) =
      f.literal && ((p == f.index) || is_kind (kind_at ts p) comma || is_kind (kind_at ts p) colon)

  abbrev pub is_literal : (h : String) → (p : Option ℕ) → Option Frame → Bool
  is_literal h none top = false
  is_literal h (some p) top = (str_eq h "" && is_value (kind_at ts p)) || within_literal p top

  abbrev ending_comma : ℕ → Option ℕ → List ℕ → List ℕ
  ending_comma i none commas = commas
  ending_comma i (some l) commas =
      if ltb i l && not (is_kind (kind_at ts l) comma) then l ∷ commas else commas

  -- The closing brace of a literal is kept, and whether its last element takes a comma.
  unfoldable pub note_literal : ℕ → Bool → Printer → Printer
  unfolding last_code
  note_literal i literal s =
      if literal
      then record s {
        literal_braces = pair_at pairs i ∷ s.literal_braces;
        commas = ending_comma i (last_code ts (pair_at pairs i)) s.commas;
      }
      else s

  unfoldable pub open_brace : ℕ → (h : String) → Bool → Printer → Printer
  unfolding note_literal newline
  open_brace i h literal s =
      let s' = note_literal i literal s in
      let s'' : Printer = record s' {
        stack = brace_frame i literal h s ∷ s'.stack;
        depth = suc s'.depth;
      } in
      record (if pair_at pairs i == suc i then s'' else newline 1 s'') { clause = suc i }

  abbrev starts_parameters : Option ℕ → Bool
  starts_parameters none = false
  starts_parameters (some p) =
      is_kind (kind_at ts p) func
      || str_eq (text_at ts p) "constructor"
      || (ltb 0 p && is_kind (kind_at ts (p - 1)) func)

  abbrev pub paren_frame : ℕ → FormatKind → (p : Option ℕ) → (indent : Bool) → Frame
  paren_frame i k p indent = record blank_frame {
    index = i;
    indented = indent;
    parameters = is_kind k lparen && starts_parameters p;
  }

  unfoldable pub open_paren : ℕ → FormatKind → (p : Option ℕ) → Printer → Printer
  unfolding newline
  open_paren i k p s =
      let indent =
        is_kind k lparen && is_kind (kind_before ts p) import && not (pair_at pairs i == suc i) in
      let s' : Printer = record s { stack = paren_frame i k p indent ∷ s.stack } in
      if indent then newline 1 (record s' { depth = suc s'.depth }) else s'

  unfoldable pub enter :
      FormatKind → ℕ → FormatToken → (p : Option ℕ) → List FormatToken → Printer → Printer
  unfolding open_brace open_paren after_comma after_arrow after_colon header newline is_operator
  enter lbrace i t p later s =
      let h = header ts pairs s i in open_brace i h (is_literal h p (top_of s.stack)) s
  enter lparen i t p later s = open_paren i lparen p s
  enter lbrack i t p later s = open_paren i lbrack p s
  enter comma i t p later s = after_comma i (top_of s.stack) s
  enter gtr i t p later s = after_arrow i t (top_of s.stack) s
  enter colon i t p later s = after_colon i t s
  enter rbrace i t p later s = after_brace i (next_code later) s
  enter _ i t p later s = s

  unfoldable pub body_step : ℕ → FormatToken → (p : Option ℕ) → List FormatToken → Printer → Printer
  unfolding split_clause label close_frame before_return write mark_statement enter
  body_step i t p later s =
      let top = top_of s.stack in
      let opened = close_frame i t (label i t (split_clause ts i t p s)) in
      let written =
        mark_statement ts t (write ts pairs i t p top (before_return ts t top opened)) in
      record (enter t.kind i t p later written) { prev = some t }

  -- One round of the loop: the token at `i`, with those after it.
  unfoldable pub step : ℕ → FormatToken → List FormatToken → Printer → Printer
  unfolding gap trail end_arm last_code semicolon_step body_step
  step i t later s =
      let p = last_code ts i in
      let s' = end_arm t (trail t (gap t s)) in
      if is_kind t.kind semicolon
      then semicolon_step ts pairs i t p s'
      else body_step i t p later s'

  unfoldable pub print_from : ℕ → List FormatToken → Printer → Printer
  unfolding step
  print_from i [] s = s
  print_from i (t ∷ later) s = print_from (suc i) later (step i t later s)

-- The pieces that are written for the tokens.
unfoldable pub printed : List FormatToken → List Piece
unfolding print_from pairs_from
printed ts = (print_from ts (pairs_from 0 [] ts) 0 ts start_printer).out
