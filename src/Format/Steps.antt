-- ===== src/Format/Steps.antt =====
-- internal/compiler/format_structure.go: the loop of `formatStructure` over the tokens. What the
-- source writes to `top` after the frame has left the stack is read no more, and is left out.
use ghi.Prelude.{
  ℕ, suc, ◌-◌, String, Bool, true, false, ◌&&◌, ◌||◌, not, Option, none, some, List, [], ◌∷◌,
  if◌then◌else◌, ◌==◌, str_eq, starts_with,
}
use ghi.Format.Kinds.{
  FormatKind, illegal, comment, ident, lparen, lbrack, lbrace, rparen, rbrack, rbrace, gtr, mul,
  and, arrow, bang, case, default, return_word, func, is_kind, FormatToken, ends_statement,
  format_space,
}
use ghi.Format.Printer.{
  Frame, Printer, newline, emit, kind_at, has, pair_at, is_close, header, is_clause, is_type,
}

abbrev pub top_of : List Frame → Option Frame
top_of [] = none
top_of (f ∷ fs) = some f

abbrev pub set_top : (Frame → Frame) → List Frame → List Frame
set_top change [] = []
set_top change (f ∷ fs) = change f ∷ fs

-- A test of the frame on top, false if there is none.
abbrev pub top_is : (Frame → Bool) → Option Frame → Bool
top_is test none = false
top_is test (some f) = test f

abbrev pub kind_before : List FormatToken → Option ℕ → FormatKind
kind_before ts none = illegal
kind_before ts (some p) = kind_at ts p

abbrev is_line_comment : FormatToken → Bool
is_line_comment p = is_kind p.kind comment && starts_with p.text "//"

abbrev pub keeps_blank : FormatKind → FormatKind → Bool
keeps_blank p t =
    not (is_kind p lbrace)
    && not (is_kind p lparen)
    && not (is_kind t rbrace)
    && not (is_kind t rparen)

abbrev pub breaks_gap : FormatToken → FormatToken → Bool
breaks_gap p t = t.break_before || is_line_comment p

abbrev pub gap_after : Option FormatToken → FormatToken → Printer → Printer
gap_after none t s = s
gap_after (some p) t s =
    let s' = newline 1 s in
    if breaks_gap p t
    then (if t.blank_before && keeps_blank p.kind t.kind then newline 2 s' else s')
    else s

-- The line breaks of the source before the token.
unfoldable pub gap : FormatToken → Printer → Printer
unfolding newline
gap t s = gap_after s.prev t s

-- A structural line break belongs after a trailing comment.
unfoldable pub trail : FormatToken → Printer → Printer
trail t s = elim s.prev [
  | none ↦ s
  | some p ↦
      if is_kind t.kind comment && not t.break_before && not (is_kind p.kind lbrace)
      then record s { pending = 0 }
      else s
]

abbrev pub is_match : Frame → Bool
is_match f = str_eq f.header "match"

unfoldable pub end_arm : FormatToken → Printer → Printer
unfolding newline
end_arm t s =
    if top_is (λ f. is_match f && f.arm_end) (top_of s.stack) && not (is_kind t.kind comment)
    then newline 1 (record s { stack = set_top (λ f. record f { arm_end = false }) s.stack })
    else s

abbrev pub is_case : FormatKind → Bool
is_case k = is_kind k case || is_kind k default

-- A label ends the case before it.
unfoldable pub label : ℕ → FormatToken → Printer → Printer
unfolding newline
label i t s =
    if is_case t.kind && top_is (λ f. f.cases) (top_of s.stack)
    then newline 1 (record s {
      depth = if top_is (λ f. f.active_case) (top_of s.stack) then s.depth - 1 else s.depth;
      stack = set_top (λ f. record f { active_case = false }) s.stack;
      clause = i;
    })
    else s

abbrev pub outdent : Frame → Printer → Printer
outdent f s = if f.indented then newline 1 (record s { depth = s.depth - 1 }) else s

abbrev pub close_brace : ℕ → Frame → Printer → Printer
close_brace i f s =
    let s' : Printer = record s {
      clause = f.clause;
      depth = (if f.active_case then s.depth - 1 else s.depth) - 1;
    } in
    if i == suc f.index then s' else newline 1 s'

abbrev pub close_top : ℕ → FormatKind → Frame → List Frame → Printer → Printer
close_top i k f fs s =
    let s' = outdent f s in
    record (if is_kind k rbrace then close_brace i f s' else s') { stack = fs }

abbrev pub close_stack : ℕ → FormatKind → List Frame → Printer → Printer
close_stack i k [] s = s
close_stack i k (f ∷ fs) s = close_top i k f fs s

-- A closing delimiter takes the frame on top away.
unfoldable pub close_frame : ℕ → FormatToken → Printer → Printer
unfolding newline
close_frame i t s = if is_close t.kind then close_stack i t.kind s.stack s else s

module _ (ts : List FormatToken) where
  abbrev pub is_braced : Frame → Bool
  is_braced f = is_kind (kind_at ts f.index) lbrace

  abbrev pub ends_at : Option ℕ → Bool
  ends_at none = false
  ends_at (some p) = ends_statement (kind_at ts p)

  abbrev pub holds_statements : Option Frame → Bool
  holds_statements none = true
  holds_statements (some f) = is_braced f && not f.literal

  -- A line break after a statement begins a clause.
  unfoldable pub split_clause : ℕ → FormatToken → (p : Option ℕ) → Printer → Printer
  split_clause i t p s =
      if t.break_before && ends_at p && holds_statements (top_of s.stack)
      then record s { clause = i }
      else s

  unfoldable pub before_return : FormatToken → Option Frame → Printer → Printer
  unfolding newline
  before_return t top s =
      if is_kind t.kind return_word && top_is (λ f. is_braced f && not f.literal) top
      then newline (if top_is (λ f. f.statement) top then 2 else 1) s
      else s

  abbrev pub is_block_close : Option ℕ → Printer → Bool
  is_block_close none s = false
  is_block_close (some p) s = is_kind (kind_at ts p) rbrace && not (has s.literal_braces p)

  -- No operand stands before the operator at `p`.
  abbrev pub is_unary : (p : ℕ) → Printer → Bool
  is_unary p s = (p == s.clause) || (p == 0) || not (ends_statement (kind_at ts (p - 1)))

  -- The frame on top has a statement, unless the token closes it.
  unfoldable pub mark_statement : FormatToken → Printer → Printer
  mark_statement t s =
      if top_is is_braced (top_of s.stack)
        && not (is_kind t.kind comment)
        && not (is_close t.kind)
        && not (is_case t.kind)
      then record s { stack = set_top (λ f. record f { statement = true }) s.stack }
      else s

module _ (ts : List FormatToken) (pairs : List (ℕ × ℕ)) where
  -- A semicolon stays within the header of a statement, and is a line break elsewhere.
  unfoldable pub semicolon_step : ℕ → FormatToken → (p : Option ℕ) → Printer → Printer
  unfolding newline emit header
  semicolon_step i t p s =
      if is_clause (header ts pairs s i) && not (is_block_close ts p s)
      then record (emit ";" false s) { prev = some t }
      else newline 1 (record s { clause = suc i })

  -- A bracket that begins a type stands apart.
  abbrev pub type_bracket : ℕ → FormatKind → (p : ℕ) → Bool
  type_bracket i k p =
      is_kind k lbrack
      && is_kind (kind_at ts p) ident
      && ((pair_at pairs i == suc i) || is_kind (kind_at ts (suc (pair_at pairs i))) ident)

  abbrev is_fields : Frame → Bool
  is_fields f = f.parameters || str_eq f.header "struct" || str_eq f.header "interface"

  -- The rules that join the token to the one at `p`.
  unfoldable pub joins : ℕ → FormatKind → (p : ℕ) → (h : String) → Option Frame → Printer → Bool
  joins i k p h top s =
      let q = kind_at ts p in
      (is_kind k lbrace && (pair_at pairs i == suc i) && is_type q)
      || (is_kind q rbrack
          && (is_kind k ident
              || is_kind k lbrack
              || is_kind k func
              || (is_kind k lbrace && str_eq h "")))
      || (is_kind k lbrace && str_eq h "" && not (is_kind q gtr) && not (is_kind q rparen))
      || (is_kind q and && is_unary ts p s)
      || (is_kind q mul && is_unary ts p s)
      || (is_kind q mul && (top_is is_fields top || str_eq h "func"))
      || (is_kind q arrow && is_unary ts p s)
      || is_kind q bang

  abbrev plain : FormatToken → Option FormatToken → Bool
  plain t none = false
  plain t (some p) = format_space p t

  abbrev adjust : ℕ → FormatKind → Option ℕ → (h : String) → Option Frame → Printer → Bool → Bool
  adjust i k none h top s space = space
  adjust i k (some p) h top s space = (space || type_bracket i k p) && not (joins i k p h top s)

  -- Whether a space stands before the token.
  unfoldable pub spaced : ℕ → FormatToken → (p : Option ℕ) → Option Frame → Printer → Bool
  unfolding format_space joins header
  spaced i t p top s = adjust i t.kind p (header ts pairs s i) top s (plain t s.prev)

  -- The token is written, and a comma where a literal ends without one.
  unfoldable pub write : ℕ → FormatToken → (p : Option ℕ) → Option Frame → Printer → Printer
  unfolding spaced emit
  write i t p top s =
      let s' = emit t.text (spaced i t p top s) s in
      if has s'.commas i then emit "," false s' else s'
