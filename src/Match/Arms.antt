-- ===== src/Match/Arms.antt =====
-- internal/compiler/match_parse.go: the arms of a match in `normalizeMatches`, and `match` of
-- frontend.go, which finds a closing delimiter. A lexeme is a token of the formatter; its line, which
-- only messages use, is left out. The loops over the arms are one pass over the tokens of the body,
-- whose state says in which of the loops the index is; those up to `skip` are passed over.
use ghi.Prelude.{
  ℕ, suc, ◌-◌, Bool, true, false, ◌&&◌, Option, none, some, List, [], ◌∷◌, ◌++◌, if◌then◌else◌, ltb,
  ◌==◌, str_eq, drop,
}
use ghi.Coverage.Edits.{SourceEdit}
use ghi.Format.Kinds.{
  FormatKind, assign, gtr, semicolon, comma, default, lparen, rparen, lbrack, rbrack, lbrace,
  rbrace, is_kind, FormatToken,
}
use ghi.Ternary.Bounds.{bytes_of}

pub data MatchSyntaxError : Type 0 where
  not_lexed unclosed no_subject default_not_final no_arrow no_candidates default_candidates :
      MatchSyntaxError
  no_result no_comma : MatchSyntaxError

-- `match`: the index of the delimiter that closes, from the token at `j` on, with `depth` open.
unfoldable pub find_match :
    (open_kind close_kind : FormatKind) → (depth j : ℕ) → List FormatToken → Option ℕ
find_match o c depth j [] = none
find_match o c depth j (t ∷ ts) =
    let deeper = if is_kind t.kind o then suc depth else depth in
    let closes = is_kind t.kind c in
    let rest = find_match o c (if closes then deeper - 1 else deeper) (suc j) ts in
    if closes && (deeper == 1) then some j else rest

-- `skip`: where a group that begins at `i` ends, or `i` itself; none if it is not closed.
unfoldable pub skip_group : (i : ℕ) → FormatKind → List FormatToken → Option ℕ
unfolding find_match
skip_group i lparen rest = find_match lparen rparen 0 i rest
skip_group i lbrack rest = find_match lbrack rbrack 0 i rest
skip_group i lbrace rest = find_match lbrace rbrace 0 i rest
skip_group i _ rest = some i

pub data Armed : Type 0 where
  unarmed : MatchSyntaxError → Armed
  armed : (edits : List SourceEdit) → (found_default : Bool) → Armed

abbrev pub emit_edits : List SourceEdit → Armed → Armed
emit_edits es (unarmed e) = unarmed e
emit_edits es (armed edits found) = armed (es ++ edits) found

-- Before an arm; among its candidates, with its index and where it begins; or in its result, which
-- begins at `result`.
pub data ArmState : Type 0 where
  between : ArmState
  candidates : (arm start : ℕ) → (is_default : Bool) → ArmState
  results : (result : ℕ) → ArmState

-- What a token leads to: an error, or edits, the next state, and how far to pass over.
pub data ArmStep : Type 0 where
  rejects : MatchSyntaxError → ArmStep
  moves : List SourceEdit → ArmState → (found_default : Bool) → (skip : ℕ) → ArmStep

abbrev pub is_arrow : FormatToken → List FormatToken → Bool
is_arrow t [] = false
is_arrow t (u ∷ us) = is_kind t.kind assign && is_kind u.kind gtr && (t.end == u.start)

abbrev pub end_of_arrow : FormatToken → List FormatToken → ℕ
end_of_arrow t [] = t.end
end_of_arrow t (u ∷ us) = u.end

abbrev arrow_edit : FormatToken → List FormatToken → SourceEdit
arrow_edit t later = record {
  start = t.start;
  end = end_of_arrow t later;
  text = bytes_of ": return ";
}

abbrev case_edit : ℕ → SourceEdit
case_edit start = record { start = start; end = start; text = bytes_of "case " }

abbrev comma_edit : FormatToken → SourceEdit
comma_edit t = record { start = t.start; end = t.end; text = bytes_of ";" }

abbrev pub goes_past : ArmState → Bool → Option ℕ → ArmStep
goes_past state found none = rejects unclosed
goes_past state found (some k) = moves [] state found (suc k)

-- The arrow at `i` of the arm: the checks and the edits.
abbrev pub arrow_step :
    (arm start i : ℕ) → (is_default found : Bool) → FormatToken → List FormatToken → ArmStep
arrow_step arm start i is_default found t later =
    if i == arm
    then rejects no_candidates
    else if is_default
    then (if i == suc arm
        then moves (arrow_edit t later ∷ []) (results (suc (suc i))) true (suc (suc i))
        else rejects default_candidates)
    else moves (case_edit start ∷ arrow_edit t later ∷ []) (results (suc (suc i))) found
        (suc (suc i))

module _ (ts : List FormatToken) where
  -- The token at `i` among the candidates; `later` are the tokens of the body after it.
  unfoldable pub candidate_step :
      (arm start i : ℕ) → (is_default found : Bool) → FormatToken → List FormatToken → ArmStep
  unfolding skip_group
  candidate_step arm start i is_default found t later =
      if is_arrow t later
      then arrow_step arm start i is_default found t later
      else if is_kind t.kind semicolon
      then rejects no_arrow
      else goes_past (candidates arm start is_default) found (skip_group i t.kind (drop i ts))

  unfoldable pub result_step : (result i : ℕ) → (found : Bool) → FormatToken → ArmStep
  unfolding skip_group
  result_step result i found t =
      if (i == result) && is_kind t.kind lbrace
      then rejects no_result
      else if is_kind t.kind comma
      then (if i == result
          then rejects no_result
          else moves (comma_edit t ∷ []) between found (suc i))
      else if is_kind t.kind semicolon
      then rejects no_comma
      else goes_past (results result) found (skip_group i t.kind (drop i ts))

  unfoldable pub arm_step :
      ArmState → (i : ℕ) → (found : Bool) → FormatToken → List FormatToken → ArmStep
  unfolding candidate_step result_step
  arm_step between i found t later =
      if is_kind t.kind semicolon && str_eq t.text "\n"
      then moves [] between found (suc i)
      else if found
      then rejects default_not_final
      else candidate_step i t.start i (is_kind t.kind default) found t later
  arm_step (candidates arm start is_default) i found t later =
      candidate_step arm start i is_default found t later
  arm_step (results result) i found t later = result_step result i found t

  -- The end of the body.
  abbrev pub arms_end : ArmState → Bool → Armed
  arms_end between found = armed [] found
  arms_end (candidates arm start is_default) found = unarmed no_candidates
  arms_end (results result) found = unarmed no_result

  abbrev pub after_step : ArmStep → (ArmState → Bool → ℕ → Armed) → Armed
  after_step (rejects e) next = unarmed e
  after_step (moves es state found skip) next = emit_edits es (next state found skip)

  -- The arms, from the token at `i` of the body on.
  unfoldable pub scan_arms_from :
      ArmState → (found : Bool) → (i skip : ℕ) → List FormatToken → Armed
  unfolding arm_step
  scan_arms_from state found i skip [] = arms_end state found
  scan_arms_from state found i skip (t ∷ later) =
      let next = λ (state' : ArmState) (found' : Bool) (skip' : ℕ).
        scan_arms_from state' found' (suc i) skip' later in
      if ltb i skip then next state found skip else after_step (arm_step state i found t later) next
