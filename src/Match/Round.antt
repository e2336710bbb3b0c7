-- ===== src/Match/Round.antt =====
-- internal/compiler/match_parse.go: one round of `normalizeMatches`, which rewrites the last match of
-- a source. The scanner, `lexSource`, is a parameter. `sort.SliceStable` is an insertion sort.
use ghi.Prelude.{
  length, ℕ, suc, ◌-◌, Bool, false, ◌&&◌, ◌||◌, not, Option, none, some, List, [], ◌∷◌,
  if◌then◌else◌, ltb, ◌==◌, str_eq, take, drop, map,
}
use ghi.Coverage.Edits.{SourceEdit, edited, fits, spliced, apply_expression}
use ghi.Format.Kinds.{
  FormatKind, illegal, ident, period, semicolon, eof, lbrace, rbrace, is_kind, FormatToken,
}
use ghi.Ternary.Bounds.{bytes_of, start_at, end_at}
use ghi.Ternary.Loop.{Normalizing}
use ghi.Match.Arms.{
  MatchSyntaxError, not_lexed, unclosed, no_subject, find_match, skip_group, Armed, unarmed, armed,
  between, scan_arms_from,
}

abbrev pub or_found : Option ℕ → Option ℕ → Option ℕ
or_found none later = later
or_found (some i) later = some i

-- The index of the last `match`, from the token at `i` on, that is no member of a package.
unfoldable pub last_match : (i : ℕ) → (before : FormatKind) → List FormatToken → Option ℕ
last_match i before [] = none
last_match i before (t ∷ ts) = or_found (last_match (suc i) t.kind ts) (
    if is_kind t.kind ident && str_eq t.text "match" && not (is_kind before period)
    then some i
    else none)

pub data Body : Type 0 where
  bodiless : MatchSyntaxError → Body
  opens_at : ℕ → Body

abbrev pub skip_to : Option ℕ → (ℕ → Body) → Body
skip_to none next = bodiless unclosed
skip_to (some k) next = next (suc k)

-- The brace that opens the body, from the token at `j` on; those up to `skip` are passed over.
unfoldable pub find_body : List FormatToken → (j skip : ℕ) → List FormatToken → Body
unfolding skip_group
find_body ts j skip [] = bodiless no_subject
find_body ts j skip (t ∷ later) =
    let next = λ (skip' : ℕ). find_body ts (suc j) skip' later in
    if ltb j skip
    then next skip
    else if is_kind t.kind lbrace
    then opens_at j
    else if is_kind t.kind eof || is_kind t.kind semicolon
    then bodiless no_subject
    else skip_to (skip_group j t.kind (drop j ts)) next

unfoldable pub insert_edit : SourceEdit → List SourceEdit → List SourceEdit
insert_edit e [] = e ∷ []
insert_edit e (x ∷ xs) =
    let rest = insert_edit e xs in if ltb x.start e.start then x ∷ rest else e ∷ (x ∷ xs)

unfoldable pub sort_edits : List SourceEdit → List SourceEdit
unfolding insert_edit
sort_edits [] = []
sort_edits (e ∷ es) = insert_edit e (sort_edits es)

abbrev close_text : Bool → List ℕ
close_text found =
    if found
    then bytes_of "}})()"
    else bytes_of "}; panic(\"invalid exhaustive enum match value\") })()"

-- `edits`, before they are sorted; without a default the match must be exhaustive.
unfoldable pub match_edits :
    List FormatToken
    → (first close : ℕ) → List SourceEdit
    → (found_default : Bool) → List SourceEdit
match_edits ts first close arms found =
    record {
      start = start_at ts first;
      end = end_at ts first;
      text = bytes_of "(func() ghi_match_result { switch";
    }
    ∷ record { start = start_at ts close; end = end_at ts close; text = close_text found }
    ∷ arms

pub data MatchRound : Type 0 where
  failed : MatchSyntaxError → MatchRound
  finished : Normalizing → MatchRound
  rewritten : Normalizing → MatchRound
  -- A slice out of range.
  panicked : MatchRound

unfoldable pub apply_match_edits :
    List FormatToken → (first close : ℕ) → List SourceEdit → Normalizing → Normalizing
unfolding spliced apply_expression
apply_match_edits ts first close es n = record {
  source = edited es n.source;
  mappings =
      map (λ m. apply_expression n.source es (start_at ts first) (end_at ts close) m) n.mappings;
}

abbrev pub rewrite_armed : List FormatToken → (first close : ℕ) → Normalizing → Armed → MatchRound
rewrite_armed ts first close n (unarmed e) = failed e
rewrite_armed ts first close n (armed arms found) =
    let es = sort_edits (match_edits ts first close arms found) in
    if fits (length n.source) 0 es
    then rewritten (apply_match_edits ts first close es n)
    else panicked

-- The tokens between the braces.
abbrev pub body_tokens : List FormatToken → (open_at close : ℕ) → List FormatToken
body_tokens ts open_at close = take (close - suc open_at) (drop (suc open_at) ts)

abbrev pub rewrite_closed :
    List FormatToken → (first open_at : ℕ) → Normalizing → Option ℕ → MatchRound
rewrite_closed ts first open_at n none = failed unclosed
rewrite_closed ts first open_at n (some close) =
    rewrite_armed ts first close n
      (scan_arms_from ts between false (suc open_at) 0 (body_tokens ts open_at close))

abbrev pub rewrite_body : List FormatToken → (first : ℕ) → Normalizing → Body → MatchRound
rewrite_body ts first n (bodiless e) = failed e
rewrite_body ts first n (opens_at j) =
    if j == suc first
    then failed no_subject
    else rewrite_closed ts first j n (find_match lbrace rbrace 0 j (drop j ts))

abbrev pub rewrite_match : List FormatToken → Normalizing → Option ℕ → MatchRound
rewrite_match ts n none = finished n
rewrite_match ts n (some first) =
    rewrite_body ts first n (find_body ts (suc first) 0 (drop (suc first) ts))

module _ (lex : List ℕ → Option (List FormatToken)) where
  abbrev pub round_after : Option (List FormatToken) → Normalizing → MatchRound
  round_after none n = failed not_lexed
  round_after (some ts) n = rewrite_match ts n (last_match 0 illegal ts)

  unfoldable pub match_round : Normalizing → MatchRound
  unfolding fits last_match find_body find_match scan_arms_from sort_edits match_edits
      apply_match_edits
  match_round n = round_after (lex n.source) n
