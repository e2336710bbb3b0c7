-- ===== src/Ternary/Loop.antt =====
-- internal/compiler/ternary_parse.go: `normalizeTernaries`. The scanner is a parameter, which gives
-- the tokens of a source unless it has an error, and so is `parser.ParseExpr`. Each round scans the
-- source again; a round of the loop takes one unit of fuel.
use ghi.Prelude.{
  ℕ, zero, suc, ◌-◌, Bool, false, ◌||◌, Option, none, some, List, [], ◌∷◌, if◌then◌else◌, ◌==◌,
  length, map,
}
use ghi.Coverage.Edits.{SourceMap, edited, fits, spliced, apply_expression}
use ghi.Format.Kinds.{FormatToken}
use ghi.Ternary.Tokens.{grammar_tokens, groups_of, Ternary, find_ternaries}
use ghi.Ternary.Bounds.{
  start_at, end_at, TernaryError, not_scanned, Operands, Bounded, refused, bounded, ternary_edits,
  bound_ternary,
}

-- The source and the maps that go with it.
pub record Normalizing : Type 0 where
  pub source : List ℕ
  pub mappings : List SourceMap

pub data Round : Type 0 where
  failed : TernaryError → Round
  finished : Normalizing → Round
  rewritten : Normalizing → Round
  -- A slice out of range.
  panicked : Round

abbrev pub has_question : List ℕ → Bool
has_question [] = false
has_question (b ∷ bs) = (b == 63) || has_question bs

unfoldable pub apply_edits : List FormatToken → Operands → Normalizing → Normalizing
unfolding spliced ternary_edits apply_expression
apply_edits ts o n =
    let es = ternary_edits ts o in
    record {
      source = edited es n.source;
      mappings =
          map (λ m. apply_expression n.source es (start_at ts o.start) (end_at ts (o.end - 1)) m)
            n.mappings;
    }

abbrev pub rewrite_bounded : List FormatToken → Normalizing → Bounded → Round
rewrite_bounded ts n (refused e) = failed e
rewrite_bounded ts n (bounded o) =
    if fits (length n.source) 0 (ternary_edits ts o)
    then rewritten (apply_edits ts o n)
    else panicked

module _ (scan : List ℕ → Option (List FormatToken)) (complete : List ℕ → Bool) where
  abbrev pub round_of : List FormatToken → List Ternary → Normalizing → Round
  round_of ts [] n = finished n
  round_of ts (t ∷ rest) n =
      rewrite_bounded ts n (bound_ternary complete n.source ts (groups_of ts) (t ∷ rest) t)

  abbrev pub round_after : Option (List FormatToken) → Normalizing → Round
  round_after none n = failed not_scanned
  round_after (some all) n =
      let ts = grammar_tokens all in round_of ts (find_ternaries (groups_of ts) 0 ts) n

  -- One round of the loop.
  unfoldable pub ternary_round : Normalizing → Round
  unfolding fits grammar_tokens find_ternaries bound_ternary apply_edits
  ternary_round n = round_after (scan n.source) n

  unfoldable pub run_rounds : ℕ → Normalizing → Option Round
  unfolding ternary_round
  run_rounds zero n = none
  run_rounds (suc fuel) n = elim (ternary_round n) [
    | failed e ↦ some (failed e)
    | finished n' ↦ some (finished n')
    | rewritten n' ↦ run_rounds fuel n'
    | panicked ↦ some panicked
  ]

  unfoldable pub normalize_ternaries : ℕ → Normalizing → Option Round
  unfolding run_rounds
  normalize_ternaries fuel n =
      if has_question n.source then run_rounds fuel n else some (finished n)
