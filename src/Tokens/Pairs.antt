-- ===== src/Tokens/Pairs.antt =====
-- internal/compiler/analyze.go: the loop over the scanned tokens in `AnalyzeSource`. A `Matching`
-- of -1 is `none`; the stack is a list with its top first. The kinds other than delimiters are one.
use ghi.Prelude.{
  ℕ, zero, suc, ◌-◌, Bool, true, false, Option, none, some, List, [], ◌∷◌, ◌++◌, ◌==◌,
  if◌then◌else◌, length, get_elem?,
}

pub data Bracket : Type 0 where
  round square curly : Bracket

pub data Kind : Type 0 where
  opening closing : Bracket → Kind
  other : Kind

-- `formatToken`, as the scanner gives it.
pub record Item : Type 0 where
  pub kind : Kind
  pub start : ℕ
  pub end : ℕ

pub record SyntaxToken : Type 0 where
  pub kind : Kind
  pub start : ℕ
  pub end : ℕ
  pub line : ℕ
  pub column : ℕ
  pub matching : Option ℕ

pub data Analysis : Type 0 where
  -- `out_of_range`: the panic of an index past the source, which is recovered into a failure.
  unmatched mismatched unclosed out_of_range : Analysis
  complete : List SyntaxToken → Analysis

pub record Place : Type 0 where
  pub line : ℕ
  pub column : ℕ
  pub offset : ℕ

-- The inner loop: over `count` bytes of the source; none past its end.
unfoldable pub advance : (source : List ℕ) → (count : ℕ) → Place → Option Place
advance source zero p = some p
advance source (suc n) p =
    let newline : Place = record { line = suc p.line; column = 1; offset = suc p.offset } in
    let step : Place = record { line = p.line; column = suc p.column; offset = suc p.offset } in
    elim (get_elem? source p.offset) [
      | none ↦ none
      | some b ↦ advance source n (if b == 10 then newline else step)
    ]

unfoldable pub set_matching : List SyntaxToken → (i j : ℕ) → List SyntaxToken
set_matching [] i j = []
set_matching (t ∷ ts) zero j = record t { matching = some j } ∷ ts
set_matching (t ∷ ts) (suc i) j = t ∷ set_matching ts i j

abbrev pub bracket_eq : Bracket → Bracket → Bool
bracket_eq round round = true
bracket_eq square square = true
bracket_eq curly curly = true
bracket_eq _ _ = false

-- `result.Tokens[open].Kind == want`
abbrev pub opens : Bracket → Option SyntaxToken → Bool
opens b none = false
opens b (some t) = elim t.kind [ opening c ↦ bracket_eq c b | closing c ↦ false | other ↦ false ]

abbrev pub token_at : Place → Item → SyntaxToken
token_at p item = record {
  kind = item.kind;
  start = item.start;
  end = item.end;
  line = p.line;
  column = p.column;
  matching = none;
}

-- The state of the loop: the tokens so far, the stack, and the place.
pub record Loop : Type 0 where
  pub tokens : List SyntaxToken
  pub stack : List ℕ
  pub place : Place

pub data Stepped : Type 0 where
  refused : Analysis → Stepped
  went_on : Loop → Stepped

unfoldable pub close : Bracket → (index : ℕ) → (stack : List ℕ) → Loop → Stepped
unfolding set_matching
close b index [] l = refused unmatched
close b index (top ∷ rest) l =
    if opens b (get_elem? l.tokens top)
    then went_on (record l {
      tokens = set_matching (set_matching l.tokens index top) top index;
      stack = rest;
    })
    else refused mismatched

-- What the switch does after the token at `index` was appended.
unfoldable pub pair : Kind → (index : ℕ) → Loop → Stepped
unfolding close
pair (opening b) index l = went_on (record l { stack = index ∷ l.stack })
pair (closing b) index l = close b index l.stack l
pair other index l = went_on l

abbrev pub append_at : Item → Loop → Place → Loop
append_at item l p = record l { tokens = l.tokens ++ (token_at p item ∷ []); place = p }

abbrev pub and_then : Stepped → (Loop → Analysis) → Analysis
and_then (refused a) next = a
and_then (went_on l) next = next l

abbrev pub finish_stack : (stack : List ℕ) → List SyntaxToken → Analysis
finish_stack [] tokens = complete tokens
finish_stack (top ∷ rest) tokens = unclosed

-- One token, at the place that the inner loop reaches.
unfoldable pub place_token : Item → Option Place → Loop → Stepped
unfolding pair
place_token item none l = refused out_of_range
place_token item (some p) l = pair item.kind (length l.tokens) (append_at item l p)

unfoldable pub analyze_items : (source : List ℕ) → List Item → Loop → Analysis
unfolding advance place_token
analyze_items source [] l = finish_stack l.stack l.tokens
analyze_items source (item ∷ items) l =
    and_then (place_token item (advance source (item.start - l.place.offset) l.place) l)
      (λ l'. analyze_items source items l')

abbrev pub start : Loop
start = record { tokens = []; stack = []; place = record { line = 1; column = 1; offset = 0 } }

abbrev pub analyze : (source : List ℕ) → List Item → Analysis
analyze source items = analyze_items source items start
