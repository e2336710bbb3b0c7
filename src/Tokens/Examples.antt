-- ===== src/Tokens/Examples.antt =====
-- The sources `f(x[\n1])` and `(]`, by their tokens.
use ghi.Prelude.{ℕ, ◌≡◌, refl, Option, none, some, List, [], ◌∷◌}
use ghi.Tokens.Pairs.{
  round, square, Kind, opening, closing, other, Item, SyntaxToken, complete, mismatched, unclosed,
  unmatched, out_of_range, analyze_items, analyze,
}
use ghi.Tokens.Balance.{Balanced}

abbrev source : List ℕ
source = 102 ∷ 40 ∷ 120 ∷ 91 ∷ 10 ∷ 49 ∷ 93 ∷ 41 ∷ []

abbrev item : Kind → ℕ → ℕ → Item
item kind start end = record { kind = kind; start = start; end = end }

abbrev items : List Item
items =
    item other 0 1
    ∷ item (opening round) 1 2
    ∷ item other 2 3
    ∷ item (opening square) 3 4
    ∷ item other 5 6
    ∷ item (closing square) 6 7
    ∷ item (closing round) 7 8
    ∷ []

abbrev token : Kind → (start end line column : ℕ) → Option ℕ → SyntaxToken
token kind start end line column matching = record {
  kind = kind;
  start = start;
  end = end;
  line = line;
  column = column;
  matching = matching;
}

analyze_lem :
    analyze source items
    ≡ complete (
        token other 0 1 1 1 none
        ∷ token (opening round) 1 2 1 2 (some 6)
        ∷ token other 2 3 1 3 none
        ∷ token (opening square) 3 4 1 4 (some 5)
        ∷ token other 5 6 2 1 none
        ∷ token (closing square) 6 7 2 2 (some 3)
        ∷ token (closing round) 7 8 2 3 (some 1)
        ∷ [])
unfolding analyze_items
analyze_lem = refl

analyze_errors :
    (analyze source (item (opening round) 0 1 ∷ item (closing square) 1 2 ∷ []) ≡ mismatched)
    × (analyze source (item (closing square) 1 2 ∷ []) ≡ unmatched)
    × (analyze source (item (opening round) 0 1 ∷ []) ≡ unclosed)
unfolding analyze_items
analyze_errors = (refl, refl, refl)

analyze_past : analyze source (item other 9 10 ∷ []) ≡ out_of_range
unfolding analyze_items
analyze_past = refl
