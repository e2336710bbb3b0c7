-- ===== src/Coverage/Examples.antt =====
-- The source `a?b` with its question mark widened by one pass, and `x` put before it by another.
use ghi.Prelude.{
  ℕ, ◌≡◌, refl, true, inr, Option, none, some, List, [], ◌∷◌, arith, get_elem?, ◌≤◌, length,
}
use ghi.Coverage.Edits.{
  SourceEdit, SourceMap, spliced, apply, edited, edited_offset, finish, position, at_line, nowhere,
}
use ghi.Coverage.Origins.{IsTraced, AreOrdered, sources, maps, maps-IsTraced}
use ghi.Coverage.Moved.{edited_offset-finds}
use ghi.Coverage.Positions.{line_at, column_at, place_of, position-exact}

abbrev source : List ℕ
source = 97 ∷ 10 ∷ 63 ∷ 98 ∷ []

abbrev change : ℕ → ℕ → List ℕ → SourceEdit
change start end text = record { start = start; end = end; text = text }

abbrev fresh : SourceMap
fresh = record { expressions = []; original = []; offsets = none; lines = []; original_lines = [] }

abbrev widen : List SourceEdit
widen = change 0 0 (120 ∷ []) ∷ change 2 3 (40 ∷ 41 ∷ 42 ∷ []) ∷ []

abbrev passes : List (List SourceEdit)
passes = widen ∷ (change 1 1 (121 ∷ []) ∷ []) ∷ []

sources_lem : sources passes source ≡ 120 ∷ 121 ∷ 97 ∷ 10 ∷ 40 ∷ 41 ∷ 42 ∷ 98 ∷ []
unfolding spliced
sources_lem = refl

maps_offsets :
    (maps passes source fresh).offsets
    ≡ some (none ∷ none ∷ some 0 ∷ some 1 ∷ none ∷ none ∷ none ∷ some 3 ∷ [])
unfolding apply
maps_offsets = refl

-- The byte after the widened mark stands in line 2 and column 2 of the original.
position_lem :
    (position (finish (sources passes source) (maps passes source fresh)) 2 4 ≡ at_line 2 2)
    × (position (finish (sources passes source) (maps passes source fresh)) 2 1 ≡ nowhere)
unfolding apply finish position spliced
position_lem = (refl, refl)

passes-AreOrdered : AreOrdered passes source
unfolding spliced
passes-AreOrdered = (
  (omega arith, omega arith, (omega arith, omega arith, omega arith)),
  ((omega arith, omega arith, omega arith), tt),
)

maps-IsTraced_example : IsTraced (maps passes source fresh) (sources passes source)
maps-IsTraced_example = maps-IsTraced passes source fresh refl passes-AreOrdered

edited_offset-finds_example :
    (k : ℕ) × (edited_offset 3 widen true ≡ some k)
    × (get_elem? (edited widen source) k ≡ get_elem? source 3)
edited_offset-finds_example =
    edited_offset-finds source widen 3
      (omega arith, omega arith, (omega arith, omega arith, omega arith))
      (inr (omega arith), (inr (omega arith), tt))

-- The offsets of the example's map after its passes.
abbrev origins : List (Option ℕ)
origins = none ∷ none ∷ some 0 ∷ some 1 ∷ none ∷ none ∷ none ∷ some 3 ∷ []

sources-long : 7 ≤ length (sources passes source)
unfolding spliced
sources-long = omega arith

position-exact_example :
    position
      (finish (sources passes source) (maps passes source fresh))
      (line_at 7 (sources passes source))
      (column_at 7 (sources passes source))
    ≡ place_of (maps passes source fresh).original (some 3)
position-exact_example =
    position-exact (sources passes source) (maps passes source fresh) origins 7 (some 3)
      maps-IsTraced_example maps_offsets sources-long refl
