-- ===== src/Coverage/Edits.antt =====
-- internal/compiler/coverage_source.go: `sourceEdit`, `coverageSourceMap` and its operations. An
-- origin of -1 is `none`. A source is a list of bytes.
use ghi.Prelude.{
  ℕ, suc, ◌+◌, ◌-◌, Bool, true, false, ◌&&◌, ◌||◌, Option, none, some, List, [], ◌∷◌, ◌++◌, ltb,
  leb, ◌==◌, if◌then◌else◌, length, get_elem?, take, drop,
}

pub record SourceEdit : Type 0 where
  pub start : ℕ
  pub end : ℕ
  pub text : List ℕ

pub record Origin : Type 0 where
  pub start : Option ℕ
  pub end : Option ℕ
  pub original_start : ℕ
  pub original_end : ℕ

pub record SourceMap : Type 0 where
  pub expressions : List Origin
  pub original : List ℕ
  -- `offsets`: nil until the first edit.
  pub offsets : Option (List (Option ℕ))
  pub lines : List ℕ
  pub original_lines : List ℕ

-- The slices that the parsers write between edits are within a source of `n` bytes: on others the
-- program panics.
unfoldable pub fits : (n previous : ℕ) → List SourceEdit → Bool
fits n previous [] = leb previous n
fits n previous (e ∷ es) = leb previous e.start && (leb e.start n && fits n e.end es)

-- What the parsers write for the source from `previous` on, for edits that fit.
unfoldable pub spliced : ℕ → List SourceEdit → List ℕ → List ℕ
spliced previous [] source = drop previous source
spliced previous (e ∷ es) source =
    take (e.start - previous) (drop previous source) ++ (e.text ++ spliced e.end es source)

-- The edited source.
abbrev pub edited : List SourceEdit → List ℕ → List ℕ
edited es source = spliced 0 es source

-- The new origins of `apply`, from `previous` on, under the same condition: inserted bytes have
-- none.
abbrev pub append_blank : (text : List ℕ) → List (Option ℕ) → List (Option ℕ)
append_blank [] rest = rest
append_blank (b ∷ bs) rest = none ∷ append_blank bs rest

unfoldable pub next_offsets : ℕ → List SourceEdit → List (Option ℕ) → List (Option ℕ)
next_offsets previous [] offsets = drop previous offsets
next_offsets previous (e ∷ es) offsets =
    take (e.start - previous) (drop previous offsets)
    ++ append_blank e.text (next_offsets e.end es offsets)

-- `editedSourceOffset`: the sum `delta` is `grown - shrunk`, which edits in order keep above
-- `-offset`.
unfoldable pub moved_by : (offset : ℕ) → Bool → List SourceEdit → (grown shrunk : ℕ) → Option ℕ
moved_by offset after [] grown shrunk = some (offset + grown - shrunk)
moved_by offset after (e ∷ es) grown shrunk =
    let inserts = moved_by offset after es (grown + length e.text) shrunk in
    let skips = moved_by offset after es grown shrunk in
    let passes = moved_by offset after es (grown + length e.text) (shrunk + (e.end - e.start)) in
    if ltb offset e.start
    then some (offset + grown - shrunk)
    else if (e.start == e.end) && (offset == e.start)
    then (if after then inserts else skips)
    else if offset == e.start
    then some (offset + grown - shrunk)
    else if ltb offset e.end
    then none
    else passes

abbrev pub edited_offset : ℕ → List SourceEdit → Bool → Option ℕ
edited_offset offset es after = moved_by offset after es 0 0

-- An expression whose boundary is -1 stays so: -1 is before every edit.
abbrev move : Option ℕ → List SourceEdit → Bool → Option ℕ
move none es after = none
move (some offset) es after = edited_offset offset es after

abbrev move_origins : List SourceEdit → List Origin → List Origin
move_origins es [] = []
move_origins es (o ∷ os) =
    record o { start = move o.start es true; end = move o.end es false } ∷ move_origins es os

abbrev pub count_from : ℕ → List ℕ → List (Option ℕ)
count_from n [] = []
count_from n (b ∷ bs) = some n ∷ count_from (suc n) bs

-- The origins before the edits: each byte its own, if there were no edits yet.
abbrev pub offsets_of : List ℕ → Option (List (Option ℕ)) → List (Option ℕ)
offsets_of source none = count_from 0 source
offsets_of source (some offsets) = offsets

abbrev pub original_of : List ℕ → SourceMap → List ℕ
original_of source m = elim m.offsets [ none ↦ source | some offsets ↦ m.original ]

-- `apply` on a map that is not nil.
unfoldable pub apply : List ℕ → List SourceEdit → SourceMap → SourceMap
unfolding next_offsets moved_by
apply source [] m = m
apply source (e ∷ es) m = record m {
  expressions = move_origins (e ∷ es) m.expressions;
  original = original_of source m;
  offsets = some (next_offsets 0 (e ∷ es) (offsets_of source m.offsets));
}

abbrev is_at : ℕ → Option ℕ → Bool
is_at offset none = false
is_at offset (some n) = offset == n

-- The search through the expressions: an `end` of `n` is the byte `n - 1`.
unfoldable pub boundary_among : ℕ → List Origin → Option ℕ
boundary_among offset [] = none
boundary_among offset (o ∷ os) =
    let rest = boundary_among offset os in
    if is_at offset o.start
    then some o.original_start
    else if is_at (suc offset) o.end
    then some (o.original_end - 1)
    else rest

abbrev boundary_at : ℕ → List Origin → Option (Option ℕ) → Option ℕ
boundary_at offset os (some (some origin)) = some origin
boundary_at offset os _ = boundary_among offset os

unfoldable pub expression_boundary : SourceMap → ℕ → Option ℕ
unfolding boundary_among
expression_boundary m offset = elim m.offsets [
  | none ↦ some offset
  | some offsets ↦ boundary_at offset m.expressions (get_elem? offsets offset)
]

abbrev add_expression : (first last : Option ℕ) (start end : Option ℕ) → SourceMap → SourceMap
add_expression (some first) (some last) start end m =
    if leb first last
    then record m {
      expressions =
          m.expressions
          ++ (record { start = start; end = end; original_start = first; original_end = suc last }
              ∷ []);
    }
    else m
add_expression _ _ start end m = m

-- `applyExpression`, for an expression of at least one byte.
unfoldable pub apply_expression : List ℕ → List SourceEdit → (start end : ℕ) → SourceMap → SourceMap
unfolding apply expression_boundary
apply_expression source es start end m =
    add_expression (expression_boundary m start) (expression_boundary m (end - 1))
      (edited_offset start es false) (edited_offset end es true) (apply source es m)

-- `finish`: the offset of the first byte of each line.
abbrev pub newlines : ℕ → List ℕ → List ℕ
newlines i [] = []
newlines i (b ∷ bs) = let rest = newlines (suc i) bs in if b == 10 then suc i ∷ rest else rest

abbrev pub line_starts : List ℕ → List ℕ
line_starts bytes = 0 ∷ newlines 0 bytes

unfoldable pub finish : List ℕ → SourceMap → SourceMap
finish source m = elim m.offsets [
  | none ↦ m
  | some offsets ↦ record m { lines = line_starts source; original_lines = line_starts m.original }
]

-- `sort.Search`: the first index whose line starts after the offset.
unfoldable pub line_of : List ℕ → ℕ → ℕ
line_of [] offset = 0
line_of (l ∷ ls) offset = let rest = line_of ls offset in if ltb offset l then 0 else suc rest

pub data Position : Type 0 where
  nowhere : Position
  at_line : (line column : ℕ) → Position

unfoldable pub original_position : List ℕ → Option (Option ℕ) → Position
unfolding line_of
original_position lines (some (some offset)) = elim (get_elem? lines (line_of lines offset - 1)) [
  | none ↦ nowhere
  | some start ↦ at_line (line_of lines offset) (offset - start + 1)
]
original_position lines _ = nowhere

-- `position`, of a line and a column from 1 on. Without edits a position stays as it is.
unfoldable pub position : SourceMap → (line column : ℕ) → Position
unfolding original_position
position m line column = elim m.offsets [
  | none ↦ at_line line column
  | some offsets ↦
      if ltb line 1 || ltb (length m.lines) line || ltb column 1
      then nowhere
      else elim (get_elem? m.lines (line - 1)) [
        | none ↦ nowhere
        | some start ↦ original_position m.original_lines (get_elem? offsets (start + column - 1))
      ]
]
