-- ===== src/Coverage/Positions.antt =====
-- Lines and columns in internal/compiler/coverage_source.go: `finish` and `position`.
use ghi.Prelude.{
  ℕ, zero, suc, ◌+◌, ◌-◌, ◌≤◌, ◌≡◌, refl, sym, ◌∙◌, ap, ◌||◌, true, false, Option, none, some,
  length, ◌<◌, List, [], ◌∷◌, arith, get_elem?, take, ltb, ◌==◌, Bool-cases, if◌then◌else◌, inl,
  inr,
}
use ghi.Coverage.Origins.{Traces, Traces-at, IsTraced}
use ghi.Coverage.Edits.{
  SourceMap, Position, nowhere, position, finish, newlines, line_starts, line_of, at_line,
  original_position,
}

abbrev pub count_newlines : List ℕ → ℕ
count_newlines [] = 0
count_newlines (b ∷ bs) = let rest = count_newlines bs in if b == 10 then suc rest else rest

some_inj : {x y : ℕ} → ◌≡◌ {A = Option ℕ} (some x) (some y) → x ≡ y
some_inj h = cc

line_of-newlines_zero : (bs : List ℕ) (i j : ℕ) → j ≤ i → line_of (newlines i bs) j ≡ 0
unfolding line_of
line_of-newlines_zero [] i j early = refl
line_of-newlines_zero (b ∷ bs) i j early = elim (Bool-cases (b == 10)) [
  | inl newline ↦ let before : ltb j (suc i) ≡ true = ground arith in rw (newline, before) refl
  | inr other ↦ rw other (line_of-newlines_zero bs (suc i) j (omega (arith, early)))
]

line_of-newlines :
    (bs : List ℕ) (i j k : ℕ) → j ≡ i + k → line_of (newlines i bs) j ≡ count_newlines (take k bs)
unfolding line_of
line_of-newlines bs i j zero same = line_of-newlines_zero bs i j (omega (arith, same))
line_of-newlines [] i j (suc k) same = refl
line_of-newlines (b ∷ bs) i j (suc k) same =
    let rest = line_of-newlines bs (suc i) j k (omega (arith, same)) in
    elim (Bool-cases (b == 10)) [
      | inl newline ↦
          let after : ltb j (suc i) ≡ false = ground (arith, same) in
          rw (newline, after) (ap suc rest)
      | inr other ↦ rw other rest
    ]

-- The line that the search finds starts at or before the offset.
line_of-finds :
    (l : ℕ) (ls : List ℕ) (offset : ℕ)
    → l ≤ offset
    → (n start : ℕ) × (line_of (l ∷ ls) offset ≡ suc n)
      × (get_elem? (l ∷ ls) n ≡ some start)
      × (start ≤ offset)
unfolding line_of
line_of-finds l [] offset early =
    let started : ltb offset l ≡ false = ground arith in (0, l, rw started refl, refl, early)
line_of-finds l (m ∷ ms) offset early =
    let started : ltb offset l ≡ false = ground arith in
    elim (Bool-cases (ltb offset m)) [
      | inl later ↦ (0, l, rw (started, later) refl, refl, early)
      | inr reached ↦
          let (n, start, found, at, fits) = line_of-finds m ms offset (ground arith) in
          (suc n, start, rw started (ap suc found), at, fits)
    ]

line_of-from_zero : (ls : List ℕ) (offset : ℕ) → line_of (0 ∷ ls) offset ≡ suc (line_of ls offset)
unfolding line_of
line_of-from_zero ls offset = let started : ltb offset 0 ≡ false = ground arith in rw started refl

original_position-at :
    (lines : List ℕ) (offset n start : ℕ)
    → line_of lines offset ≡ suc n
    → get_elem? lines n ≡ some start
    → original_position lines (some (some offset)) ≡ at_line (suc n) (offset - start + 1)
unfolding original_position
original_position-at lines offset n start found at =
    let at' : get_elem? lines (line_of lines offset - 1) ≡ some start =
      ap (get_elem? lines) (omega (arith, found)) ∙ at in
    rw (at', original_position) (ap (λ m. at_line m (offset - start + 1)) found)

-- The column after some bytes, from the column `c` on: each line begins at column 1.
abbrev pub column_after : (c : ℕ) → List ℕ → ℕ
column_after c [] = c
column_after c (b ∷ bs) = column_after (if b == 10 then 1 else suc c) bs

-- Where the byte at an offset stands.
abbrev pub line_at : ℕ → List ℕ → ℕ
line_at offset bytes = suc (count_newlines (take offset bytes))

abbrev pub column_at : ℕ → List ℕ → ℕ
column_at offset bytes = column_after 1 (take offset bytes)

-- The line that begins last before an offset, for lines of which the first begins at `l`.
newlines-column :
    (bs : List ℕ) (l c i k : ℕ)
    → l + c ≡ suc i
    → k ≤ length bs
    → (start : ℕ) × (get_elem? (l ∷ newlines i bs) (count_newlines (take k bs)) ≡ some start)
      × (start + column_after c (take k bs) ≡ suc (i + k))
newlines-column bs l c i zero same long = (l, refl, omega (arith, same))
newlines-column [] l c i (suc k) same long = absurd (omega arith)
newlines-column (b ∷ bs) l c i (suc k) same long = elim (Bool-cases (b == 10)) [
  | inl newline ↦
      let (start, at, reach) = newlines-column bs (suc i) 1 (suc i) k (omega arith) (omega arith) in
      let step : column_after c (b ∷ take k bs) ≡ column_after 1 (take k bs) =
        ap (λ d. column_after d (take k bs)) (rw newline refl) in
      (start, rw newline at, omega (arith, reach, step))
  | inr other ↦
      let (start, at, reach) =
        newlines-column bs l (suc c) (suc i) k (omega (arith, same)) (omega arith) in
      let step : column_after c (b ∷ take k bs) ≡ column_after (suc c) (take k bs) =
        ap (λ d. column_after d (take k bs)) (rw other refl) in
      (start, rw other at, omega (arith, reach, step))
]

column_after-positive : (c : ℕ) (bs : List ℕ) → (d : ℕ) × (column_after (suc c) bs ≡ suc d)
column_after-positive c [] = (c, refl)
column_after-positive c (b ∷ bs) = elim (Bool-cases (b == 10)) [
  | inl newline ↦
      let (d, same) = column_after-positive 0 bs in
      (d, ap (λ e. column_after e bs) (rw newline refl) ∙ same)
  | inr other ↦
      let (d, same) = column_after-positive (suc c) bs in
      (d, ap (λ e. column_after e bs) (rw other refl) ∙ same)
]

length-get : (bs : List ℕ) (i b : ℕ) → get_elem? bs i ≡ some b → i < length bs
length-get [] i b h = absurd (cc)
length-get (x ∷ bs) zero b h = omega arith
length-get (x ∷ bs) (suc i) b h = omega (arith, length-get bs i b h)

-- The search finds the line and the column of an offset of the original.
original_position-exact :
    (bytes : List ℕ) (offset : ℕ)
    → offset ≤ length bytes
    → original_position (line_starts bytes) (some (some offset))
      ≡ at_line (line_at offset bytes) (column_at offset bytes)
original_position-exact bytes offset long =
    let (n, start, found, at, fits) = line_of-finds 0 (newlines 0 bytes) offset (omega arith) in
    let line : n ≡ count_newlines (take offset bytes) = omega (
      arith,
      found,
      line_of-from_zero (newlines 0 bytes) offset,
      line_of-newlines bytes 0 offset offset (omega arith),
    ) in
    let (start', at', reach) = newlines-column bytes 0 1 0 offset (omega arith) long in
    let same : start ≡ start' = some_inj (sym at ∙ ap (get_elem? (line_starts bytes)) line ∙ at') in
    original_position-at (line_starts bytes) offset n start found at
    ∙ ap (λ m. at_line (suc m) (offset - start + 1)) line
    ∙ ap (at_line (line_at offset bytes)) (omega (arith, same, reach, fits))

-- Where a byte of the edited source with this origin stood.
abbrev pub place_of : List ℕ → Option ℕ → Position
place_of original none = nowhere
place_of original (some offset) = at_line (line_at offset original) (column_at offset original)

position-at :
    (source : List ℕ) (m : SourceMap) (offsets : List (Option ℕ)) (line column start : ℕ)
    → m.offsets ≡ some offsets
    → get_elem? (line_starts source) line ≡ some start
    → position (finish source m) (suc line) (suc column)
      ≡ original_position (line_starts m.original) (get_elem? offsets (start + column))
unfolding position finish
position-at source m offsets line column start edits at =
    let finished : finish source m
        ≡ record m { lines = line_starts source; original_lines = line_starts m.original } =
      rw edits refl in
    let small = length-get (line_starts source) line start at in
    let inside : (ltb (suc line) 1
          || ltb (length (line_starts source)) (suc line)
          || ltb (suc column) 1)
        ≡ false =
      ground arith in
    let at' : get_elem? (line_starts source) (suc line - 1) ≡ some start =
      ap (get_elem? (line_starts source)) (omega arith) ∙ at in
    ap (λ f. position f (suc line) (suc column)) finished
    ∙ rw (edits, inside, at')
        (ap (λ k. original_position (line_starts m.original) (get_elem? offsets k)) (omega arith))

original_position-place_of :
    (original : List ℕ) (origin : Option ℕ)
    → ((k : ℕ) → origin ≡ some k → k ≤ length original)
    → original_position (line_starts original) (some origin) ≡ place_of original origin
unfolding original_position
original_position-place_of original none inside = refl
original_position-place_of original (some k) inside =
    original_position-exact original k (inside k refl)

-- Of a map whose origins fit a source that was edited, once it is finished: `position`, asked for
-- the line and column at which a byte of the source stands, gives the line and column at which the
-- byte that it comes from stands in the original, and no position for a byte that was inserted.
-- A line begins after each newline, and lines and columns count from 1.
pub position-exact :
    (source : List ℕ) (m : SourceMap) (offsets : List (Option ℕ)) (i : ℕ) (origin : Option ℕ)
    → IsTraced m source
    → m.offsets ≡ some offsets
    → i ≤ length source
    → get_elem? offsets i ≡ some origin
    → position (finish source m) (line_at i source) (column_at i source)
      ≡ place_of m.original origin
position-exact source m offsets i origin traced edits long from =
    let (start, at, reach) = newlines-column source 0 1 0 i (omega arith) long in
    let traces : Traces m.original offsets source = rw edits at traced in
    let (column, counts) = column_after-positive 0 (take i source) in
    let here : start + column ≡ i = omega (arith, reach, counts) in
    ap (position (finish source m) (line_at i source)) counts
    ∙ position-at source m offsets (count_newlines (take i source)) column start edits at
    ∙ ap (original_position (line_starts m.original)) (ap (get_elem? offsets) here ∙ from)
    ∙ original_position-place_of m.original origin (λ k same.
      let (b, _, there) = Traces-at m.original offsets source i k traces (from ∙ ap some same) in
      omega (arith, length-get m.original k b there))
