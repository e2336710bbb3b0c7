-- ===== src/Coverage/Moved.antt =====
-- Proofs about `editedSourceOffset` of internal/compiler/coverage_source.go.
use ghi.Prelude.{
  ℕ, zero, suc, ◌+◌, ◌-◌, ◌≤◌, ◌<◌, ◌≡◌, refl, ◌∙◌, ◌⊎◌, inl, inr, Bool, true, false, some, List,
  [], ◌∷◌, ◌++◌, arith, length, leb, get_elem?, take, drop, ltb, ◌==◌, ap, Bool-cases, lt→ltb,
}
use ghi.Coverage.Edits.{SourceEdit, fits, spliced, edited, moved_by, edited_offset}

-- The edits stand in order, from `previous` on and within a source of `n` bytes.
abbrev pub IsOrdered : (n previous : ℕ) → List SourceEdit → Type 0
IsOrdered n previous [] = previous ≤ n
IsOrdered n previous (e ∷ es) = (previous ≤ e.start) × (e.start ≤ e.end) × IsOrdered n e.end es

-- No edit takes the byte at `offset` away.
abbrev pub IsKept : ℕ → List SourceEdit → Type 0
IsKept offset [] = Unit
IsKept offset (e ∷ es) = ((offset < e.start) ⊎ (e.end ≤ offset)) × IsKept offset es

get-right : (xs ys : List ℕ) (k m : ℕ) → m ≡ length xs + k → get_elem? (xs ++ ys) m ≡ get_elem? ys k
get-right [] ys k m same = ap (get_elem? ys) (omega (arith, same))
get-right (x ∷ xs) ys k zero same = absurd (omega (arith, same))
get-right (x ∷ xs) ys k (suc m) same = get-right xs ys k m (omega (arith, same))

get-take :
    (n : ℕ) (xs ys : List ℕ) (k : ℕ)
    → k < n
    → n ≤ length xs
    → get_elem? (take n xs ++ ys) k ≡ get_elem? xs k
get-take zero xs ys k small long = ground arith
get-take (suc n) [] ys k small long = ground arith
get-take (suc n) (x ∷ xs) ys zero small long = refl
get-take (suc n) (x ∷ xs) ys (suc k) small long = get-take n xs ys k (omega arith) (omega arith)

get-drop : (n : ℕ) (xs : List ℕ) (k m : ℕ) → m ≡ n + k → get_elem? (drop n xs) k ≡ get_elem? xs m
get-drop zero xs k m same = ap (get_elem? xs) (omega (arith, same))
get-drop (suc n) [] k m same = refl
get-drop (suc n) (x ∷ xs) k zero same = absurd (omega (arith, same))
get-drop (suc n) (x ∷ xs) k (suc m) same = get-drop n xs k m (omega (arith, same))

length-take : (n : ℕ) (xs : List ℕ) → n ≤ length xs → length (take n xs) ≡ n
length-take zero xs h = refl
length-take (suc n) [] h = ground arith
length-take (suc n) (x ∷ xs) h = omega (arith, length-take n xs (omega arith))

length-drop : (n : ℕ) (xs : List ℕ) → n ≤ length xs → n + length (drop n xs) ≡ length xs
length-drop zero xs h = omega arith
length-drop (suc n) [] h = ground arith
length-drop (suc n) (x ∷ xs) h = omega (arith, length-drop n xs (omega arith))

IsOrdered-bound : (n previous : ℕ) (es : List SourceEdit) → IsOrdered n previous es → previous ≤ n
IsOrdered-bound n previous [] h = h
IsOrdered-bound n previous (e ∷ es) h = omega (arith, IsOrdered-bound n e.end es h.2, h.0, h.1)

-- Edits in order fit the source.
pub IsOrdered-fits :
    (n previous : ℕ) (es : List SourceEdit) → IsOrdered n previous es → fits n previous es ≡ true
unfolding fits
IsOrdered-fits n previous [] h = ground arith
IsOrdered-fits n previous (e ∷ es) h =
    let later = IsOrdered-fits n e.end es h.2 in
    let bound = IsOrdered-bound n e.end es h.2 in
    let first : leb previous e.start ≡ true = ground (arith, h.0) in
    let second : leb e.start n ≡ true = ground (arith, h.1, bound) in rw (first, second) later

-- An edit before the byte moves it by what the edit adds and takes.
moved_by-past :
    (offset : ℕ) (e : SourceEdit) (es : List SourceEdit) (grown shrunk : ℕ)
    → e.start ≤ e.end
    → e.end ≤ offset
    → moved_by offset true (e ∷ es) grown shrunk
      ≡ moved_by offset true es (grown + length e.text) (shrunk + (e.end - e.start))
unfolding moved_by
moved_by-past offset e es grown shrunk proper past =
    let late : ltb offset e.start ≡ false = ground arith in
    let out : ltb offset e.end ≡ false = ground arith in
    elim (Bool-cases (e.start == e.end)) [
      | inl empty ↦ elim (Bool-cases (offset == e.start)) [
        | inl here ↦
            rw (late, empty, here)
              (ap (λ n. moved_by offset true es (grown + length e.text) n) (stays empty))
        | inr beyond ↦ rw (late, empty, beyond, out) refl
      ]
      | inr full ↦
          let beyond : (offset == e.start) ≡ false = ground arith in
          rw (late, full, beyond, out) refl
    ]
  where
    stays : (e.start == e.end) ≡ true → shrunk ≡ shrunk + (e.end - e.start)
    stays empty = ground arith

moved_by-before :
    (offset : ℕ) (after : Bool) (e : SourceEdit) (es : List SourceEdit) (grown shrunk : ℕ)
    → offset < e.start
    → moved_by offset after (e ∷ es) grown shrunk ≡ some (offset + grown - shrunk)
unfolding moved_by
moved_by-before offset after e es grown shrunk before = rw (lt→ltb offset e.start before) refl

-- The byte is found from the `previous` bytes on that are already written.
moved_by-finds :
    (xs : List ℕ) (offset : ℕ) (es : List SourceEdit) (previous grown shrunk : ℕ)
    → IsOrdered (length xs) previous es
    → IsKept offset es
    → previous ≤ offset
    → shrunk ≤ previous
    → (k : ℕ) × (moved_by offset true es grown shrunk ≡ some (previous + grown - shrunk + k))
      × (get_elem? (spliced previous es xs) k ≡ get_elem? xs offset)
unfolding moved_by spliced
moved_by-finds xs offset [] previous grown shrunk ordered kept later fits = (
  offset - previous,
  ap some (omega (arith, later, fits)),
  get-drop previous xs (offset - previous) offset (omega (arith, later)),
)
moved_by-finds xs offset (e ∷ es) previous grown shrunk ordered (inl before, kept) later fits =
    let bound = IsOrdered-bound (length xs) e.end es ordered.2 in
    (
      offset - previous,
      moved_by-before offset true e es grown shrunk before ∙ ap some (omega (arith, later, fits)),
      get-take (e.start - previous) (drop previous xs) _ (offset - previous)
            (omega (arith, before, later))
            (omega (
              arith,
              bound,
              ordered.0,
              ordered.1,
              length-drop previous xs (omega (arith, bound, ordered.0, ordered.1)),
            ))
          ∙ get-drop previous xs (offset - previous) offset (omega (arith, later)),
    )
moved_by-finds xs offset (e ∷ es) previous grown shrunk ordered (inr past, kept) later fits =
    let bound = IsOrdered-bound (length xs) e.end es ordered.2 in
    let room : e.start - previous ≤ length (drop previous xs) = omega (
      arith,
      bound,
      ordered.0,
      ordered.1,
      length-drop previous xs (omega (arith, bound, ordered.0, ordered.1)),
    ) in
    let (k, found, same) =
      moved_by-finds xs offset es e.end (grown + length e.text) (shrunk + (e.end - e.start))
        ordered.2 kept past (omega (arith, fits, ordered.0, ordered.1)) in
    (
      e.start - previous + (length e.text + k),
      moved_by-past offset e es grown shrunk ordered.1 past
          ∙ found
          ∙ ap some (omega (arith, fits, ordered.0, ordered.1)),
      get-right (take (e.start - previous) (drop previous xs)) (e.text ++ spliced e.end es xs)
            (length e.text + k) _
            (omega (arith, length-take (e.start - previous) (drop previous xs) room))
          ∙ get-right e.text (spliced e.end es xs) k (length e.text + k) refl
          ∙ same,
    )

-- For edits in order within a source, and a byte of the source that no edit takes away,
-- `editedSourceOffset`, asked for the place after insertions, gives an offset at which the edited
-- source has that byte.
pub edited_offset-finds :
    (source : List ℕ) (es : List SourceEdit) (offset : ℕ)
    → IsOrdered (length source) 0 es
    → IsKept offset es
    → (k : ℕ) × (edited_offset offset es true ≡ some k)
      × (get_elem? (edited es source) k ≡ get_elem? source offset)
edited_offset-finds source es offset ordered kept =
    let (k, found, same) =
      moved_by-finds source offset es 0 0 0 ordered kept (omega arith) (omega arith) in
    (k, found ∙ ap some (omega arith), same)
