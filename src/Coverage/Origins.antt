-- ===== src/Coverage/Origins.antt =====
-- Proofs about `apply` of internal/compiler/coverage_source.go: what the origins of a source are.
use ghi.Prelude.{
  ℕ, zero, suc, ◌-◌, ◌≡◌, refl, subst, Option, none, some, List, [], ◌∷◌, ◌++◌, length, get_elem?,
  take, drop,
}
use ghi.Coverage.Moved.{IsOrdered}
use ghi.Coverage.Edits.{
  SourceEdit, SourceMap, spliced, append_blank, next_offsets, edited, count_from, offsets_of,
  original_of, apply,
}

-- Each byte with an origin is the original's byte there; there are as many origins as bytes.
abbrev pub Traces : (original : List ℕ) → List (Option ℕ) → List ℕ → Type 0
Traces original [] [] = Unit
Traces original (none ∷ os) (b ∷ bs) = Traces original os bs
Traces original (some i ∷ os) (b ∷ bs) = (get_elem? original i ≡ some b) × Traces original os bs
Traces original _ _ = ⊥

Traces-append :
    (original : List ℕ) (os ps : List (Option ℕ)) (bs cs : List ℕ)
    → Traces original os bs
    → Traces original ps cs
    → Traces original (os ++ ps) (bs ++ cs)
Traces-append original [] ps [] cs h k = k
Traces-append original (none ∷ os) ps (b ∷ bs) cs h k = Traces-append original os ps bs cs h k
Traces-append original (some i ∷ os) ps (b ∷ bs) cs h k =
    (h.0, Traces-append original os ps bs cs h.1 k)
Traces-append original _ ps _ cs h k = absurd h

Traces-take :
    (original : List ℕ) (n : ℕ) (os : List (Option ℕ)) (bs : List ℕ)
    → Traces original os bs
    → Traces original (take n os) (take n bs)
Traces-take original zero os bs h = tt
Traces-take original (suc n) [] [] h = tt
Traces-take original (suc n) (none ∷ os) (b ∷ bs) h = Traces-take original n os bs h
Traces-take original (suc n) (some i ∷ os) (b ∷ bs) h = (h.0, Traces-take original n os bs h.1)
Traces-take original (suc n) _ _ h = absurd h

Traces-drop :
    (original : List ℕ) (n : ℕ) (os : List (Option ℕ)) (bs : List ℕ)
    → Traces original os bs
    → Traces original (drop n os) (drop n bs)
Traces-drop original zero os bs h = h
Traces-drop original (suc n) [] [] h = tt
Traces-drop original (suc n) (none ∷ os) (b ∷ bs) h = Traces-drop original n os bs h
Traces-drop original (suc n) (some i ∷ os) (b ∷ bs) h = Traces-drop original n os bs h.1
Traces-drop original (suc n) _ _ h = absurd h

Traces-append_blank :
    (original text : List ℕ) (os : List (Option ℕ)) (bs : List ℕ)
    → Traces original os bs
    → Traces original (append_blank text os) (text ++ bs)
Traces-append_blank original [] os bs h = h
Traces-append_blank original (b ∷ text) os bs h = Traces-append_blank original text os bs h

Traces-next_offsets :
    (original : List ℕ) (previous : ℕ) (es : List SourceEdit) (os : List (Option ℕ)) (bs : List ℕ)
    → Traces original os bs
    → Traces original (next_offsets previous es os) (spliced previous es bs)
unfolding next_offsets spliced
Traces-next_offsets original previous [] os bs h = Traces-drop original previous os bs h
Traces-next_offsets original previous (e ∷ es) os bs h =
    Traces-append original (take (e.start - previous) (drop previous os))
      (append_blank e.text (next_offsets e.end es os))
      (take (e.start - previous) (drop previous bs)) (e.text ++ spliced e.end es bs)
      (Traces-take original (e.start - previous) (drop previous os) (drop previous bs)
        (Traces-drop original previous os bs h))
      (Traces-append_blank original e.text (next_offsets e.end es os) (spliced e.end es bs)
        (Traces-next_offsets original e.end es os bs h))

get_elem?-append : (xs ys : List ℕ) → get_elem? (xs ++ ys) (length xs) ≡ get_elem? ys 0
get_elem?-append [] ys = refl
get_elem?-append (x ∷ xs) ys = get_elem?-append xs ys

append-assoc_one : (xs : List ℕ) (b : ℕ) (bs : List ℕ) → (xs ++ (b ∷ [])) ++ bs ≡ xs ++ (b ∷ bs)
append-assoc_one [] b bs = refl
append-assoc_one (x ∷ xs) b bs = rw (append-assoc_one xs b bs) refl

length-append_one : (xs : List ℕ) (b : ℕ) → length (xs ++ (b ∷ [])) ≡ suc (length xs)
length-append_one [] b = refl
length-append_one (x ∷ xs) b = rw (length-append_one xs b) refl

Traces-count_from : (before bs : List ℕ) → Traces (before ++ bs) (count_from (length before) bs) bs
Traces-count_from before [] = tt
Traces-count_from before (b ∷ bs) = (
  get_elem?-append before (b ∷ bs),
  subst (λ n. Traces (before ++ (b ∷ bs)) (count_from n bs) bs) (length-append_one before b)
      (subst (λ xs. Traces xs (count_from (length (before ++ (b ∷ []))) bs) bs)
        (append-assoc_one before b bs) (Traces-count_from (before ++ (b ∷ [])) bs)),
)

-- A byte that an origin stands for is in the source and in the original.
pub Traces-at :
    (original : List ℕ) (os : List (Option ℕ)) (bs : List ℕ) (i k : ℕ)
    → Traces original os bs
    → get_elem? os i ≡ some (some k)
    → (b : ℕ) × (get_elem? bs i ≡ some b) × (get_elem? original k ≡ some b)
Traces-at original [] bs i k h at = absurd (cc)
Traces-at original (none ∷ os) (b ∷ bs) zero k h at = absurd (cc)
Traces-at original (none ∷ os) (b ∷ bs) (suc i) k h at = Traces-at original os bs i k h at
Traces-at original (some j ∷ os) (b ∷ bs) zero k h at =
    let same : j ≡ k = cc in (b, refl, subst (λ n. get_elem? original n ≡ some b) same h.0)
Traces-at original (some j ∷ os) (b ∷ bs) (suc i) k h at = Traces-at original os bs i k h.1 at
Traces-at original (none ∷ os) [] i k h at = absurd h
Traces-at original (some j ∷ os) [] i k h at = absurd h

-- The origins of the map fit the source.
abbrev pub IsTraced : SourceMap → List ℕ → Type 0
IsTraced m source = Traces (original_of source m) (offsets_of source m.offsets) source

apply-IsTraced :
    (source : List ℕ) (es : List SourceEdit) (m : SourceMap)
    → IsTraced m source
    → IsTraced (apply source es m) (edited es source)
unfolding apply spliced
apply-IsTraced source [] m h = h
apply-IsTraced source (e ∷ es) m h =
    Traces-next_offsets (original_of source m) 0 (e ∷ es) (offsets_of source m.offsets) source h

-- A map without edits fits every source.
fresh-IsTraced : (source : List ℕ) (m : SourceMap) → m.offsets ≡ none → IsTraced m source
fresh-IsTraced source m fresh = rw fresh (Traces-count_from [] source)

-- The passes of the parser one after the other, each with its edits of the current source.
abbrev pub sources : List (List SourceEdit) → List ℕ → List ℕ
sources [] source = source
sources (es ∷ passes) source = sources passes (edited es source)

abbrev pub maps : List (List SourceEdit) → List ℕ → SourceMap → SourceMap
maps [] source m = m
maps (es ∷ passes) source m = maps passes (edited es source) (apply source es m)

-- The edits of each pass stand in order within the source that the passes before it give.
abbrev pub AreOrdered : List (List SourceEdit) → List ℕ → Type 0
AreOrdered [] source = Unit
AreOrdered (es ∷ passes) source =
    IsOrdered (length source) 0 es × AreOrdered passes (edited es source)

maps-IsTraced_from :
    (passes : List (List SourceEdit)) (source : List ℕ) (m : SourceMap)
    → IsTraced m source
    → IsTraced (maps passes source m) (sources passes source)
maps-IsTraced_from [] source m h = h
maps-IsTraced_from (es ∷ passes) source m h =
    maps-IsTraced_from passes (edited es source) (apply source es m) (apply-IsTraced source es m h)

pub maps-IsTraced :
    (passes : List (List SourceEdit)) (source : List ℕ) (m : SourceMap)
    → m.offsets ≡ none
    → AreOrdered passes source
    → IsTraced (maps passes source m) (sources passes source)
maps-IsTraced passes source m fresh ordered =
    maps-IsTraced_from passes source m (fresh-IsTraced source m fresh)
