-- ===== src/Arrow/Spliced.antt =====
-- Proofs about `normalizeArrows` of internal/compiler/arrow_parse.go: its edits are what it writes.
use ghi.Prelude.{
  ℕ, zero, suc, ◌+◌, ◌-◌, ◌≤◌, ◌≡◌, refl, sym, ◌∙◌, ap, Bool, true, false, List, [], ◌∷◌, ◌++◌,
  if◌then◌else◌, arith, take, drop,
}
use ghi.Coverage.Edits.{SourceEdit, spliced, edited}
use ghi.Ternary.Ends.{drop-drop}
use ghi.Ternary.Bounds.{bytes_of}
use ghi.Arrow.Parse.{Arrow, is_start, is_arrow, lowered_bytes, func_edit, space_edit, arrow_edits}

pub drop_next : (i : ℕ) (b : ℕ) (xs bs : List ℕ) → drop i xs ≡ b ∷ bs → drop (suc i) xs ≡ bs
drop_next zero b [] bs h = cc
drop_next zero b (x ∷ xs) bs h = cc
drop_next (suc i) b [] bs h = cc
drop_next (suc i) b (x ∷ xs) bs h = drop_next i b xs bs h

drop_none : (i : ℕ) (xs : List ℕ) → drop i xs ≡ [] → drop (suc i) xs ≡ []
drop_none zero [] h = refl
drop_none zero (x ∷ xs) h = absurd (cc)
drop_none (suc i) [] h = refl
drop_none (suc i) (x ∷ xs) h = drop_none i xs h

-- What is taken is all, if nothing follows.
take_all : (k : ℕ) (xs : List ℕ) → drop k xs ≡ [] → take k xs ++ [] ≡ xs
take_all zero [] h = refl
take_all zero (x ∷ xs) h = absurd (cc)
take_all (suc k) [] h = refl
take_all (suc k) (x ∷ xs) h = ap (λ r. x ∷ r) (take_all k xs h)

-- One byte more is taken.
take_next :
    (k b : ℕ) (xs bs rest : List ℕ)
    → drop k xs ≡ b ∷ bs
    → take (suc k) xs ++ rest ≡ take k xs ++ (b ∷ rest)
take_next zero b [] bs rest h = absurd (cc)
take_next zero b (x ∷ xs) bs rest h = let same : x ≡ b = cc in ap (λ y. y ∷ rest) same
take_next (suc k) b [] bs rest h = absurd (cc)
take_next (suc k) b (x ∷ xs) bs rest h = ap (λ r. x ∷ r) (take_next k b xs bs rest h)

pub drop-between : (p i : ℕ) (xs : List ℕ) → p ≤ i → drop (i - p) (drop p xs) ≡ drop i xs
drop-between p i xs h =
    let reach : p + (i - p) ≡ i = omega (arith, h) in
    drop-drop p (i - p) xs ∙ ap (λ k. drop k xs) reach

take_on :
    (p i b : ℕ) (xs bs rest : List ℕ)
    → p ≤ i
    → drop i xs ≡ b ∷ bs
    → take (suc i - p) (drop p xs) ++ rest ≡ take (i - p) (drop p xs) ++ (b ∷ rest)
take_on p i b xs bs rest h here =
    let more : suc i - p ≡ suc (i - p) = omega (arith, h) in
    ap (λ k. take k (drop p xs) ++ rest) more
    ∙ take_next (i - p) b (drop p xs) bs rest (drop-between p i xs h ∙ here)

take_nothing : (i p : ℕ) (xs rest : List ℕ) → i ≤ p → take (i - p) xs ++ rest ≡ rest
take_nothing i p xs rest h = let e : i - p ≡ 0 = omega arith in ap (λ n. take n xs ++ rest) e

module _ (arrows : List Arrow) (source : List ℕ) where
  -- What is written from the byte at `i` on is what the edits make of the source from `p` on.
  abbrev Writes : (i : ℕ) → List ℕ → List SourceEdit → Type 0
  Writes i out es = (p : ℕ) → p ≤ i → take (i - p) (drop p source) ++ out ≡ spliced p es source

  Writes-hit :
      (i b : ℕ) (bs out : List ℕ) (es : List SourceEdit) (hit : Bool)
      → drop i source ≡ b ∷ bs
      → (hit ≡ false → Writes (suc i) out es)
      → (hit ≡ true → out ≡ spliced (suc (suc i)) es source)
      → Writes i
          (if hit then bytes_of "  " ++ out else b ∷ out)
          (if hit then space_edit i ∷ es else es)
  unfolding spliced
  Writes-hit i b bs out es true here plain jumps p h =
      ap (λ r. take (i - p) (drop p source) ++ (bytes_of "  " ++ r)) (jumps refl)
  Writes-hit i b bs out es false here plain jumps p h =
      sym (take_on p i b source bs out h here) ∙ plain refl p (omega arith)

  Writes-start :
      (i : ℕ) (out : List ℕ) (es : List SourceEdit) (start : Bool)
      → Writes i out es
      → Writes i
          ((if start then bytes_of "func" else []) ++ out)
          ((if start then func_edit i ∷ [] else []) ++ es)
  unfolding spliced
  Writes-start i out es true w p h =
      ap (λ r. take (i - p) (drop p source) ++ (bytes_of "func" ++ r))
        (sym (take_nothing i i (drop i source) out (omega arith)) ∙ w i (omega arith))
  Writes-start i out es false w p h = w p h

  Writes-all :
      (bs : List ℕ) (i : ℕ)
      → drop i source ≡ bs
      → Writes i (lowered_bytes arrows i false bs) (arrow_edits arrows i false bs)
        × (lowered_bytes arrows i true bs ≡ spliced (suc i) (arrow_edits arrows i true bs) source)
  unfolding lowered_bytes arrow_edits spliced
  Writes-all [] i here = (
    λ p h. take_all (i - p) (drop p source) (drop-between p i source h ∙ here),
    sym (drop_none i source here),
  )
  Writes-all (b ∷ bs) i here =
      let (ih, after) = Writes-all bs (suc i) (drop_next i b source bs here) in
      (
        Writes-start i _ _ (is_start arrows i) (
            Writes-hit i b bs _ _ (is_arrow arrows i) here (λ plain. rw plain ih)
              (λ jumps. rw jumps after)),
        sym (take_nothing (suc i) (suc i) (drop (suc i) source) _ (omega arith))
            ∙ ih (suc i) (omega arith),
      )

  -- The source that normalizeArrows writes, byte by byte, is the old one with the edits that it
  -- records for the maps: func before the parameters, and two spaces for the arrow.
  pub lowered_bytes-edited :
      lowered_bytes arrows 0 false source ≡ edited (arrow_edits arrows 0 false source) source
  lowered_bytes-edited = (Writes-all source 0 refl).0 0 (omega arith)
