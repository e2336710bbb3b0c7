-- ===== src/Ternary/Ends.antt =====
-- Proofs about `normalizeTernaries` of internal/compiler/ternary_parse.go: the loop ends.
use ghi.Prelude.{
  ℕ, zero, suc, ◌+◌, ◌-◌, ◌≤◌, ◌≡◌, ◌∙◌, ap, Bool, true, Option, some, List, [], ◌∷◌, ◌++◌,
  if◌then◌else◌, arith, length, take, drop, ◌==◌, str_eq, All,
}
use ghi.Coverage.Edits.{SourceEdit, edited, spliced}
use ghi.Coverage.Moved.{IsOrdered}
use ghi.Format.Kinds.{FormatToken}
use ghi.Ternary.Bounds.{slice}
use ghi.Ternary.Edited.{InOrder}

abbrev one_at : ℕ → ℕ
one_at b = if b == 63 then 1 else 0

-- How many question marks a text has.
abbrev pub questions : List ℕ → ℕ
questions [] = 0
questions (b ∷ bs) = one_at b + questions bs

questions-append : (xs ys : List ℕ) → questions (xs ++ ys) ≡ questions xs + questions ys
questions-append [] ys = omega arith
questions-append (x ∷ xs) ys = omega (arith, questions-append xs ys)

questions-split :
    (n : ℕ) (xs : List ℕ) → questions (take n xs) + questions (drop n xs) ≡ questions xs
questions-split zero xs = omega arith
questions-split (suc n) [] = omega arith
questions-split (suc n) (x ∷ xs) = omega (arith, questions-split n xs)

pub drop-drop : (m n : ℕ) (xs : List ℕ) → drop n (drop m xs) ≡ drop (m + n) xs
drop-drop zero n xs = ap (λ k. drop k xs) (let e : n ≡ 0 + n = omega arith in e)
drop-drop (suc m) zero [] = ap (λ k. drop k []) (let e : suc m ≡ suc m + 0 = omega arith in e)
drop-drop (suc m) (suc n) [] =
    ap (λ k. drop k []) (let e : suc (m + suc n) ≡ suc m + suc n = omega arith in e)
drop-drop (suc m) n (x ∷ xs) =
    drop-drop m n xs
    ∙ ap (λ k. drop k (x ∷ xs)) (let e : suc (m + n) ≡ suc m + n = omega arith in e)

-- What stands between two offsets, and what stands after it.
questions-slice :
    (from to : ℕ) (xs : List ℕ)
    → from ≤ to
    → questions (slice from to xs) + questions (drop to xs) ≡ questions (drop from xs)
questions-slice from to xs h =
    let reach : from + (to - from) ≡ to = omega (arith, h) in
    omega (
      arith,
      questions-split (to - from) (drop from xs),
      ap questions (drop-drop from (to - from) xs),
      ap (λ k. questions (drop k xs)) reach,
    )

-- The question marks that the edits take away, and those that they bring.
abbrev pub taken : List SourceEdit → List ℕ → ℕ
taken [] xs = 0
taken (e ∷ es) xs = questions (slice e.start e.end xs) + taken es xs

abbrev pub brought : List SourceEdit → ℕ
brought [] = 0
brought (e ∷ es) = questions e.text + brought es

questions-spliced :
    (n previous : ℕ) (es : List SourceEdit) (xs : List ℕ)
    → IsOrdered n previous es
    → questions (spliced previous es xs) + taken es xs ≡ questions (drop previous xs) + brought es
unfolding spliced
questions-spliced n previous [] xs h = omega arith
questions-spliced n previous (e ∷ es) xs (later, proper, h) = omega (
  arith,
  questions-append (slice previous e.start xs) (e.text ++ spliced e.end es xs),
  questions-append e.text (spliced e.end es xs),
  questions-spliced n e.end es xs h,
  questions-slice previous e.start xs later,
  questions-slice e.start e.end xs proper,
)

pub questions-edited :
    (n : ℕ) (es : List SourceEdit) (xs : List ℕ)
    → IsOrdered n 0 es
    → questions (edited es xs) + taken es xs ≡ questions xs + brought es
questions-edited n es xs h = questions-spliced n 0 es xs h

-- A token `?` is the one byte of a question mark.
abbrev pub IsSpelled : List ℕ → FormatToken → Type 0
IsSpelled source t = str_eq t.text "?" ≡ true → slice t.start t.end source ≡ 63 ∷ []

module _ (scan : List ℕ → Option (List FormatToken)) (complete : List ℕ → Bool) where
  -- The tokens that the scanner gives stand in order within the source, and spell its bytes.
  abbrev pub Scans : Type 0
  Scans =
      (source : List ℕ) (all : List FormatToken)
      → scan source ≡ some all
      → InOrder (length source) 0 all × All (IsSpelled source) all
