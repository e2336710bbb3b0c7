-- ===== src/Format/Indentation.antt =====
-- Proofs about `formatStructure` of internal/compiler/format_structure.go: the indentation of a file.
use ghi.Prelude.{ℕ, suc, ◌≡◌, refl, sym, ◌∙◌, ap, true, List, [], ◌∷◌, ◌++◌, length}
use ghi.Tokens.Pairs.{Bracket, Kind}
use ghi.Tokens.Balance.{accepts, Balanced, Balanced-accepts_all}
use ghi.Format.Kinds.{FormatToken}
use ghi.Format.Printer.{Printer, kind_at, start_printer, pairs_from}
use ghi.Format.Layout.{step, print_from}
use ghi.Format.Depth.{bracket_kind, PrinterTracks}
use ghi.Format.Levels.{Closes, step-Closes}

abbrev pub bracket_kinds : List FormatToken → List Kind
bracket_kinds [] = []
bracket_kinds (t ∷ ts) = bracket_kind t.kind ∷ bracket_kinds ts

get-here :
    (before : List FormatToken) (t : FormatToken) (after : List FormatToken)
    → kind_at (before ++ (t ∷ after)) (length before) ≡ t.kind
get-here [] t after = refl
get-here (x ∷ before) t after = get-here before t after

append_one :
    (before : List FormatToken) (t : FormatToken) (after : List FormatToken)
    → (before ++ (t ∷ [])) ++ after ≡ before ++ (t ∷ after)
append_one [] t after = refl
append_one (x ∷ before) t after = ap (λ r. x ∷ r) (append_one before t after)

length-append_one :
    (before : List FormatToken) (t : FormatToken)
    → length (before ++ (t ∷ [])) ≡ suc (length before)
length-append_one [] t = refl
length-append_one (x ∷ before) t = ap suc (length-append_one before t)

module _ (ts : List FormatToken) (pairs : List (ℕ × ℕ)) (after : List FormatToken) where
  print_from-Closes :
      (before middle : List FormatToken) (i : ℕ) (s : Printer) (bs : List Bracket)
      → ts ≡ before ++ (middle ++ after)
      → i ≡ length before
      → accepts bs (bracket_kinds (middle ++ after)) ≡ true
      → PrinterTracks ts s bs
      → Closes ts pairs (print_from ts pairs i middle s) (bracket_kinds after)
  unfolding Closes print_from
  print_from-Closes before [] i s bs whole place ok h = (bs, h, ok)
  print_from-Closes before (t ∷ middle) i s bs whole place ok h =
      let here : kind_at ts i ≡ t.kind = rw (whole, place) (get-here before t (middle ++ after)) in
      let (cs, tracks, left) =
        step-Closes ts pairs i t middle s bs (bracket_kinds (middle ++ after)) here ok h in
      print_from-Closes (before ++ (t ∷ [])) middle (suc i) (step ts pairs i t middle s) cs
        (whole ∙ sym (append_one before t (middle ++ after)))
        (ap suc place ∙ sym (length-append_one before t)) left tracks

-- The state of the loop after the first of the tokens of a file, `before`.
abbrev pub printer_after : (before after : List FormatToken) → Printer
printer_after before after =
    let ts = before ++ after in print_from ts (pairs_from 0 [] ts) 0 before start_printer

-- For tokens whose delimiters are balanced, after every token of the loop: each frame on the stack
-- stands for an open delimiter, which the later tokens close; and the indentation is what the
-- frames ask for, one for each open brace, one for each `case` under way and one for each group of
-- imports.
pub print_from-Tracks :
    (before after : List FormatToken)
    → Balanced (bracket_kinds (before ++ after))
    → (bs : List Bracket) × PrinterTracks (before ++ after) (printer_after before after) bs
      × (accepts bs (bracket_kinds after) ≡ true)
unfolding Closes
print_from-Tracks before after balanced =
    let ts = before ++ after in
    print_from-Closes ts (pairs_from 0 [] ts) after [] before 0 start_printer [] refl refl
      (Balanced-accepts_all (bracket_kinds ts) balanced) (refl, tt)
