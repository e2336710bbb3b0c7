-- ===== src/Format/Indented.antt =====
-- Proofs about `formatStructure` of internal/compiler/format_structure.go: the indentation for
-- tokens with balanced delimiters.
use ghi.Prelude.{
  ℕ, suc, ◌≡◌, refl, ◌∙◌, Bool, true, false, ◌&&◌, Option, none, some, List, ◌∷◌, if◌then◌else◌,
  Bool-cases, arith, inl, inr, String,
}
use ghi.Tokens.Pairs.{Bracket, round, square, curly, opening}
use ghi.Format.Kinds.{FormatKind, is_kind, FormatToken, lbrace}
use ghi.Format.Printer.{Frame, Printer, newline, emit, kind_at, has}
use ghi.Format.Steps.{
  gap, gap_after, breaks_gap, keeps_blank, trail, end_arm, split_clause, before_return, write,
  mark_statement, set_top, spaced,
}
use ghi.Format.Layout.{note_literal, open_brace, open_paren, paren_frame, brace_frame}
use ghi.Format.Depth.{bracket_kind, PrinterTracks, Tracks-same, Tracks-newline, Tracks-set_top}

-- The frames and the indentation stay.
abbrev pub IsLevel : Printer → Printer → Type 0
IsLevel s s' = (s'.depth ≡ s.depth) × (s'.stack ≡ s.stack)

pub newline-IsLevel : (n : ℕ) (s : Printer) → IsLevel s (newline n s)
unfolding newline
newline-IsLevel n s = ground arith

IsLevel-trans : (s s' s'' : Printer) → IsLevel s s' → IsLevel s' s'' → IsLevel s s''
IsLevel-trans s s' s'' h k = (k.0 ∙ h.0, k.1 ∙ h.1)

IsLevel-if :
    (c : Bool) (s x y : Printer) → IsLevel s x → IsLevel s y → IsLevel s (if c then x else y)
IsLevel-if true s x y h k = h
IsLevel-if false s x y h k = k

gap_after-IsLevel :
    (p : Option FormatToken) (t : FormatToken) (s : Printer) → IsLevel s (gap_after p t s)
gap_after-IsLevel none t s = (refl, refl)
gap_after-IsLevel (some p) t s =
    let one = newline-IsLevel 1 s in
    IsLevel-if (breaks_gap p t) s _ s
      (IsLevel-if (t.blank_before && keeps_blank p.kind t.kind) s _ _
        (IsLevel-trans s (newline 1 s) (newline 2 (newline 1 s)) one
          (newline-IsLevel 2 (newline 1 s)))
        one)
      (refl, refl)

pub gap-IsLevel : (t : FormatToken) (s : Printer) → IsLevel s (gap t s)
unfolding gap
gap-IsLevel t s = gap_after-IsLevel s.prev t s

pub trail-IsLevel : (t : FormatToken) (s : Printer) → IsLevel s (trail t s)
unfolding trail
trail-IsLevel t s = ground arith

pub emit-IsLevel : (text : String) (space : Bool) (s : Printer) → IsLevel s (emit text space s)
unfolding emit
emit-IsLevel text space s = ground arith

module _ (ts : List FormatToken) where
  pub split_clause-IsLevel :
      (i : ℕ) (t : FormatToken) (p : Option ℕ) (s : Printer) → IsLevel s (split_clause ts i t p s)
  unfolding split_clause
  split_clause-IsLevel i t p s = ground arith

  pub before_return-IsLevel :
      (t : FormatToken) (top : Option Frame) (s : Printer) → IsLevel s (before_return ts t top s)
  unfolding before_return
  before_return-IsLevel t top s = ground arith

  pub Tracks-level :
      (s s' : Printer) (bs : List Bracket)
      → IsLevel s s'
      → PrinterTracks ts s bs
      → PrinterTracks ts s' bs
  Tracks-level s s' bs same h = Tracks-same ts s s' bs same.0 same.1 h

  Tracks-change :
      (c : Bool) (change : Frame → Frame) (n : ℕ) (s : Printer) (bs : List Bracket)
      → ((f : Frame)
          → ((change f).index ≡ f.index)
            × ((change f).cases ≡ f.cases)
            × ((change f).active_case ≡ f.active_case)
            × ((change f).indented ≡ f.indented))
      → PrinterTracks ts s bs
      → PrinterTracks ts
          (if c then newline n (record s { stack = set_top change s.stack }) else s)
          bs
  Tracks-change true change n s bs keeps h =
      Tracks-newline ts n (record s { stack = set_top change s.stack }) bs
        (Tracks-set_top ts change s.depth s.stack bs keeps h)
  Tracks-change false change n s bs keeps h = h

  pub end_arm-Tracks :
      (t : FormatToken) (s : Printer) (bs : List Bracket)
      → PrinterTracks ts s bs
      → PrinterTracks ts (end_arm t s) bs
  unfolding end_arm
  end_arm-Tracks t s bs h =
      Tracks-change _ (λ f. record f { arm_end = false }) 1 s bs (λ f. (refl, refl, refl, refl)) h

  pub mark_statement-Tracks :
      (t : FormatToken) (s : Printer) (bs : List Bracket)
      → PrinterTracks ts s bs
      → PrinterTracks ts (mark_statement ts t s) bs
  unfolding mark_statement
  mark_statement-Tracks t s bs h = choose _
    where
      choose :
          (c : Bool)
          → PrinterTracks ts
              (if c
                then record s { stack = set_top (λ f. record f { statement = true }) s.stack }
                else s)
              bs
      choose true =
          Tracks-set_top ts (λ f. record f { statement = true }) s.depth s.stack bs
            (λ f. (refl, refl, refl, refl)) h
      choose false = h

module _ (ts : List FormatToken) (pairs : List (ℕ × ℕ)) where
  pub write-Tracks :
      (i : ℕ) (t : FormatToken) (p : Option ℕ) (top : Option Frame) (s : Printer)
      (bs : List Bracket)
      → PrinterTracks ts s bs
      → PrinterTracks ts (write ts pairs i t p top s) bs
  unfolding write
  write-Tracks i t p top s bs h =
      let s' = emit t.text (spaced ts pairs i t p top s) s in
      let h' = Tracks-level ts s s' bs (emit-IsLevel t.text (spaced ts pairs i t p top s) s) h in
      elim (Bool-cases (has s'.commas i)) [
        | inl ends ↦
            rw ends (Tracks-level ts s' (emit "," false s') bs (emit-IsLevel "," false s') h')
        | inr stays ↦ rw stays h'
      ]

  pub open_brace-Tracks :
      (i : ℕ) (h : String) (literal : Bool) (s : Printer) (bs : List Bracket)
      → kind_at ts i ≡ lbrace
      → PrinterTracks ts s bs
      → PrinterTracks ts (open_brace ts pairs i h literal s) (curly ∷ bs)
  unfolding open_brace newline note_literal
  open_brace-Tracks i h literal s bs here tracks =
      Tracks-same ts (record s { stack = brace_frame i literal h s ∷ s.stack; depth = suc s.depth })
        (open_brace ts pairs i h literal s) (curly ∷ bs) (ground arith) (ground arith)
        (rw here (ground arith, (refl, refl, tracks.1)))

  paren-Tracks :
      (indent : Bool) (i : ℕ) (k : FormatKind) (p : Option ℕ) (s : Printer) (b : Bracket)
      (bs : List Bracket)
      → kind_at ts i ≡ k
      → bracket_kind k ≡ opening b
      → is_kind k lbrace ≡ false
      → PrinterTracks ts s bs
      → let s' : Printer = record s { stack = paren_frame ts pairs i k p indent ∷ s.stack } in
        PrinterTracks ts
          (if indent then newline 1 (record s' { depth = suc s'.depth }) else s')
          (b ∷ bs)
  paren-Tracks indent i k p s curly bs here same plain h = absurd (opens_brace k same plain)
    where
      opens_brace : (k : FormatKind) → bracket_kind k ≡ opening curly → is_kind k lbrace ≡ false → ⊥
      opens_brace lbrace same plain = cc
      opens_brace _ same plain = cc
  paren-Tracks true i k p s round bs here same plain h =
      Tracks-newline ts 1 _ (round ∷ bs)
        (rw (here, plain) (omega (arith, h.0)), (rw here same, (refl, refl), h.1))
  paren-Tracks false i k p s round bs here same plain h =
      (rw (here, plain) (omega (arith, h.0)), (rw here same, (refl, refl), h.1))
  paren-Tracks true i k p s square bs here same plain h =
      Tracks-newline ts 1 _ (square ∷ bs)
        (rw (here, plain) (omega (arith, h.0)), (rw here same, (refl, refl), h.1))
  paren-Tracks false i k p s square bs here same plain h =
      (rw (here, plain) (omega (arith, h.0)), (rw here same, (refl, refl), h.1))

  pub open_paren-Tracks :
      (i : ℕ) (k : FormatKind) (b : Bracket) (p : Option ℕ) (s : Printer) (bs : List Bracket)
      → kind_at ts i ≡ k
      → bracket_kind k ≡ opening b
      → is_kind k lbrace ≡ false
      → PrinterTracks ts s bs
      → PrinterTracks ts (open_paren ts pairs i k p s) (b ∷ bs)
  unfolding open_paren
  open_paren-Tracks i k b p s bs here same plain h = paren-Tracks _ i k p s b bs here same plain h
