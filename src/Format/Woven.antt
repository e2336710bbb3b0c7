-- ===== src/Format/Woven.antt =====
-- Proofs about `formatStructure` of internal/compiler/format_structure.go: which texts are written.
use ghi.Prelude.{
  ℕ, suc, String, ◌≡◌, refl, sym, ◌∙◌, ap, subst, inl, inr, Bool, true, false, ◌&&◌, not, Option,
  none, some, List, [], ◌∷◌, ◌++◌, if◌then◌else◌, Bool-cases, arith, ltb,
}
use ghi.Format.Kinds.{FormatKind, semicolon, is_kind, FormatToken}
use ghi.Format.Printer.{
  Frame, Piece, breaks, tabs, blank, word, Printer, newline, break_line, lead, out_length, emit,
  pairs_from, start_printer, last_code, has, header, is_clause,
}
use ghi.Format.Steps.{
  gap, gap_after, breaks_gap, keeps_blank, trail, end_arm, label, close_frame, split_clause,
  before_return, semicolon_step, write, mark_statement, spaced, top_of, is_block_close,
}
use ghi.Format.Layout.{enter, note_literal, body_step, step, print_from, printed}

-- The texts among the pieces, without what stands between them.
abbrev pub words : List Piece → List String
words [] = []
words (word t ∷ ps) = t ∷ words ps
words (_ ∷ ps) = words ps

-- The texts of the tokens in order, where a comma may follow a token, and a semicolon may be left
-- out.
pub data Woven : List FormatToken → List String → Type 0 where
  done : Woven [] []
  plain :
      {t : FormatToken} {ts : List FormatToken} {ws : List String}
      → Woven ts ws
      → Woven (t ∷ ts) (t.text ∷ ws)
  with_comma :
      {t : FormatToken} {ts : List FormatToken} {ws : List String}
      → Woven ts ws
      → Woven (t ∷ ts) (t.text ∷ "," ∷ ws)
  kept :
      {t : FormatToken} {ts : List FormatToken} {ws : List String}
      → is_kind t.kind semicolon ≡ true
      → Woven ts ws
      → Woven (t ∷ ts) (";" ∷ ws)
  dropped :
      {t : FormatToken} {ts : List FormatToken} {ws : List String}
      → is_kind t.kind semicolon ≡ true
      → Woven ts ws
      → Woven (t ∷ ts) ws

newline-out : (n : ℕ) (s : Printer) → (newline n s).out ≡ s.out
unfolding newline
newline-out n s = ground arith

out-if :
    (c : Bool) (x y : Printer) (out : List Piece)
    → x.out ≡ out
    → y.out ≡ out
    → (if c then x else y).out ≡ out
out-if true x y out h k = h
out-if false x y out h k = k

gap_after-out :
    (p : Option FormatToken) (t : FormatToken) (s : Printer) → (gap_after p t s).out ≡ s.out
gap_after-out none t s = refl
gap_after-out (some p) t s =
    let one = newline-out 1 s in
    out-if (breaks_gap p t) _ s s.out
      (out-if (t.blank_before && keeps_blank p.kind t.kind) _ _ s.out
        (newline-out 2 (newline 1 s) ∙ one) one)
      refl

gap-out : (t : FormatToken) (s : Printer) → (gap t s).out ≡ s.out
unfolding gap
gap-out t s = gap_after-out s.prev t s

trail-out : (t : FormatToken) (s : Printer) → (trail t s).out ≡ s.out
unfolding trail
trail-out t s = ground arith

end_arm-out : (t : FormatToken) (s : Printer) → (end_arm t s).out ≡ s.out
unfolding end_arm
end_arm-out t s = ground arith

label-out : (i : ℕ) (t : FormatToken) (s : Printer) → (label i t s).out ≡ s.out
unfolding label
label-out i t s = ground arith

close_frame-out : (i : ℕ) (t : FormatToken) (s : Printer) → (close_frame i t s).out ≡ s.out
unfolding close_frame
close_frame-out i t s = ground arith

module _ (ts : List FormatToken) where
  split_clause-out :
      (i : ℕ) (t : FormatToken) (p : Option ℕ) (s : Printer) → (split_clause ts i t p s).out ≡ s.out
  unfolding split_clause
  split_clause-out i t p s = ground arith

  before_return-out :
      (t : FormatToken) (top : Option Frame) (s : Printer) → (before_return ts t top s).out ≡ s.out
  unfolding before_return
  before_return-out t top s = ground arith

  mark_statement-out : (t : FormatToken) (s : Printer) → (mark_statement ts t s).out ≡ s.out
  unfolding mark_statement
  mark_statement-out t s = ground arith

module _ (ts : List FormatToken) (pairs : List (ℕ × ℕ)) where
  note_literal-out :
      (i : ℕ) (literal : Bool) (s : Printer) → (note_literal ts pairs i literal s).out ≡ s.out
  unfolding note_literal
  note_literal-out i true s = refl
  note_literal-out i false s = refl

  enter-out :
      (k : FormatKind) (i : ℕ) (t : FormatToken) (p : Option ℕ) (later : List FormatToken)
      (s : Printer)
      → (enter ts pairs k i t p later s).out ≡ s.out
  unfolding enter
  enter-out k i t p later s = ground arith

append_assoc {ℓ} : {A : Type ℓ} (xs ys zs : List A) → (xs ++ ys) ++ zs ≡ xs ++ (ys ++ zs)
append_assoc [] ys zs = refl
append_assoc (x ∷ xs) ys zs = ap (λ r. x ∷ r) (append_assoc xs ys zs)

append_nil {ℓ} : {A : Type ℓ} (xs : List A) → xs ++ [] ≡ xs
append_nil [] = refl
append_nil (x ∷ xs) = ap (λ r. x ∷ r) (append_nil xs)

words-append : (ps qs : List Piece) → words (ps ++ qs) ≡ words ps ++ words qs
words-append [] qs = refl
words-append (breaks n ∷ ps) qs = words-append ps qs
words-append (tabs n ∷ ps) qs = words-append ps qs
words-append (blank ∷ ps) qs = words-append ps qs
words-append (word t ∷ ps) qs = ap (λ r. t ∷ r) (words-append ps qs)

words-break_line : (s : Printer) → words (break_line s).out ≡ words s.out
unfolding break_line
words-break_line s = elim (Bool-cases (ltb 0 s.pending && ltb 0 (out_length s.out))) [
  | inl h ↦ rw h (words-append s.out (breaks s.pending ∷ []) ∙ append_nil (words s.out))
  | inr h ↦ rw h refl
]

words-lead :
    (s : Printer) (space : Bool) (text : String)
    → words (lead s space ++ (word text ∷ [])) ≡ text ∷ []
words-lead s space text = ground arith

words-emit :
    (text : String) (space : Bool) (s : Printer)
    → words (emit text space s).out ≡ words s.out ++ (text ∷ [])
unfolding emit
words-emit text space s =
    words-append (break_line s).out (lead (break_line s) space ++ (word text ∷ []))
    ∙ rw (words-break_line s, words-lead (break_line s) space text) refl

-- The texts that a round adds for its token.
abbrev Adds : FormatToken → List String → List String → Type 0
Adds t before after =
    (ws : List String) × (after ≡ before ++ ws)
    × ((ts : List FormatToken) (vs : List String) → Woven ts vs → Woven (t ∷ ts) (ws ++ vs))

Adds-if :
    (b : Bool) (t : FormatToken) (before : List String) (x y : Printer)
    → (b ≡ true → Adds t before (words x.out))
    → Adds t before (words y.out)
    → Adds t before (words (if b then x else y).out)
Adds-if true t before x y f g = f refl
Adds-if false t before x y f g = g

module _ (ts : List FormatToken) (pairs : List (ℕ × ℕ)) where
  write-Adds :
      (i : ℕ) (t : FormatToken) (p : Option ℕ) (top : Option Frame) (s : Printer)
      → Adds t (words s.out) (words (write ts pairs i t p top s).out)
  unfolding write
  write-Adds i t p top s =
      let s' = emit t.text (spaced ts pairs i t p top s) s in
      elim (Bool-cases (has s'.commas i)) [
        | inl h ↦ (
          t.text ∷ "," ∷ [],
          rw h (
              words-emit "," false s'
              ∙ rw (words-emit t.text (spaced ts pairs i t p top s) s)
                  (append_assoc (words s.out) (t.text ∷ []) ("," ∷ []))),
          λ us vs w. with_comma w,
        )
        | inr h ↦ (
          t.text ∷ [],
          rw h (words-emit t.text (spaced ts pairs i t p top s) s),
          λ us vs w. plain w,
        )
      ]

  semicolon_step-Adds :
      (i : ℕ) (t : FormatToken) (p : Option ℕ) (s : Printer)
      → is_kind t.kind semicolon ≡ true
      → Adds t (words s.out) (words (semicolon_step ts pairs i t p s).out)
  unfolding semicolon_step
  semicolon_step-Adds i t p s semi =
      elim (Bool-cases (is_clause (header ts pairs s i) && not (is_block_close ts p s))) [
        | inl h ↦ (";" ∷ [], rw h (words-emit ";" false s), λ us vs w. kept semi w)
        | inr h ↦ (
          [],
          rw h (
              ap words (newline-out 1 (record s { clause = suc i }))
              ∙ sym (append_nil (words s.out))),
          λ us vs w. dropped semi w,
        )
      ]

  body_step-Adds :
      (i : ℕ) (t : FormatToken) (p : Option ℕ) (later : List FormatToken) (s : Printer)
      → Adds t (words s.out) (words (body_step ts pairs i t p later s).out)
  unfolding body_step
  body_step-Adds i t p later s =
      let top = top_of s.stack in
      let opened = close_frame i t (label i t (split_clause ts i t p s)) in
      let ready = before_return ts t top opened in
      let written = write ts pairs i t p top ready in
      let same : ready.out ≡ s.out =
        before_return-out ts t top opened
        ∙ close_frame-out i t (label i t (split_clause ts i t p s))
        ∙ label-out i t (split_clause ts i t p s)
        ∙ split_clause-out ts i t p s in
      let (ws, added, weave) = write-Adds i t p top ready in
      (
        ws,
        ap words (
              enter-out ts pairs t.kind i t p later (mark_statement ts t written)
              ∙ mark_statement-out ts t written)
            ∙ added
            ∙ ap (λ r. words r ++ ws) same,
        weave,
      )

  step-Adds :
      (i : ℕ) (t : FormatToken) (later : List FormatToken) (s : Printer)
      → Adds t (words s.out) (words (step ts pairs i t later s).out)
  unfolding step
  step-Adds i t later s =
      let s' = end_arm t (trail t (gap t s)) in
      let same : s'.out ≡ s.out =
        end_arm-out t (trail t (gap t s)) ∙ trail-out t (gap t s) ∙ gap-out t s in
      let p = last_code ts i in
      subst (λ o. Adds t (words o) (words (step ts pairs i t later s).out)) same
        (Adds-if (is_kind t.kind semicolon) t (words s'.out) (semicolon_step ts pairs i t p s')
          (body_step ts pairs i t p later s') (λ semi. semicolon_step-Adds i t p s' semi)
          (body_step-Adds i t p later s'))

  print_from-Woven :
      (i : ℕ) (later : List FormatToken) (s : Printer)
      → (ws : List String) × (words (print_from ts pairs i later s).out ≡ words s.out ++ ws)
        × Woven later ws
  unfolding print_from
  print_from-Woven i [] s = ([], sym (append_nil (words s.out)), done)
  print_from-Woven i (t ∷ later) s =
      let (vs, added, weave) = step-Adds i t later s in
      let (ws, rest, woven) = print_from-Woven (suc i) later (step ts pairs i t later s) in
      (
        vs ++ ws,
        rest ∙ ap (λ r. r ++ ws) added ∙ append_assoc (words s.out) vs ws,
        weave later ws woven,
      )

-- What is written for the tokens of a file are the texts of the tokens, all of them and in order;
-- a comma may be added after a token, and only a semicolon may be left out. Between the texts
-- stand line breaks, tabs and spaces.
pub printed-Woven : (ts : List FormatToken) → Woven ts (words (printed ts))
unfolding printed
printed-Woven ts =
    let (ws, same, woven) = print_from-Woven ts (pairs_from 0 [] ts) 0 ts start_printer in
    subst (Woven ts) (sym same) woven
