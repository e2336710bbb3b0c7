-- ===== src/Format/Depth.antt =====
-- Proofs about `formatStructure` of internal/compiler/format_structure.go: the indentation, and
-- the frames of the delimiters that are open.
use ghi.Prelude.{
  ℕ, ◌+◌, ◌-◌, ◌≡◌, refl, sym, subst, Bool, true, false, ◌&&◌, List, [], ◌∷◌, if◌then◌else◌, arith,
}
use ghi.Tokens.Pairs.{Bracket, round, square, curly, Kind, opening, closing, other}
use ghi.Tokens.Balance.{accepts}
use ghi.Format.Kinds.{
  FormatKind, is_kind, FormatToken, lbrace, lparen, lbrack, rbrace, rparen, rbrack,
}
use ghi.Format.Printer.{Frame, Printer, newline, kind_at, is_close}
use ghi.Format.Steps.{label, close_frame, top_of, set_top, top_is, is_case, close_top, close_stack}

-- A kind of token among the delimiters.
abbrev pub bracket_kind : FormatKind → Kind
bracket_kind lbrace = opening curly
bracket_kind lparen = opening round
bracket_kind lbrack = opening square
bracket_kind rbrace = closing curly
bracket_kind rparen = closing round
bracket_kind rbrack = closing square
bracket_kind _ = other

abbrev pub one_if : Bool → ℕ
one_if true = 1
one_if false = 0

module _ (ts : List FormatToken) where
  -- One for each open brace, one for each `case` under way, one for each group of imports.
  abbrev pub weight : List Frame → ℕ
  weight [] = 0
  weight (f ∷ fs) =
      one_if (is_kind (kind_at ts f.index) lbrace)
      + one_if f.active_case
      + one_if f.indented
      + weight fs

  abbrev FrameFits : Bracket → Frame → Type 0
  FrameFits curly f = f.indented ≡ false
  FrameFits _ f = (f.cases ≡ false) × (f.active_case ≡ false)

  abbrev pub Opened : List Frame → List Bracket → Type 0
  Opened [] [] = Unit
  Opened (f ∷ fs) (b ∷ bs) =
      (bracket_kind (kind_at ts f.index) ≡ opening b) × FrameFits b f × Opened fs bs
  Opened _ _ = ⊥

  abbrev pub Tracks : ℕ → List Frame → List Bracket → Type 0
  Tracks depth stack bs = (depth ≡ weight stack) × Opened stack bs

  abbrev pub PrinterTracks : Printer → List Bracket → Type 0
  PrinterTracks s bs = Tracks s.depth s.stack bs

  pub Tracks-same :
      (s s' : Printer) (bs : List Bracket)
      → s'.depth ≡ s.depth
      → s'.stack ≡ s.stack
      → PrinterTracks s bs
      → PrinterTracks s' bs
  Tracks-same s s' bs d e h =
      subst (λ x. Tracks x s'.stack bs) (sym d) (subst (λ x. Tracks s.depth x bs) (sym e) h)

  pub Tracks-newline :
      (n : ℕ) (s : Printer) (bs : List Bracket)
      → PrinterTracks s bs
      → PrinterTracks (newline n s) bs
  unfolding newline
  Tracks-newline n s bs h = Tracks-same s (newline n s) bs (ground arith) (ground arith) h

  -- A change of the frame on top that leaves what counts.
  pub Tracks-set_top :
      (change : Frame → Frame) (d : ℕ) (stack : List Frame) (bs : List Bracket)
      → ((f : Frame)
          → ((change f).index ≡ f.index)
            × ((change f).cases ≡ f.cases)
            × ((change f).active_case ≡ f.active_case)
            × ((change f).indented ≡ f.indented))
      → Tracks d stack bs
      → Tracks d (set_top change stack) bs
  Tracks-set_top change d [] [] keeps h = h
  Tracks-set_top change d (f ∷ fs) (curly ∷ bs) keeps h =
      rw ((keeps f).0, (keeps f).2, (keeps f).3) h
  Tracks-set_top change d (f ∷ fs) (round ∷ bs) keeps h =
      rw ((keeps f).0, (keeps f).1, (keeps f).2, (keeps f).3) h
  Tracks-set_top change d (f ∷ fs) (square ∷ bs) keeps h =
      rw ((keeps f).0, (keeps f).1, (keeps f).2, (keeps f).3) h
  Tracks-set_top change d _ _ keeps h = absurd h.1

  abbrev relabel_depth : Bool → ℕ → List Frame → ℕ
  relabel_depth here d stack =
      if here && top_is (λ f. f.cases) (top_of stack)
      then (if top_is (λ f. f.active_case) (top_of stack) then d - 1 else d)
      else d

  abbrev relabel_stack : Bool → List Frame → List Frame
  relabel_stack here stack =
      if here && top_is (λ f. f.cases) (top_of stack)
      then set_top (λ f. record f { active_case = false }) stack
      else stack

  Tracks-relabel :
      (here : Bool) (d : ℕ) (stack : List Frame) (bs : List Bracket)
      → Tracks d stack bs
      → Tracks (relabel_depth here d stack) (relabel_stack here stack) bs
  Tracks-relabel here d [] [] h = ground arith
  Tracks-relabel here d (f ∷ fs) (curly ∷ bs) h = ground arith
  Tracks-relabel here d (f ∷ fs) (round ∷ bs) h = ground arith
  Tracks-relabel here d (f ∷ fs) (square ∷ bs) h = ground arith
  Tracks-relabel here d _ _ h = absurd h.1

  pub Tracks-label :
      (i : ℕ) (t : FormatToken) (s : Printer) (bs : List Bracket)
      → PrinterTracks s bs
      → PrinterTracks (label i t s) bs
  unfolding label newline
  Tracks-label i t s bs h =
      subst (λ x. Tracks x (label i t s).stack bs) (ground arith)
        (subst (λ x. Tracks (relabel_depth (is_case t.kind) s.depth s.stack) x bs) (ground arith)
          (Tracks-relabel (is_case t.kind) s.depth s.stack bs h))

abbrev pub pushed : Kind → List Bracket → List Bracket
pushed (opening b) bs = b ∷ bs
pushed _ bs = bs

opens-curly : (k : FormatKind) → bracket_kind k ≡ opening curly → is_kind k lbrace ≡ true
opens-curly lbrace h = refl
opens-curly _ h = absurd (cc)

opens-round : (k : FormatKind) → bracket_kind k ≡ opening round → is_kind k lbrace ≡ false
opens-round lbrace h = absurd (cc)
opens-round _ h = refl

opens-square : (k : FormatKind) → bracket_kind k ≡ opening square → is_kind k lbrace ≡ false
opens-square lbrace h = absurd (cc)
opens-square _ h = refl

module _ (ts : List FormatToken) where
  -- What a closing delimiter does to the frame on top, which its own kind opened.
  close_top-Tracks :
      (b : Bracket) (k : FormatKind) (i : ℕ) (f : Frame) (fs : List Frame) (s : Printer)
      (bs : List Bracket)
      → bracket_kind k ≡ closing b
      → Tracks ts s.depth (f ∷ fs) (b ∷ bs)
      → PrinterTracks ts (close_top i k f fs s) bs
  unfolding newline
  close_top-Tracks curly rbrace i f fs s bs same (d, (opened, fits, h)) =
      let braced = opens-curly (kind_at ts f.index) opened in (ground arith, ground arith)
  close_top-Tracks round rparen i f fs s bs same (d, (opened, fits, h)) =
      let plain = opens-round (kind_at ts f.index) opened in (ground arith, ground arith)
  close_top-Tracks square rbrack i f fs s bs same (d, (opened, fits, h)) =
      let plain = opens-square (kind_at ts f.index) opened in (ground arith, ground arith)
  close_top-Tracks _ _ i f fs s bs same h = absurd (cc)

  unfoldable pub Remaining : Printer → Kind → List Kind → Type 0
  Remaining s k rest =
      (bs : List Bracket) × PrinterTracks ts s bs × (accepts (pushed k bs) rest ≡ true)

  close_stack-Tracks :
      (b : Bracket) (k : FormatKind) (i : ℕ) (stack : List Frame) (s : Printer) (bs : List Bracket)
      (rest : List Kind)
      → bracket_kind k ≡ closing b
      → accepts bs (closing b ∷ rest) ≡ true
      → Tracks ts s.depth stack bs
      → Remaining (close_stack i k stack s) (closing b) rest
  unfolding Remaining accepts
  close_stack-Tracks b k i [] s [] rest same ok h = absurd (cc)
  close_stack-Tracks round k i (f ∷ fs) s (round ∷ bs) rest same ok h =
      (bs, close_top-Tracks round k i f fs s bs same h, ok)
  close_stack-Tracks square k i (f ∷ fs) s (square ∷ bs) rest same ok h =
      (bs, close_top-Tracks square k i f fs s bs same h, ok)
  close_stack-Tracks curly k i (f ∷ fs) s (curly ∷ bs) rest same ok h =
      (bs, close_top-Tracks curly k i f fs s bs same h, ok)
  close_stack-Tracks _ k i (f ∷ fs) s (_ ∷ bs) rest same ok h = absurd (cc)
  close_stack-Tracks b k i _ s _ rest same ok h = absurd h.1

  close_kind-Tracks :
      (k : FormatKind) (i : ℕ) (s : Printer) (bs : List Bracket) (rest : List Kind)
      → accepts bs (bracket_kind k ∷ rest) ≡ true
      → PrinterTracks ts s bs
      → Remaining (if is_close k then close_stack i k s.stack s else s) (bracket_kind k) rest
  unfolding Remaining accepts
  close_kind-Tracks rbrace i s bs rest ok h =
      close_stack-Tracks curly rbrace i s.stack s bs rest refl ok h
  close_kind-Tracks rparen i s bs rest ok h =
      close_stack-Tracks round rparen i s.stack s bs rest refl ok h
  close_kind-Tracks rbrack i s bs rest ok h =
      close_stack-Tracks square rbrack i s.stack s bs rest refl ok h
  close_kind-Tracks _ i s bs rest ok h = (bs, h, ok)

  pub close_frame-Tracks :
      (i : ℕ) (t : FormatToken) (s : Printer) (bs : List Bracket) (rest : List Kind)
      → accepts bs (bracket_kind t.kind ∷ rest) ≡ true
      → PrinterTracks ts s bs
      → Remaining (close_frame i t s) (bracket_kind t.kind) rest
  unfolding close_frame
  close_frame-Tracks i t s bs rest ok h = close_kind-Tracks t.kind i s bs rest ok h
