-- ===== src/Match/Ordered.antt =====
-- Proofs about `normalizeMatches` of internal/compiler/match_parse.go: what a round does.
use ghi.Prelude.{
  ℕ, suc, ◌+◌, ◌≤◌, ◌<◌, ◌≡◌, ◌≢◌, refl, true, sym, subst, Bool, false, Option, none, some, List,
  Bool-cases, inl, inr, arith, length, drop, ◌==◌,
}
use ghi.Coverage.Edits.{SourceEdit, edited}
use ghi.Coverage.Moved.{IsOrdered, IsOrdered-fits}
use ghi.Format.Kinds.{illegal, is_kind, lbrace, rbrace, FormatToken}
use ghi.Ternary.Bounds.{start_at, end_at}
use ghi.Ternary.Loop.{Normalizing}
use ghi.Format.Printer.{kind_at}
use ghi.Match.Lexed.{
  IsLexed, IsLexed-take, within_match, in_turn_match, body_tokens_within, IsKind, find_match-IsKind,
}
use ghi.Match.Arms.{find_match, Armed, unarmed, armed, between}
use ghi.Match.Round.{
  last_match, Body, bodiless, opens_at, find_body, sort_edits, match_edits, MatchRound, rewritten,
  panicked, apply_match_edits, rewrite_armed, body_tokens, rewrite_closed, rewrite_body,
  rewrite_match, round_after, match_round,
}
use ghi.Match.Sorted.{IsTight-Clear, ArmedWithin}
use ghi.Match.Rewritten.{scan_arms_from-ArmedWithin, sorted-IsOrdered}
use ghi.Match.Placed.{Lies, last_match-Lies, find_match_later, Opens, find_body-Opens, length-drop}

-- The new source is the old one with the edits of a match from `first` to `close`, in order.
abbrev pub Rewrites : List FormatToken → Normalizing → Normalizing → Type 0
Rewrites ts n n' =
    (first close : ℕ) × (arms : List SourceEdit) × (found : Bool) × (first < close)
    × (close < length ts)
    × IsOrdered (length n.source) 0 (sort_edits (match_edits ts first close arms found))
    × (n'.source ≡ edited (sort_edits (match_edits ts first close arms found)) n.source)

-- What holds of a round: it slices nothing out of range, and rewrites the source so or not at all.
abbrev Turns : List FormatToken → Normalizing → MatchRound → Type 0
Turns ts n (rewritten n') = Rewrites ts n n'
Turns ts n panicked = ⊥
Turns ts n _ = Unit

module _ (ts : List FormatToken) (n : Normalizing) (lexed : IsLexed (length n.source) 0 ts) where
  rewrite_armed-Turns :
      (first close : ℕ) (a : Armed)
      → first < close
      → close < length ts
      → is_kind (kind_at ts close) rbrace ≡ true
      → ArmedWithin (start_at ts close) (end_at ts first) a
      → Turns ts n (rewrite_armed ts first close n a)
  unfolding apply_match_edits match_edits
  rewrite_armed-Turns first close (unarmed e) less long brace within = tt
  rewrite_armed-Turns first close (armed arms found) less long brace within =
      let whole = length n.source in
      let tight = IsLexed-take whole 0 ts close lexed long brace in
      let at_first = within_match whole ts close long tight first (omega (arith, less)) in
      let at_close = within_match whole ts close long tight close (omega arith) in
      let ordered : IsOrdered whole 0 (sort_edits (match_edits ts first close arms found)) =
        sorted-IsOrdered whole _ _ arms at_first.0 within at_close.0 at_close.1 in
      rw (IsOrdered-fits whole 0 _ ordered) (first, close, arms, found, less, long, ordered, refl)

  rewrite_closed-Turns :
      (first open_at : ℕ) (o : Option ℕ)
      → first < open_at
      → Lies (suc open_at) (length ts) o
      → IsKind ts rbrace o
      → Turns ts n (rewrite_closed ts first open_at n o)
  rewrite_closed-Turns first open_at none less lies kind = tt
  rewrite_closed-Turns first open_at (some close) less (after, long) brace =
      let whole = length n.source in
      let tight = IsLexed-take whole 0 ts close lexed long brace in
      let turn =
        in_turn_match whole ts close long tight first open_at less (omega (arith, after)) in
      let at_open = within_match whole ts close long tight open_at (omega (arith, after)) in
      let body = body_tokens_within whole ts close long tight open_at after in
      let lead : end_at ts first ≤ end_at ts open_at = omega (arith, turn, at_open) in
      rewrite_armed-Turns first close _ (omega (arith, less, after)) long brace (
        scan_arms_from-ArmedWithin ts (start_at ts close) (body_tokens ts open_at close) between
          false (end_at ts first) (end_at ts open_at) (suc open_at) 0 body
          (IsTight-Clear (start_at ts close) (end_at ts first) (end_at ts open_at) (suc open_at) 0
            (body_tokens ts open_at close) lead body)
          (omega arith))

  rewrite_body-Turns :
      (first : ℕ) (b : Body)
      → Opens (suc first) (length ts) b
      → Turns ts n (rewrite_body ts first n b)
  rewrite_body-Turns first (bodiless e) opens = tt
  rewrite_body-Turns first (opens_at j) opens = elim (Bool-cases (j == suc first)) [
    | inl empty ↦ rw empty tt
    | inr full ↦
        let size = length-drop j ts (omega (arith, opens)) in
        rw full (
          rewrite_closed-Turns first j (find_match lbrace rbrace 0 j (drop j ts)) opens.0
            (subst (λ k. Lies (suc j) k (find_match lbrace rbrace 0 j (drop j ts))) size
              (find_match_later j (drop j ts)))
            (find_match-IsKind lbrace rbrace 0 j ts))
  ]

  rewrite_match-Turns : (o : Option ℕ) → Lies 0 (length ts) o → Turns ts n (rewrite_match ts n o)
  rewrite_match-Turns none lies = tt
  rewrite_match-Turns (some first) lies =
      let size = length-drop (suc first) ts lies.1 in
      rewrite_body-Turns first (find_body ts (suc first) 0 (drop (suc first) ts)) (
        subst (λ k. Opens (suc first) k (find_body ts (suc first) 0 (drop (suc first) ts))) size
          (find_body-Opens ts (suc first) 0 (drop (suc first) ts)))

match_round-Turns :
    (lex : List ℕ → Option (List FormatToken)) (n : Normalizing) (ts : List FormatToken)
    → lex n.source ≡ some ts
    → IsLexed (length n.source) 0 ts
    → Turns ts n (match_round lex n)
unfolding match_round
match_round-Turns lex n ts scanned lexed =
    let size : 0 + length ts ≡ length ts = omega arith in
    subst (λ o. Turns ts n (round_after lex o n)) (sym scanned)
      (rewrite_match-Turns ts n lexed (last_match 0 illegal ts)
        (subst (λ k. Lies 0 k (last_match 0 illegal ts)) size (last_match-Lies 0 illegal ts)))

-- Where the tokens of the scanner stand one after another within the source and none is empty, but
-- for the semicolon and EOF at the end of the source, a round of `normalizeMatches` slices no source
-- out of range.
pub match_round-safe :
    (lex : List ℕ → Option (List FormatToken)) (n : Normalizing) (ts : List FormatToken)
    → lex n.source ≡ some ts
    → IsLexed (length n.source) 0 ts
    → match_round lex n ≢ panicked
match_round-safe lex n ts scanned lexed done =
    subst (Turns ts n) done (match_round-Turns lex n ts scanned lexed)
