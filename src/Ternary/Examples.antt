-- ===== src/Ternary/Examples.antt =====
-- Tests of `normalizeTernaries` of internal/compiler/ternary_parse.go, with a scanner to which each
-- byte is a token.
use ghi.Prelude.{
  ℕ, suc, ◌+◌, ◌≤◌, ◌≡◌, refl, true, false, Option, some, List, [], ◌∷◌, if◌then◌else◌, arith,
  length, ◌==◌,
}
use ghi.Format.Kinds.{
  FormatKind, ident, illegal, colon, lbrace, rbrace, lparen, rparen, FormatToken, ends_statement,
}
use ghi.Format.Printer.{pairs_from}
use ghi.Ternary.Tokens.{grammar_tokens}
use ghi.Ternary.Bounds.{bytes_of}
use ghi.Ternary.Loop.{Normalizing, rewritten, finished, ternary_round, normalize_ternaries}
use ghi.Ternary.Edited.{InOrder, Rewrites, ternary_round-IsOrdered}

abbrev byte_kind : ℕ → FormatKind
byte_kind b =
    if b == b':'
    then colon
    else if b == b'('
    then lparen
    else if b == b')'
    then rparen
    else if b == b'{'
    then lbrace
    else if b == b'}'
    then rbrace
    else if b == b'?'
    then illegal
    else ident

abbrev byte_token : ℕ → ℕ → FormatToken
byte_token i b = record {
  kind = byte_kind b;
  text = if b == 63 then "?" else "x";
  start = i;
  end = suc i;
  implicit = false;
  break_before = false;
  blank_before = false;
  ternary = false;
}

abbrev bytes_from : ℕ → List ℕ → List FormatToken
bytes_from i [] = []
bytes_from i (b ∷ bs) = byte_token i b ∷ bytes_from (suc i) bs

abbrev scan_bytes : List ℕ → Option (List FormatToken)
scan_bytes source = some (bytes_from 0 source)

bytes_from-InOrder : (n i : ℕ) (bs : List ℕ) → i + length bs ≤ n → InOrder n i (bytes_from i bs)
bytes_from-InOrder n i [] h = omega (arith, h)
bytes_from-InOrder n i (b ∷ bs) h =
    (omega arith, omega arith, bytes_from-InOrder n (suc i) bs (omega (arith, h)))

abbrev choice : Normalizing
choice = record { source = bytes_of "a?b:c"; mappings = [] }

abbrev chosen : Normalizing
chosen = record {
  source = bytes_of "(func() ghi_ternary_result { if a { return b }; return c })()";
  mappings = [];
}

choice-rewritten : ternary_round scan_bytes (λ bs. true) choice ≡ rewritten chosen
unfolding ternary_round ends_statement pairs_from
choice-rewritten = refl

choice-finished : normalize_ternaries scan_bytes (λ bs. true) 2 choice ≡ some (finished chosen)
unfolding normalize_ternaries ends_statement pairs_from
choice-finished = refl

ternary_round-IsOrdered_example :
    Rewrites scan_bytes (λ bs. true) (grammar_tokens (bytes_from 0 choice.source)) choice chosen
ternary_round-IsOrdered_example =
    ternary_round-IsOrdered scan_bytes (λ bs. true) choice chosen (bytes_from 0 choice.source) refl
      (bytes_from-InOrder 5 0 choice.source (omega arith)) choice-rewritten
