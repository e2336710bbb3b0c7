-- ===== src/Match/RoundTests.antt =====
-- Tests of `normalizeMatches` of internal/compiler/match_parse.go.
use ghi.Prelude.{
  ℕ, ◌+◌, String, text_length, ◌≡◌, ◌≢◌, refl, false, Option, some, List, [], ◌∷◌, arith, length,
  inl, inr,
}
use ghi.Format.Kinds.{
  FormatKind, ident, int, lbrace, rbrace, assign, gtr, comma, default, semicolon, eof, FormatToken,
}
use ghi.Ternary.Bounds.{bytes_of}
use ghi.Ternary.Loop.{Normalizing}
use ghi.Match.Arms.{no_arrow}
use ghi.Match.Round.{failed, panicked, match_round}
use ghi.Match.Lexed.{IsLexed}
use ghi.Match.Ordered.{match_round-safe}

abbrev lexeme : FormatKind → String → ℕ → FormatToken
lexeme kind text start = record {
  kind = kind;
  text = text;
  start = start;
  end = start + text_length text;
  implicit = false;
  break_before = false;
  blank_before = false;
  ternary = false;
}

abbrev head : List FormatToken → List FormatToken
head ts = lexeme ident "match" 0 ∷ lexeme ident "x" 6 ∷ lexeme lbrace "{" 8 ∷ lexeme int "1" 9 ∷ ts

abbrev lexemes : List FormatToken
lexemes = head (
    lexeme assign "=" 10
    ∷ lexeme gtr ">" 11
    ∷ lexeme int "2" 12
    ∷ lexeme comma "," 13
    ∷ lexeme default "default" 14
    ∷ lexeme assign "=" 21
    ∷ lexeme gtr ">" 22
    ∷ lexeme int "3" 23
    ∷ lexeme comma "," 24
    ∷ lexeme rbrace "}" 25
    ∷ lexeme semicolon "\n" 26
    ∷ lexeme eof "" 26
    ∷ [])

abbrev cut : List FormatToken
cut = head (lexeme semicolon ";" 10 ∷ lexeme rbrace "}" 11 ∷ [])

abbrev lexes : List FormatToken → List ℕ → Option (List FormatToken)
lexes ts source = some ts

abbrev digits : Normalizing
digits = record { source = bytes_of "match x {1=>2,default=>3,}"; mappings = [] }

abbrev switched : Normalizing
switched = record {
  source = bytes_of "(func() ghi_match_result { switch x {case 1: return 2;default: return 3;}})()";
  mappings = [];
}

digits-failed : match_round (lexes cut) digits ≡ failed no_arrow
unfolding match_round
digits-failed = refl

lexemes-IsLexed : IsLexed (length digits.source) 0 lexemes
lexemes-IsLexed = inl (
  omega arith,
  omega arith,
  inl (
    omega arith,
    omega arith,
    inl (
      omega arith,
      omega arith,
      inl (
        omega arith,
        omega arith,
        inl (
          omega arith,
          omega arith,
          inl (
            omega arith,
            omega arith,
            inl (
              omega arith,
              omega arith,
              inl (
                omega arith,
                omega arith,
                inl (
                  omega arith,
                  omega arith,
                  inl (
                    omega arith,
                    omega arith,
                    inl (
                      omega arith,
                      omega arith,
                      inl (
                        omega arith,
                        omega arith,
                        inl (
                          omega arith,
                          omega arith,
                          inl (
                            omega arith,
                            omega arith,
                            inr (omega arith, ((refl, refl), ((refl, refl), tt))),
                          ),
                        ),
                      ),
                    ),
                  ),
                ),
              ),
            ),
          ),
        ),
      ),
    ),
  ),
)

match_round-safe_example : match_round (lexes lexemes) digits ≢ panicked
match_round-safe_example = match_round-safe (lexes lexemes) digits lexemes refl lexemes-IsLexed
