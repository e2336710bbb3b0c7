-- ===== src/New/Examples.antt =====
-- Tests of `normalizeNew` of internal/compiler/new_parse.go.
use ghi.Prelude.{ℕ, ◌≡◌, ◌≢◌, inr, refl, String, List, [], ◌∷◌, arith, false}
use ghi.Format.Kinds.{FormatKind, FormatToken, ident, lparen, rparen, period}
use ghi.Ternary.Bounds.{bytes_of}
use ghi.New.Marks.{expected_class, expected_arguments, refused, out_of_range, marked, normalize_new}
use ghi.New.Widths.{Keeps, normalize_new-Keeps}
use ghi.New.Range.{normalize_new-within}

abbrev token : FormatKind → String → (start end : ℕ) → FormatToken
token kind_ text_ from to = record {
  kind = kind_;
  text = text_;
  start = from;
  end = to;
  implicit = false;
  break_before = false;
  blank_before = false;
  ternary = false;
}

abbrev source_of : List ℕ
source_of = bytes_of "new  a.Box()"

abbrev named : List FormatToken
named =
    token ident "new" 0 3 ∷ token ident "a" 5 6 ∷ token period "." 6 7 ∷ token ident "Box" 7 10 ∷ []

abbrev tokens : List FormatToken
tokens =
    token ident "new" 0 3
    ∷ token ident "a" 5 6
    ∷ token period "." 6 7
    ∷ token ident "Box" 7 10
    ∷ token lparen "(" 10 11
    ∷ token rparen ")" 11 12
    ∷ []

box-marked : normalize_new source_of tokens ≡ marked (bytes_of "new. a.Box()")
unfolding normalize_new
box-marked = refl

box-bare : normalize_new source_of named ≡ refused (expected_arguments 0)
unfolding normalize_new
box-bare = refl

builtin-kept :
    normalize_new (bytes_of "new(T)") (
      token ident "new" 0 3
      ∷ token lparen "(" 3 4
      ∷ token ident "T" 4 5
      ∷ token rparen ")" 5 6
      ∷ [])
    ≡ marked (bytes_of "new(T)")
unfolding normalize_new
builtin-kept = refl

no-class : normalize_new (bytes_of "new") (token ident "new" 0 3 ∷ []) ≡ refused (expected_class 0)
unfolding normalize_new
no-class = refl

normalize_new-Keeps_example : Keeps 5 source_of (bytes_of "new. a.Box()")
normalize_new-Keeps_example =
    normalize_new-Keeps source_of (bytes_of "new. a.Box()") tokens 5
      (
        λ h. inr (omega arith, omega arith),
        (
          λ h. absurd (cc),
          (λ h. absurd (cc), (λ h. absurd (cc), (λ h. absurd (cc), (λ h. absurd (cc), tt)))),
        ),
      )
      box-marked

normalize_new-within_example : normalize_new source_of tokens ≢ out_of_range
normalize_new-within_example =
    normalize_new-within source_of tokens
      (
        omega arith,
        omega arith,
        (
          omega arith,
          omega arith,
          (
            omega arith,
            omega arith,
            (
              omega arith,
              omega arith,
              (omega arith, omega arith, (omega arith, omega arith, omega arith)),
            ),
          ),
        ),
      )
      (
        λ h. omega arith,
        (
          λ h. omega arith,
          (λ h. omega arith, (λ h. omega arith, (λ h. omega arith, (λ h. omega arith, tt)))),
        ),
      )
