-- ===== src/Nullable/Examples.antt =====
-- Tests of `normalizeNullable` of internal/compiler/nullable_parse.go.
use ghi.Prelude.{ℕ, String, text_length, ◌+◌, ◌≡◌, refl, false, Option, some, List, [], ◌∷◌, arith}
use ghi.Format.Kinds.{FormatKind, ident, illegal, FormatToken}
use ghi.Format.Printer.{pairs_from}
use ghi.Ternary.Bounds.{bytes_of}
use ghi.Nullable.Stars.{normalized, refused, not_before_type, Scanned, normalize_nullable}
use ghi.Nullable.Restored.{IsRestored, normalize_nullable-IsRestored}

abbrev tok : FormatKind → String → ℕ → FormatToken
tok kind text start = record {
  kind = kind;
  text = text;
  start = start;
  end = start + text_length text;
  implicit = false;
  break_before = false;
  blank_before = false;
  ternary = false;
}

abbrev tokens : List FormatToken
tokens = tok ident "x" 0 ∷ tok illegal "?" 2 ∷ tok ident "T" 3 ∷ []

abbrev parted : List FormatToken
parted = tok ident "x" 0 ∷ tok illegal "?" 2 ∷ tok ident "T" 4 ∷ []

abbrev gives : List FormatToken → List ℕ → Option (List FormatToken)
gives ts source = some ts

abbrev gives_code : List FormatToken → List ℕ → Scanned
gives_code ts source = record { tokens = ts; wrong = false }

nullable_starred :
    normalize_nullable (gives tokens) (gives_code tokens) (bytes_of "x ?T")
    ≡ normalized (bytes_of "x *T")
unfolding normalize_nullable pairs_from
nullable_starred = refl

nullable_refused :
    normalize_nullable (gives parted) (gives_code parted) (bytes_of "x ? T")
    ≡ refused (not_before_type 2)
unfolding normalize_nullable pairs_from
nullable_refused = refl

normalize_nullable-IsRestored_example :
    IsRestored (gives tokens) (gives_code tokens) (bytes_of "x ?T") (bytes_of "x *T")
normalize_nullable-IsRestored_example =
    normalize_nullable-IsRestored (gives tokens) (gives_code tokens) (bytes_of "x ?T")
      (bytes_of "x *T")
      (
        omega arith,
        omega arith,
        λ h. absurd (cc),
        (omega arith, omega arith, λ h. refl, (omega arith, omega arith, λ h. absurd (cc), tt)),
      )
      nullable_starred
