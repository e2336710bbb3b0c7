-- ===== src/Match/Exhaustive.antt =====
-- internal/compiler/match_exhaustive.go: `validateExhaustiveMatches` on one function, with
-- `enumSymbol` of enums.go and `unparen` of collections.go. What go/types says of an expression,
-- and the decimal text of a number, are parameters.
use ghi.Prelude.{
  ℕ, String, ◌&&◌, Option, none, some, List, [], ◌∷◌, ◌==◌, if◌then◌else◌, str_eq, contains,
  text_length, text_append,
}
use ghi.Syntax.{
  Expr, paren, call, ident, selector, Exprs, no_exprs, more_exprs, switch_stmt, Stmts, more_stmts,
  Clauses, no_clauses, case_clause, default_clause,
}

-- The type of the subject: no type, one that is not a named type of a package, or a named one.
pub data Subject : Type 0 where
  untyped unnamed : Subject
  named : (pkg : ℕ) (name : String) → Subject

pub record Object : Type 0 where
  pub pkg : ℕ
  pub name : String

pub record EnumDecl : Type 0 where
  pub pkg : ℕ
  pub name : String
  pub backing : String
  pub cases : List String

pub data MatchError : Type 0 where
  needs_default not_a_case : MatchError
  duplicate : String → MatchError
  missing : List String → MatchError

-- `accepted` is a match that is left alone, or one that is exhaustive.
pub data Verdict : Type 0 where
  accepted : Verdict
  rejected : MatchError → Verdict

-- `text_length` counts the bytes of a text in UTF-8, as `len` does.
unfoldable pub enum_symbol : (ℕ → String) → (name member : String) → String
enum_symbol itoa name member = text_append "GhiEnum_" (
    text_append (itoa (text_length name))
      (text_append "_" (text_append name (text_append "_" member))))

unfoldable pub unparen : Expr → Expr
unparen (paren x) = unparen x
unparen x = x

-- The clauses' lists in order, if none is a default.
unfoldable pub arms : Clauses → Option (List Exprs)
arms no_clauses = some []
arms (case_clause list body rest) = elim (arms rest) [ none ↦ none | some ls ↦ some (list ∷ ls) ]
arms (default_clause body rest) = none

-- The last plain enum with the package and the name of the subject.
unfoldable pub find_enum : List EnumDecl → (pkg : ℕ) (name : String) → Option EnumDecl
find_enum [] pkg name = none
find_enum (e ∷ es) pkg name = elim (find_enum es pkg name) [
  | some later ↦ some later
  | none ↦ if (e.pkg == pkg) && (str_eq e.name name && str_eq e.backing "") then some e else none
]

-- What the two loops over the candidates leave, with the set `seen`.
pub data Scan : Type 0 where
  stopped : MatchError → Scan
  found : (seen : List String) → Scan

-- A scan goes on with the set that it has.
abbrev pub and_then : Scan → (List String → Scan) → Scan
and_then (stopped error) next = stopped error
and_then (found seen) next = next seen

abbrev pub scan_one : Option String → (seen : List String) → Scan
scan_one none seen = stopped not_a_case
scan_one (some name) seen =
    if contains seen name then stopped (duplicate name) else found (name ∷ seen)

unfoldable pub missing_cases : List String → (seen : List String) → List String
missing_cases [] seen = []
missing_cases (c ∷ cs) seen =
    let rest = missing_cases cs seen in if contains seen c then rest else c ∷ rest

abbrev pub report_missing : List String → Verdict
report_missing [] = accepted
report_missing names = rejected (missing names)

unfoldable pub verdict_of : EnumDecl → Scan → Verdict
unfolding missing_cases
verdict_of e (stopped error) = rejected error
verdict_of e (found seen) = report_missing (missing_cases e.cases seen)

module _ (itoa : ℕ → String) (object_of : Expr → Option Object) where
  -- The object that a call is of.
  unfoldable pub called : Expr → Option Object
  called (ident x) = object_of (ident x)
  called (selector x name) = object_of (ident name)
  called _ = none

  -- The loop over the cases: the last one whose symbol is the object's name.
  unfoldable pub case_named : (enum symbol : String) → List String → Option String
  unfolding enum_symbol
  case_named enum symbol [] = none
  case_named enum symbol (c ∷ cs) = elim (case_named enum symbol cs) [
    | some later ↦ some later
    | none ↦ if str_eq symbol (enum_symbol itoa enum c) then some c else none
  ]

  unfoldable pub case_of : EnumDecl → Option Object → Option String
  unfolding case_named
  case_of e none = none
  case_of e (some object) =
      if object.pkg == e.pkg then case_named e.name object.name e.cases else none

  -- The case that a candidate names.
  unfoldable pub candidate : EnumDecl → Expr → Option String
  unfolding called case_of
  candidate e (call fun args) = case_of e (called fun)
  candidate e _ = none

  unfoldable pub scan_exprs : EnumDecl → Exprs → List String → Scan
  unfolding candidate unparen
  scan_exprs e no_exprs seen = found seen
  scan_exprs e (more_exprs x xs) seen =
      and_then (scan_one (candidate e (unparen x)) seen) (λ seen'. scan_exprs e xs seen')

  unfoldable pub scan_arms : EnumDecl → List Exprs → List String → Scan
  unfolding scan_exprs
  scan_arms e [] seen = found seen
  scan_arms e (list ∷ lists) seen =
      and_then (scan_exprs e list seen) (λ seen'. scan_arms e lists seen')

  unfoldable pub validate_arms : EnumDecl → List Exprs → Verdict
  unfolding scan_arms verdict_of
  validate_arms e lists = verdict_of e (scan_arms e lists [])

  unfoldable pub validate_subject : List EnumDecl → Subject → List Exprs → Verdict
  unfolding validate_arms find_enum
  validate_subject enums untyped lists = accepted
  validate_subject enums unnamed lists = rejected needs_default
  validate_subject enums (named pkg name) lists = elim (find_enum enums pkg name) [
    | none ↦ rejected needs_default
    | some e ↦ validate_arms e lists
  ]

  unfoldable pub validate_match : List EnumDecl → (type_of : Expr → Subject) → Stmts → Verdict
  unfolding validate_subject arms
  validate_match enums type_of (more_stmts (switch_stmt init tag body) rest) = elim (arms body) [
    | none ↦ accepted
    | some lists ↦ validate_subject enums (type_of tag) lists
  ]
  validate_match enums type_of _ = accepted
