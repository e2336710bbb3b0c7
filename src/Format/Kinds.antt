-- ===== src/Format/Kinds.antt =====
-- internal/compiler/format_structure.go and format.go: the kinds of token, what stands between two
-- tokens, and what ends a statement. `op_assign` is an assignment with an operator; `operator` and
-- `keyword` are the operators and keywords of go/token that the sources name nowhere.
use ghi.Prelude.{ℕ, String, Bool, true, false, ◌&&◌, ◌||◌, not, ◌==◌, if◌then◌else◌, str_eq}

pub data FormatKind : Type 0 where
  illegal comment ident int float imag char string and mul arrow bang gtr assign define inc dec :
      FormatKind
  lparen lbrack lbrace comma period rparen rbrack rbrace semicolon colon operator break continue :
      FormatKind
  fallthrough return_word case default func struct interface if_word for_word switch select import :
      FormatKind
  range keyword op_assign eof : FormatKind

abbrev pub code : FormatKind → ℕ
code illegal = 0
code comment = 1
code ident = 2
code int = 3
code float = 4
code imag = 5
code char = 6
code string = 7
code and = 8
code mul = 9
code arrow = 10
code bang = 11
code gtr = 12
code assign = 13
code define = 14
code inc = 15
code dec = 16
code lparen = 17
code lbrack = 18
code lbrace = 19
code comma = 20
code period = 21
code rparen = 22
code rbrack = 23
code rbrace = 24
code semicolon = 25
code colon = 26
code operator = 27
code break = 28
code continue = 29
code fallthrough = 30
code return_word = 31
code case = 32
code default = 33
code func = 34
code struct = 35
code interface = 36
code if_word = 37
code for_word = 38
code switch = 39
code select = 40
code import = 41
code range = 42
code keyword = 43
code op_assign = 44
code eof = 45

-- `==` on kinds.
abbrev pub is_kind : FormatKind → FormatKind → Bool
is_kind a b = code a == code b

-- `IsOperator`.
unfoldable pub is_operator : FormatKind → Bool
is_operator and = true
is_operator mul = true
is_operator arrow = true
is_operator bang = true
is_operator gtr = true
is_operator assign = true
is_operator define = true
is_operator inc = true
is_operator dec = true
is_operator lparen = true
is_operator lbrack = true
is_operator lbrace = true
is_operator comma = true
is_operator period = true
is_operator rparen = true
is_operator rbrack = true
is_operator rbrace = true
is_operator semicolon = true
is_operator colon = true
is_operator operator = true
is_operator op_assign = true
is_operator _ = false

pub record FormatToken : Type 0 where
  pub kind : FormatKind
  pub text : String
  pub start : ℕ
  pub end : ℕ
  pub implicit : Bool
  pub break_before : Bool
  pub blank_before : Bool
  pub ternary : Bool

-- `formatEndsStatement`.
unfoldable pub ends_statement : FormatKind → Bool
ends_statement ident = true
ends_statement int = true
ends_statement float = true
ends_statement imag = true
ends_statement char = true
ends_statement string = true
ends_statement break = true
ends_statement continue = true
ends_statement fallthrough = true
ends_statement return_word = true
ends_statement inc = true
ends_statement dec = true
ends_statement rparen = true
ends_statement rbrack = true
ends_statement rbrace = true
ends_statement _ = false

-- The parenthesis: after which tokens it stands apart.
unfoldable pub paren_space : FormatToken → Bool
paren_space p =
    is_kind p.kind define
    || is_kind p.kind assign
    || is_kind p.kind comma
    || is_kind p.kind return_word
    || is_kind p.kind if_word
    || is_kind p.kind for_word
    || is_kind p.kind switch
    || is_kind p.kind select
    || is_kind p.kind import
    || str_eq p.text "catch"
    || str_eq p.text "match"
    || is_kind p.kind gtr

unfoldable pub bracket_space : FormatKind → Bool
unfolding is_operator
bracket_space p =
    is_kind p range
    || is_kind p return_word
    || (is_operator p && not (is_kind p rbrack) && not (is_kind p lparen))

-- The last test: no space after an opening delimiter or a period.
unfoldable pub plain_space : FormatKind → Bool
plain_space lparen = false
plain_space lbrack = false
plain_space period = false
plain_space _ = true

unfoldable pub space_before : FormatToken → FormatKind → Bool
unfolding paren_space bracket_space plain_space
space_before p comma = false
space_before p semicolon = false
space_before p period = false
space_before p colon = false
space_before p rparen = false
space_before p rbrack = false
space_before p lparen = paren_space p
space_before p lbrack = bracket_space p.kind
space_before p rbrace = not (is_kind p.kind lbrace)
space_before p inc = false
space_before p dec = false
space_before p _ = plain_space p.kind

-- `formatSpace`.
unfoldable pub format_space : FormatToken → FormatToken → Bool
unfolding space_before
format_space p t =
    if p.ternary || t.ternary
    then true
    else if is_kind p.kind assign && is_kind t.kind gtr && (p.end == t.start)
    then false
    else if is_kind p.kind comment || is_kind t.kind comment
    then true
    else if str_eq p.text "?"
    then false
    else space_before p t.kind
