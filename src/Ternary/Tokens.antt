-- ===== src/Ternary/Tokens.antt =====
-- internal/compiler/ternary_parse.go: `ternaryTokens`, for the tokens that the scanner gave, and
-- `ternaryInHeader`. A loop whose index jumps ahead passes over the tokens up to `skip`.
use ghi.Prelude.{
  ℕ, zero, suc, Bool, true, false, ◌&&◌, ◌||◌, Option, none, some, List, [], ◌∷◌, ◌++◌,
  if◌then◌else◌, ltb, leb, ◌==◌, str_eq,
}
use ghi.Format.Kinds.{
  FormatKind, comment, assign, gtr, colon, comma, semicolon, define, rparen, rbrack, rbrace, lbrace,
  if_word, for_word, switch, range, is_kind, FormatToken,
}
use ghi.Format.Printer.{partner, kind_at, pairs_from}

-- The tokens but the comments.
unfoldable pub grammar_tokens : List FormatToken → List FormatToken
grammar_tokens [] = []
grammar_tokens (t ∷ ts) =
    let rest = grammar_tokens ts in if is_kind t.kind comment then rest else t ∷ rest

-- `groups`.
abbrev pub groups_of : List FormatToken → List (ℕ × ℕ)
groups_of ts = pairs_from 0 [] ts

abbrev end_of_group : ℕ → Option ℕ → Option ℕ
end_of_group j none = none
end_of_group j (some k) = if ltb j k then some k else none

-- The partner of the delimiter at `j`, if it stands later.
abbrev pub group_end : List (ℕ × ℕ) → ℕ → Option ℕ
group_end groups j = end_of_group j (partner groups j)

abbrev start_of_group : ℕ → Option ℕ → Option ℕ
start_of_group j none = none
start_of_group j (some k) = if ltb k j then some k else none

-- The partner of the delimiter at `j`, if it stands earlier.
abbrev pub group_start : List (ℕ × ℕ) → ℕ → Option ℕ
group_start groups j = start_of_group j (partner groups j)

abbrev pub skip_past : Option ℕ → ℕ → ℕ
skip_past none skip = skip
skip_past (some k) skip = suc k

abbrev pub is_some : Option ℕ → Bool
is_some none = false
is_some (some k) = true

abbrev pub is_fat_arrow : FormatToken → List FormatToken → Bool
is_fat_arrow t [] = false
is_fat_arrow t (u ∷ us) = is_kind t.kind assign && is_kind u.kind gtr && (t.end == u.start)

abbrev pub ends_value : FormatKind → Bool
ends_value k =
    is_kind k comma
    || is_kind k semicolon
    || is_kind k assign
    || is_kind k define
    || is_kind k rparen
    || is_kind k rbrack
    || is_kind k rbrace

-- The colon of a question, from the token at `j` on.
unfoldable pub find_colon : List (ℕ × ℕ) → (j skip : ℕ) → List FormatToken → Option ℕ
find_colon groups j skip [] = none
find_colon groups j skip (t ∷ ts) =
    let passed = ltb j skip in
    let group = group_end groups j in
    let rest = find_colon groups (suc j) (if passed then skip else skip_past group skip) ts in
    if passed || is_some group || is_fat_arrow t ts
    then rest
    else if is_kind t.kind colon
    then some j
    else if ends_value t.kind
    then none
    else rest

-- A question and its colon.
pub record Ternary : Type 0 where
  pub question : ℕ
  pub colon : ℕ

abbrev pub ternary_at : ℕ → Option ℕ → List Ternary
ternary_at i none = []
ternary_at i (some j) = record { question = i; colon = j } ∷ []

-- `pairs`, in the order of the questions.
unfoldable pub find_ternaries : List (ℕ × ℕ) → ℕ → List FormatToken → List Ternary
unfolding find_colon
find_ternaries groups i [] = []
find_ternaries groups i (t ∷ ts) =
    (if str_eq t.text "?" then ternary_at i (find_colon groups (suc i) 0 ts) else [])
    ++ find_ternaries groups (suc i) ts

-- What a token before an expression says of it: it stands in the header of a statement, or not, or
-- the search goes on.
pub data Context : Type 0 where
  heads plain onward : Context

unfoldable pub context_of : (last : Bool) → FormatKind → Context
context_of last if_word = heads
context_of last for_word = heads
context_of last switch = heads
context_of last range = heads
context_of last lbrace = plain
context_of last rbrace = plain
context_of last semicolon = if last then onward else plain
context_of last _ = onward

-- A parenthesis or bracket is passed over with what it closes.
abbrev header_low : List FormatToken → List (ℕ × ℕ) → ℕ → ℕ → ℕ
header_low ts groups i low =
    if is_kind (kind_at ts i) rparen || is_kind (kind_at ts i) rbrack
    then elim (partner groups i) [ none ↦ low | some k ↦ k ]
    else low

-- `ternaryInHeader`, for the tokens before `i`; those from `low` on are passed over.
unfoldable pub in_header : List FormatToken → List (ℕ × ℕ) → (start i low : ℕ) → Bool
unfolding context_of
in_header ts groups start zero low = false
in_header ts groups start (suc i) low =
    let passed = leb low i in
    let rest = in_header ts groups start i (if passed then low else header_low ts groups i low) in
    if passed then rest else elim (context_of (suc i == start) (kind_at ts i)) [
      | heads ↦ true
      | plain ↦ false
      | onward ↦ rest
    ]
