-- ===== src/Ternary/Bounds.antt =====
-- internal/compiler/ternary_parse.go: the operands of a ternary in `normalizeTernaries`, and the
-- edits of one round. `parser.ParseExpr` is a parameter, which says of a text whether it is an
-- expression that needs no body after it.
use Prim.Native.String as Text
use Prim.Native.Char.{code}
use ghi.Prelude.{
  ℕ, zero, suc, ◌-◌, String, Bool, false, ◌&&◌, ◌||◌, Option, none, some, List, [], ◌∷◌,
  if◌then◌else◌, ltb, leb, ◌==◌, get_elem?, str_eq, take, drop,
}
use ghi.Coverage.Edits.{SourceEdit}
use ghi.Format.Kinds.{
  FormatKind, arrow, gtr, assign, lparen, lbrack, lbrace, comma, semicolon, colon, return_word,
  if_word, for_word, switch, case, range, define, op_assign, rparen, rbrack, rbrace, is_kind,
  FormatToken, ends_statement,
}
use ghi.Format.Printer.{kind_at, text_at}
use ghi.Ternary.Tokens.{group_end, group_start, skip_past, is_some, Ternary, in_header}

-- Where a token begins and ends; 0 out of range.
abbrev start_or : Option FormatToken → ℕ
start_or none = 0
start_or (some t) = t.start

abbrev end_or : Option FormatToken → ℕ
end_or none = 0
end_or (some t) = t.end

abbrev pub start_at : List FormatToken → ℕ → ℕ
start_at ts i = start_or (get_elem? ts i)

abbrev pub end_at : List FormatToken → ℕ → ℕ
end_at ts i = end_or (get_elem? ts i)

abbrev before_condition : FormatKind → Bool
before_condition k =
    is_kind k lparen
    || is_kind k lbrack
    || is_kind k lbrace
    || is_kind k comma
    || is_kind k semicolon
    || is_kind k colon
    || is_kind k return_word
    || is_kind k if_word
    || is_kind k for_word
    || is_kind k switch
    || is_kind k case
    || is_kind k range
    || is_kind k define
    || is_kind k assign
    || is_kind k op_assign

-- The token at `i` stands before the condition.
unfoldable pub bounds_condition : List FormatToken → ℕ → Bool
unfolding ends_statement
bounds_condition ts i =
    (is_kind (kind_at ts i) arrow && ltb 0 i && ends_statement (kind_at ts (i - 1)))
    || (is_kind (kind_at ts i) gtr
        && ltb 0 i
        && is_kind (kind_at ts (i - 1)) assign
        && (end_at ts (i - 1) == start_at ts i))
    || before_condition (kind_at ts i)
    || str_eq (text_at ts i) "throw"

abbrev pub lower : Option ℕ → ℕ → ℕ
lower none low = low
lower (some k) low = k

-- The first token of the condition, from the tokens before `i`; those from `low` on are passed
-- over.
unfoldable pub find_start : List FormatToken → List (ℕ × ℕ) → (i low : ℕ) → ℕ
unfolding bounds_condition
find_start ts groups zero low = zero
find_start ts groups (suc i) low =
    let passed = leb low i in
    let group = group_start groups i in
    let rest = find_start ts groups i (if passed then low else lower group low) in
    if passed || is_some group then rest else if bounds_condition ts i then suc i else rest

abbrev pub after_value : FormatKind → Bool
after_value k =
    is_kind k comma
    || is_kind k semicolon
    || is_kind k colon
    || is_kind k rparen
    || is_kind k rbrack
    || is_kind k rbrace

abbrev pub slice : (from to : ℕ) → List ℕ → List ℕ
slice from to source = take (to - from) (drop from source)

module _ (complete : List ℕ → Bool) (source : List ℕ) where
  -- The brace at `t` is the body of the statement in whose header the ternary stands.
  abbrev pub begins_body : (header : Bool) → (value : ℕ) → FormatToken → Bool
  begins_body header value t =
      header && is_kind t.kind lbrace && complete (slice value t.start source)

  -- The index past the second value, from the token at `j` on; `value` is where it begins.
  unfoldable pub find_end :
      List (ℕ × ℕ) → (header : Bool) → (value j skip : ℕ) → List FormatToken → ℕ
  find_end groups header value j skip [] = j
  find_end groups header value j skip (t ∷ ts) =
      let passed = ltb j skip in
      let group = group_end groups j in
      let rest =
        find_end groups header value (suc j) (if passed then skip else skip_past group skip) ts in
      if passed
      then rest
      else if begins_body header value t
      then j
      else if is_some group
      then rest
      else if after_value t.kind
      then j
      else rest

abbrev pub is_question : ℕ → List Ternary → Bool
is_question i [] = false
is_question i (t ∷ ts) = (t.question == i) || is_question i ts

-- Whether a question stands among `n` tokens from `i` on, outside of groups.
unfoldable pub is_nested : List (ℕ × ℕ) → List Ternary → (i skip n : ℕ) → Bool
is_nested groups pairs i skip zero = false
is_nested groups pairs i skip (suc n) =
    let passed = ltb i skip in
    let group = group_end groups i in
    let rest = is_nested groups pairs (suc i) (if passed then skip else skip_past group skip) n in
    if passed || is_some group then rest else is_question i pairs || rest

pub data TernaryError : Type 0 where
  not_scanned : TernaryError
  requires_values : ℕ → TernaryError
  requires_parentheses : ℕ → TernaryError

-- The tokens of a ternary: `start`, `q`, `colon` and `end`.
pub record Operands : Type 0 where
  pub start : ℕ
  pub question : ℕ
  pub colon : ℕ
  pub end : ℕ

pub data Bounded : Type 0 where
  refused : TernaryError → Bounded
  bounded : Operands → Bounded

-- The bytes of a text in ASCII.
abbrev pub bytes_of : String → List ℕ
bytes_of Text.[] = []
bytes_of (Text.◌∷◌ c s) = code c ∷ bytes_of s

-- `edits`.
unfoldable pub ternary_edits : List FormatToken → Operands → List SourceEdit
ternary_edits ts o =
    let first = start_at ts o.start in
    let last = end_at ts (o.end - 1) in
    record { start = first; end = first; text = bytes_of "(func() ghi_ternary_result { if " }
    ∷ record {
      start = start_at ts o.question;
      end = end_at ts o.question;
      text = bytes_of " { return ";
    }
    ∷ record { start = start_at ts o.colon; end = end_at ts o.colon; text = bytes_of " }; return " }
    ∷ record { start = last; end = last; text = bytes_of " })()" }
    ∷ []

module _ (complete : List ℕ → Bool) (source : List ℕ) where
  -- The checks of one round, for its first ternary.
  unfoldable pub check_operands :
      List FormatToken → List (ℕ × ℕ) → List Ternary → Operands → Bounded
  unfolding is_nested
  check_operands ts groups pairs o =
      if (o.start == o.question) || (o.colon == suc o.question) || (o.end == suc o.colon)
      then refused (requires_values o.question)
      else if is_nested groups pairs (suc o.question) 0 (o.end - suc o.question)
      then refused (requires_parentheses o.question)
      else bounded o

  unfoldable pub find_operands : List FormatToken → List (ℕ × ℕ) → Ternary → Operands
  unfolding find_start find_end in_header
  find_operands ts groups t =
      let first = find_start ts groups t.question t.question in
      record {
        start = first;
        question = t.question;
        colon = t.colon;
        end =
            find_end complete source groups (in_header ts groups first first first)
              (end_at ts t.colon) (suc t.colon) 0 (drop (suc t.colon) ts);
      }

  -- One round.
  unfoldable pub bound_ternary : List FormatToken → List (ℕ × ℕ) → List Ternary → Ternary → Bounded
  unfolding check_operands find_operands
  bound_ternary ts groups pairs t = check_operands ts groups pairs (find_operands ts groups t)
