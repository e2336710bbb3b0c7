-- ===== src/Format/Printer.antt =====
-- internal/compiler/format_structure.go: the state of the printer, and the helpers of
-- `formatStructure`. An index of -1 is `none`; a missing entry of `pairs` is 0.
use ghi.Prelude.{
  ℕ, zero, suc, ◌+◌, ◌-◌, String, text_length, Bool, true, false, ◌&&◌, ◌||◌, not, Option, none,
  some, List, [], ◌∷◌, ◌++◌, if◌then◌else◌, ltb, leb, ◌==◌, get_elem?, str_eq, contains,
}
use ghi.Format.Kinds.{
  FormatKind, illegal, comment, ident, func, struct, interface, lparen, lbrack, lbrace, rparen,
  rbrack, rbrace, is_kind, FormatToken,
}

pub record Frame : Type 0 where
  pub index : ℕ
  pub clause : ℕ
  pub literal : Bool
  pub cases : Bool
  pub active_case : Bool
  pub indented : Bool
  pub parameters : Bool
  pub statement : Bool
  pub match_result : Bool
  pub arm_end : Bool
  pub header : String

-- What is written: line breaks, tabs, a space or a text.
pub data Piece : Type 0 where
  breaks tabs : ℕ → Piece
  blank : Piece
  word : String → Piece

pub record Printer : Type 0 where
  pub stack : List Frame
  pub out : List Piece
  pub depth : ℕ
  pub line_start : Bool
  pub pending : ℕ
  pub prev : Option FormatToken
  pub clause : ℕ
  pub commas : List ℕ
  pub literal_braces : List ℕ

abbrev pub start_printer : Printer
start_printer = record {
  stack = [];
  out = [];
  depth = 0;
  line_start = true;
  pending = 0;
  prev = none;
  clause = 0;
  commas = [];
  literal_braces = [];
}

unfoldable pub newline : ℕ → Printer → Printer
newline n s = if ltb s.pending n then record s { pending = n } else s

abbrev piece_length : Piece → ℕ
piece_length (breaks n) = n
piece_length (tabs n) = n
piece_length blank = 1
piece_length (word t) = text_length t

-- `out.Len()`.
abbrev pub out_length : List Piece → ℕ
out_length [] = 0
out_length (p ∷ ps) = piece_length p + out_length ps

-- `emit`: the line breaks that are asked for, then the indentation of a new line or a space.
unfoldable pub break_line : Printer → Printer
break_line s =
    if ltb 0 s.pending && ltb 0 (out_length s.out)
    then record s { out = s.out ++ (breaks s.pending ∷ []); line_start = true; pending = 0 }
    else record s { pending = 0 }

abbrev pub lead : Printer → Bool → List Piece
lead s space = if s.line_start then tabs s.depth ∷ [] else if space then blank ∷ [] else []

unfoldable pub emit : String → Bool → Printer → Printer
unfolding break_line
emit text space s =
    let s' = break_line s in
    record s' { out = s'.out ++ (lead s' space ++ (word text ∷ [])); line_start = false }

abbrev kind_or : Option FormatToken → FormatKind
kind_or none = illegal
kind_or (some t) = t.kind

-- The kind of the token at an index.
abbrev pub kind_at : List FormatToken → ℕ → FormatKind
kind_at ts i = kind_or (get_elem? ts i)

abbrev text_or : Option FormatToken → String
text_or none = ""
text_or (some t) = t.text

abbrev pub text_at : List FormatToken → ℕ → String
text_at ts i = text_or (get_elem? ts i)

abbrev pub has : List ℕ → ℕ → Bool
has [] i = false
has (k ∷ ks) i = (k == i) || has ks i

-- `pairs`, as a list of its entries in either direction.
abbrev pub partner : List (ℕ × ℕ) → ℕ → Option ℕ
partner [] i = none
partner ((a, b) ∷ pairs) i =
    let rest = partner pairs i in if a == i then some b else if b == i then some a else rest

abbrev or_zero : Option ℕ → ℕ
or_zero none = 0
or_zero (some i) = i

unfoldable pub pair_at : List (ℕ × ℕ) → ℕ → ℕ
pair_at pairs i = or_zero (partner pairs i)

abbrev pub is_open : FormatKind → Bool
is_open k = is_kind k lbrace || is_kind k lparen || is_kind k lbrack

abbrev pub is_close : FormatKind → Bool
is_close k = is_kind k rbrace || is_kind k rparen || is_kind k rbrack

abbrev pop_pair : ℕ → List ℕ → List (ℕ × ℕ)
pop_pair i [] = []
pop_pair i (j ∷ opens) = (j, i) ∷ []

abbrev rest_of : List ℕ → List ℕ
rest_of [] = []
rest_of (j ∷ opens) = opens

-- The loop that pairs the delimiters, from the token at `i` on.
unfoldable pub pairs_from : ℕ → List ℕ → List FormatToken → List (ℕ × ℕ)
pairs_from i opens [] = []
pairs_from i opens (t ∷ ts) =
    (if is_close t.kind then pop_pair i opens else [])
    ++ pairs_from (suc i)
        (if is_open t.kind then i ∷ opens else if is_close t.kind then rest_of opens else opens) ts

-- `lastCode`.
unfoldable pub last_code : List FormatToken → ℕ → Option ℕ
last_code ts zero = none
last_code ts (suc i) =
    let before = last_code ts i in if is_kind (kind_at ts i) comment then before else some i

-- The state of the loop of `header`: `skip` is the index up to which the tokens are passed over.
pub record Scan : Type 0 where
  pub skip : ℕ
  pub result : String
  pub collection : Bool

pub data Header : Type 0 where
  returned : String → Header
  scanned : Scan → Header

abbrev headers : List String
headers =
    "for" ∷ "if" ∷ "switch" ∷ "select" ∷ "func" ∷ "constructor" ∷ "enum" ∷ "class" ∷ "interface"
    ∷ "struct" ∷ "try" ∷ "catch" ∷ "finally" ∷ "else" ∷ []

abbrev pub follows_operand : FormatKind → Bool
follows_operand k = is_kind k ident || is_kind k rparen || is_kind k rbrack

unfoldable pub scan_text : String → Scan → Scan
scan_text text s =
    if contains headers text
    then (if str_eq s.result "" then record s { result = text } else s)
    else if str_eq text "match"
    then record s { result = "match" }
    else s

abbrev pub is_type : FormatKind → Bool
is_type k = is_kind k struct || is_kind k interface

module _ (pairs : List (ℕ × ℕ)) (first clause end : ℕ) where
  -- A delimiter whose partner is before the end is passed over with what it holds.
  unfoldable pub scan_open : (j : ℕ) → FormatToken → Scan → Scan
  unfolding scan_text
  scan_open j t s = elim (partner pairs j) [
    | none ↦ scan_text t.text s
    | some k ↦
        if ltb k end
        then record s { skip = suc k; collection = s.collection && not (is_kind t.kind lbrace) }
        else scan_text t.text s
  ]

  -- An empty or complete body after `struct` or `interface`.
  abbrev pub has_body : (j : ℕ) → (next : FormatKind) → Bool
  has_body j next = ltb (suc j) end && is_kind next lbrace && ltb (pair_at pairs (suc j)) end

  abbrev pub sees_collection : (j : ℕ) → (before : FormatKind) → FormatToken → Scan → Scan
  sees_collection j before t s =
      if is_kind t.kind lbrack && ((j == first) || not (follows_operand before))
      then record s { collection = true }
      else s

  -- One round that does not return.
  unfoldable pub scan_token :
      (j : ℕ) → (before : FormatKind) → FormatToken → (next : FormatKind) → Scan → Scan
  unfolding scan_open scan_text
  scan_token j before t next s =
      let s' = sees_collection j before t s in
      if is_kind t.kind func && ltb clause j && is_kind before rbrack
      then s'
      else if is_type t.kind
      then record s' { skip = suc (pair_at pairs (suc j)) }
      else if is_open t.kind
      then scan_open j t s'
      else scan_text t.text s'

  -- The loop over the tokens from `j` on.
  unfoldable pub scan_header : (j : ℕ) → (before : FormatKind) → List FormatToken → Scan → Header
  unfolding scan_token
  scan_header j before [] s = scanned s
  scan_header j before (t ∷ ts) s =
      let next = kind_at ts 0 in
      let rest =
        scan_header (suc j) t.kind ts (if ltb j s.skip then s else scan_token j before t next s) in
      if leb end j
      then scanned s
      else if not (ltb j s.skip) && is_type t.kind && not (has_body j next)
      then returned t.text
      else rest

abbrev pub is_clause : String → Bool
is_clause h = str_eq h "for" || str_eq h "if" || str_eq h "switch"

abbrev header_result : (last : FormatKind) → Header → String
header_result last (returned text) = text
header_result last (scanned s) =
    if s.collection && is_clause s.result && is_kind last ident then "" else s.result

abbrev header_start : List FormatToken → List Frame → ℕ → ℕ
header_start ts [] clause = clause
header_start ts (f ∷ fs) clause =
    if is_kind (kind_at ts f.index) lparen && ltb clause (suc f.index) then suc f.index else clause

-- `header`. `skip` begins at the first token that is read; the token before `end` decides the end.
unfoldable pub header : List FormatToken → List (ℕ × ℕ) → Printer → ℕ → String
unfolding scan_header
header ts pairs s end =
    let first = header_start ts s.stack s.clause in
    header_result (if ltb 0 end then kind_at ts (end - 1) else illegal) (
      scan_header pairs first s.clause end 0 illegal ts
        (record { skip = first; result = ""; collection = false }))
