-- ===== src/Arrow/Parse.antt =====
-- internal/compiler/arrow_parse.go: `normalizeArrows`. The scanner is a parameter, which gives the
-- tokens of a source unless it has an error; so is `parser.ParseExpr`, which gives of the text of a
-- function literal how many names each of its parameters has.
use ghi.Prelude.{
  ℕ, zero, suc, Bool, true, false, ◌&&◌, ◌||◌, not, Option, none, some, List, [], ◌∷◌, ◌++◌,
  if◌then◌else◌, ◌==◌, map,
}
use ghi.Coverage.Edits.{SourceEdit, apply}
use ghi.Format.Kinds.{
  FormatKind, assign, lparen, lbrack, lbrace, comma, semicolon, colon, return_word, define, rparen,
  rbrack, rbrace, is_kind, FormatToken,
}
use ghi.Format.Printer.{kind_at}
use ghi.Ternary.Tokens.{is_fat_arrow}
use ghi.Ternary.Bounds.{start_at, slice, bytes_of}
use ghi.Ternary.Loop.{Normalizing}

pub data ArrowError : Type 0 where
  not_scanned : ArrowError
  requires_block : ℕ → ArrowError
  invalid_signature : ℕ → ArrowError

-- Where a signature begins, and where its arrow stands.
pub record Arrow : Type 0 where
  pub start : ℕ
  pub arrow : ℕ

pub data Arrows : Type 0 where
  refused : ArrowError → Arrows
  found : List Arrow → Arrows

-- The state of the search for a signature: it goes on, or it is over.
pub data Search : Type 0 where
  going : (depth : ℕ) (start : Option ℕ) → Search
  over : Option ℕ → Search

abbrev closes : FormatKind → Bool
closes k = is_kind k rparen || is_kind k rbrack || is_kind k rbrace

abbrev opens : FormatKind → Bool
opens k = is_kind k lparen || is_kind k lbrack || is_kind k lbrace

abbrev before_signature : FormatKind → Bool
before_signature k =
    is_kind k semicolon
    || is_kind k define
    || is_kind k assign
    || is_kind k comma
    || is_kind k return_word
    || is_kind k colon

abbrev all_named : List ℕ → Bool
all_named [] = true
all_named (n ∷ ns) = not (n == 0) && all_named ns

abbrev is_named : Option (List ℕ) → Bool
is_named none = false
is_named (some names) = all_named names

abbrev pub starts_block : List FormatToken → Bool
starts_block (t ∷ u ∷ us) = is_kind u.kind lbrace
starts_block _ = false

abbrev pub with_arrow : Arrow → Arrows → Arrows
with_arrow a (refused e) = refused e
with_arrow a (found arrows) = found (a ∷ arrows)

abbrev pub with_signature : (i arrow : ℕ) → Option ℕ → Arrows → Arrows
with_signature i arrow none rest = refused (invalid_signature i)
with_signature i arrow (some s) rest = with_arrow (record { start = s; arrow = arrow }) rest

module _ (parse : List ℕ → Option (List ℕ)) (source : List ℕ) where
  -- The parenthesis at `j` opens the signature of the arrow at `i`.
  unfoldable pub opens_signature : List FormatToken → (i j depth : ℕ) → Bool
  opens_signature ts i j depth =
      (depth == 0)
      && is_kind (kind_at ts j) lparen
      && is_named (
          parse
            (bytes_of "func" ++ (slice (start_at ts j) (start_at ts i) source ++ bytes_of "{}")))

  abbrev search_opening : List FormatToken → (i j depth : ℕ) → Option ℕ → Search
  search_opening ts i j zero start = over start
  search_opening ts i j (suc depth) start =
      going depth (if opens_signature ts i j depth then some (start_at ts j) else start)

  -- One token of the search, at `j`.
  abbrev search_token : List FormatToken → (i j depth : ℕ) → Option ℕ → Search
  search_token ts i j depth start =
      let k = kind_at ts j in
      if closes k
      then going (suc depth) start
      else if opens k
      then search_opening ts i j depth start
      else if (depth == 0) && before_signature k
      then over start
      else going depth start

  -- The start of the signature of the arrow at `i`, from the tokens before `j`.
  unfoldable pub find_signature : List FormatToken → (i j depth : ℕ) → Option ℕ → Option ℕ
  unfolding opens_signature
  find_signature ts i zero depth start = start
  find_signature ts i (suc j) depth start = elim (search_token ts i j depth start) [
    | going d s ↦ find_signature ts i j d s
    | over s ↦ s
  ]

  -- `starts` and `arrows`, in the order of the arrows, from the token at `i` on.
  unfoldable pub find_arrows : List FormatToken → ℕ → List FormatToken → Arrows
  unfolding find_signature
  find_arrows whole i [] = found []
  find_arrows whole i (t ∷ ts) =
      let rest = find_arrows whole (suc i) ts in
      if is_fat_arrow t ts
      then if starts_block ts
        then with_signature i t.start (find_signature whole i i 0 none) rest
        else refused (requires_block i)
      else rest

abbrev pub is_start : List Arrow → ℕ → Bool
is_start [] i = false
is_start (a ∷ arrows) i = (a.start == i) || is_start arrows i

abbrev pub is_arrow : List Arrow → ℕ → Bool
is_arrow [] i = false
is_arrow (a ∷ arrows) i = (a.arrow == i) || is_arrow arrows i

-- What the bytes from `i` on become; `skip` says that the byte at `i` is the second of an arrow.
unfoldable pub lowered_bytes : List Arrow → ℕ → (skip : Bool) → List ℕ → List ℕ
lowered_bytes arrows i skip [] = []
lowered_bytes arrows i skip (b ∷ bs) =
    let hit = is_arrow arrows i in
    let rest = lowered_bytes arrows (suc i) (not skip && hit) bs in
    if skip
    then rest
    else (if is_start arrows i then bytes_of "func" else [])
      ++ (if hit then bytes_of "  " ++ rest else b ∷ rest)

abbrev pub func_edit : ℕ → SourceEdit
func_edit i = record { start = i; end = i; text = bytes_of "func" }

abbrev pub space_edit : ℕ → SourceEdit
space_edit i = record { start = i; end = suc (suc i); text = bytes_of "  " }

-- `edits`.
unfoldable pub arrow_edits : List Arrow → ℕ → (skip : Bool) → List ℕ → List SourceEdit
arrow_edits arrows i skip [] = []
arrow_edits arrows i skip (b ∷ bs) =
    let hit = is_arrow arrows i in
    let rest = arrow_edits arrows (suc i) (not skip && hit) bs in
    if skip
    then rest
    else (if is_start arrows i then func_edit i ∷ [] else [])
      ++ (if hit then space_edit i ∷ rest else rest)

pub data Lowered : Type 0 where
  failed : ArrowError → Lowered
  lowered : Normalizing → Lowered

unfoldable pub lower_arrows : List Arrow → Normalizing → Normalizing
unfolding lowered_bytes arrow_edits apply
lower_arrows [] n = n
lower_arrows (a ∷ arrows) n = record {
  source = lowered_bytes (a ∷ arrows) 0 false n.source;
  mappings = map (λ m. apply n.source (arrow_edits (a ∷ arrows) 0 false n.source) m) n.mappings;
}

abbrev pub lower_found : Normalizing → Arrows → Lowered
lower_found n (refused e) = failed e
lower_found n (found arrows) = lowered (lower_arrows arrows n)

module _ (scan : List ℕ → Option (List FormatToken)) (parse : List ℕ → Option (List ℕ)) where
  abbrev pub lower_scanned : Normalizing → Option (List FormatToken) → Lowered
  lower_scanned n none = failed not_scanned
  lower_scanned n (some ts) = lower_found n (find_arrows parse n.source ts 0 ts)

  unfoldable pub normalize_arrows : Normalizing → Lowered
  unfolding find_arrows lower_arrows
  normalize_arrows n = lower_scanned n (scan n.source)
