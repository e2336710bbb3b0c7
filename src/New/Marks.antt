-- ===== src/New/Marks.antt =====
-- internal/compiler/new_parse.go: `normalizeNew`, and `erase` of internal/compiler/frontend.go. A
-- write past the end of the source, where the program stops, is an outcome of its own.
use ghi.Prelude.{
  ℕ, zero, suc, Bool, ◌&&◌, ◌||◌, not, Option, none, some, List, [], ◌∷◌, if◌then◌else◌, ltb, leb,
  ◌==◌, drop, str_eq,
}
use ghi.Format.Kinds.{ident, lparen, lbrack, rbrack, period, is_kind, FormatToken}
use ghi.Match.Arms.{find_match}

pub data NewError : Type 0 where
  expected_class unclosed expected_arguments : ℕ → NewError

-- What stands after a `new`: the builtin, an error, or a construction of the class whose name
-- begins at `next`.
pub data Construct : Type 0 where
  builtin : Construct
  faulty : NewError → Construct
  constructs : (next : ℕ) → Construct

abbrev pub is_new : FormatToken → Bool
is_new t = is_kind t.kind ident && str_eq t.text "new"

-- What follows the names that qualify a class.
unfoldable pub qualified : List FormatToken → List FormatToken
qualified (t ∷ u ∷ us) =
    let rest = qualified us in
    if is_kind t.kind period && is_kind u.kind ident then rest else t ∷ u ∷ us
qualified ts = ts

abbrev after_match : List FormatToken → Option ℕ → Option (List FormatToken)
after_match ts none = none
after_match ts (some k) = some (drop (suc k) ts)

-- What follows the type arguments, if any; none if they are not closed.
unfoldable pub past_arguments : List FormatToken → Option (List FormatToken)
unfolding find_match
past_arguments [] = some []
past_arguments (t ∷ ts) =
    if is_kind t.kind lbrack
    then after_match (t ∷ ts) (find_match lbrack rbrack 0 0 (t ∷ ts))
    else some (t ∷ ts)

abbrev pub check_call : (i next : ℕ) → Option (List FormatToken) → Construct
check_call i next none = faulty (unclosed i)
check_call i next (some []) = faulty (expected_arguments i)
check_call i next (some (t ∷ ts)) =
    if is_kind t.kind lparen then constructs next else faulty (expected_arguments i)

-- The checks for the `new` at `i`, given the tokens after it.
unfoldable pub construct_after : ℕ → List FormatToken → Construct
unfolding qualified past_arguments
construct_after i [] = faulty (expected_class i)
construct_after i (t ∷ ts) =
    if is_kind t.kind lparen
    then builtin
    else if is_kind t.kind ident
    then check_call i t.start (past_arguments (qualified ts))
    else faulty (expected_class i)

abbrev pub is_line_end : ℕ → Bool
is_line_end b = (b == 10) || (b == 13)

-- `erase`, from the byte at `i` on.
unfoldable pub erase : (start end i : ℕ) → List ℕ → List ℕ
erase start end i [] = []
erase start end i (b ∷ bs) =
    (if leb start i && ltb i end && not (is_line_end b) then 32 else b) ∷ erase start end (suc i) bs

abbrev pub prepend : ℕ → Option (List ℕ) → Option (List ℕ)
prepend b none = none
prepend b (some bs) = some (b ∷ bs)

-- A write to the byte at `i`; none past the end.
unfoldable pub write_byte : (i byte : ℕ) → List ℕ → Option (List ℕ)
write_byte i byte [] = none
write_byte zero byte (b ∷ bs) = some (byte ∷ bs)
write_byte (suc i) byte (b ∷ bs) = prepend b (write_byte i byte bs)

-- The gap after a `new` becomes a period and spaces.
unfoldable pub mark_gap : (end next : ℕ) → List ℕ → Option (List ℕ)
unfolding erase write_byte
mark_gap end next data_ = write_byte end 46 (erase end next 0 data_)

pub data Marked : Type 0 where
  refused : NewError → Marked
  out_of_range : Marked
  marked : List ℕ → Marked

abbrev pub mark_rest : (rest : List ℕ → Marked) → Option (List ℕ) → Marked
mark_rest rest none = out_of_range
mark_rest rest (some data_) = rest data_

abbrev pub mark_construct : (end : ℕ) (rest : List ℕ → Marked) → List ℕ → Construct → Marked
mark_construct end rest data_ builtin = rest data_
mark_construct end rest data_ (faulty e) = refused e
mark_construct end rest data_ (constructs next) = mark_rest rest (mark_gap end next data_)

-- The loop, from the token at `i` on.
unfoldable pub mark_from : ℕ → List FormatToken → List ℕ → Marked
unfolding construct_after mark_gap
mark_from i [] data_ = marked data_
mark_from i (t ∷ ts) data_ =
    let rest = mark_from (suc i) ts in
    if is_new t then mark_construct t.end rest data_ (construct_after i ts) else rest data_

unfoldable pub normalize_new : List ℕ → List FormatToken → Marked
unfolding mark_from
normalize_new source ts = mark_from 0 ts source
