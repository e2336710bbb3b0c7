-- ===== src/Format/Structure.antt =====
-- internal/compiler/format_structure.go: `formatStructure`. `operators` holds the offsets at which
-- the operators of the ternaries begin, which `ternaryTokens` finds. A source is a list of bytes.
use Prim.Native.String as Text
use Prim.Native.Char.{code}
use ghi.Prelude.{
  ℕ, zero, suc, ◌+◌, ◌-◌, String, text_append, Bool, true, false, ◌&&◌, Option, none, some, List,
  [], ◌∷◌, if◌then◌else◌, ltb, ◌==◌, take, drop,
}
use ghi.Format.Kinds.{FormatToken}
use ghi.Format.Printer.{Piece, breaks, tabs, blank, word, has}
use ghi.Format.Layout.{printed}
use ghi.Format.Flatten.{flatten_imports}
use ghi.Format.Imports.{format_imports}

abbrev count_breaks : List ℕ → ℕ
count_breaks [] = 0
count_breaks (b ∷ bs) = (if b == 10 then 1 else 0) + count_breaks bs

abbrev breaks_between : (source : List ℕ) → (end start : ℕ) → ℕ
breaks_between source end start = count_breaks (take (start - end) (drop end source))

-- A token with what the source has between it and the token that ends at `last`.
unfoldable pub mark_token :
    (source operators : List ℕ) → (last : Option ℕ) → FormatToken → FormatToken
mark_token source operators none t = record t { ternary = has operators t.start }
mark_token source operators (some end) t =
    let n = breaks_between source end t.start in
    record t { ternary = has operators t.start; break_before = ltb 0 n; blank_before = ltb 1 n }

-- The tokens of the source: a semicolon that the scanner added is left out.
unfoldable pub gather :
    (source operators : List ℕ) → (last : Option ℕ) → List FormatToken → List FormatToken
unfolding mark_token
gather source operators last [] = []
gather source operators last (t ∷ ts) =
    let rest = gather source operators (if t.implicit then last else some t.end) ts in
    if t.implicit then rest else mark_token source operators last t ∷ rest

abbrev repeat_text : ℕ → String → String
repeat_text zero s = ""
repeat_text (suc n) s = text_append s (repeat_text n s)

abbrev piece_text : Piece → String
piece_text (breaks n) = repeat_text n "\n"
piece_text (tabs n) = repeat_text n "\t"
piece_text blank = " "
piece_text (word t) = t

unfoldable pub render : List Piece → String
render [] = ""
render (p ∷ ps) = text_append (piece_text p) (render ps)

abbrev is_empty : String → Bool
is_empty Text.[] = true
is_empty (Text.◌∷◌ c s) = false

-- `strings.TrimRight(s, "\n")`.
abbrev trim_breaks : String → String
trim_breaks Text.[] = ""
trim_breaks (Text.◌∷◌ c s) =
    let rest = trim_breaks s in if (code c == 10) && is_empty rest then "" else Text.◌∷◌ c rest

-- The tokens in the order in which they are written.
unfoldable pub arranged :
    (unquote : String → String) → (source operators : List ℕ) → List FormatToken → List FormatToken
unfolding gather flatten_imports format_imports
arranged unquote source operators all =
    format_imports unquote (flatten_imports (gather source operators none all))

unfoldable pub format_structure :
    (unquote : String → String) → (source operators : List ℕ) → List FormatToken → String
unfolding arranged printed render
format_structure unquote source operators all =
    text_append (trim_breaks (render (printed (arranged unquote source operators all)))) "\n"
