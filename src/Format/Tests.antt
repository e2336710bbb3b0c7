-- ===== src/Format/Tests.antt =====
-- Tests of `formatStructure`: small files of tokens, each token with a space after it.
use ghi.Prelude.{
  ℕ, zero, suc, ◌+◌, String, text_length, true, false, ◌≡◌, refl, ◌++◌, List, [], ◌∷◌,
}
use ghi.Format.Kinds.{
  FormatKind, comment, ident, int, string, lbrace, lparen, rbrace, rparen, semicolon, define, func,
  return_word, import, FormatToken,
}
use ghi.Format.Kinds.{ends_statement, format_space}
use ghi.Format.Printer.{pair_at}
use mathlib.Core.List.{Perm}
use ghi.Tokens.Pairs.{Bracket}
use ghi.Tokens.Balance.{Balanced, accepts, accepts-Balanced}
use ghi.Format.Structure.{format_structure}
use ghi.Format.Layout.{printed}
use ghi.Format.Flatten.{flatten_imports}
use ghi.Format.Imports.{format_imports}
use ghi.Format.Woven.{Woven, words, printed-Woven}
use ghi.Format.Contents.{contents, flatten_imports-contents}
use ghi.Format.Blocks.{format_imports-Perm}
use ghi.Format.Depth.{PrinterTracks}
use ghi.Format.Indentation.{bracket_kinds, printer_after, print_from-Tracks}

abbrev pub tok : FormatKind → String → ℕ → FormatToken
tok k text start = record {
  kind = k;
  text = text;
  start = start;
  end = start + text_length text;
  implicit = false;
  break_before = false;
  blank_before = false;
  ternary = false;
}

abbrev pub place : ℕ → List (FormatKind × String) → List FormatToken
place start [] = []
place start ((k, text) ∷ ts) = tok k text start ∷ place (start + text_length text + 1) ts

abbrev zeros : ℕ → List ℕ
zeros zero = []
zeros (suc n) = 32 ∷ zeros n

abbrev pub same_text : String → String
same_text s = s

abbrev signature : List FormatToken
signature = place 0 (
    (func, "func")
    ∷ (ident, "f")
    ∷ (lparen, "(")
    ∷ (rparen, ")")
    ∷ (lbrace, "{")
    ∷ (ident, "x")
    ∷ (define, ":=")
    ∷ (ident, "T")
    ∷ (lbrace, "{")
    ∷ [])

abbrev body : List FormatToken
body =
    place 24
      ((int, "1") ∷ (rbrace, "}") ∷ (semicolon, ";") ∷ (return_word, "return") ∷ (rbrace, "}") ∷ [])

abbrev group : List FormatToken
group = place 0 (
    (import, "import")
    ∷ (lparen, "(")
    ∷ (string, "b")
    ∷ (semicolon, ";")
    ∷ (comment, "/*c*/")
    ∷ (string, "a")
    ∷ (semicolon, ";")
    ∷ (rparen, ")")
    ∷ [])

function_formatted :
    format_structure same_text (zeros 60) [] (signature ++ body)
    ≡ "func f() {\n\tx := T{\n\t\t1,\n\t}\n\n\treturn\n}\n"
unfolding format_structure pair_at ends_statement format_space
function_formatted = refl

imports_formatted : format_structure same_text (zeros 60) [] group ≡ "/*c*/\nimport a\nimport b\n"
unfolding format_structure pair_at ends_statement format_space
imports_formatted = refl

function_Balanced : Balanced (bracket_kinds (signature ++ body))
unfolding accepts
function_Balanced = accepts-Balanced (bracket_kinds (signature ++ body)) refl

print_from-Tracks_example :
    (bs : List Bracket) × PrinterTracks (signature ++ body) (printer_after signature body) bs
    × (accepts bs (bracket_kinds body) ≡ true)
print_from-Tracks_example = print_from-Tracks signature body function_Balanced

printed-Woven_example : Woven (signature ++ body) (words (printed (signature ++ body)))
printed-Woven_example = printed-Woven (signature ++ body)

flatten_imports-contents_example : contents (flatten_imports group) ≡ contents group
flatten_imports-contents_example = flatten_imports-contents group

format_imports-Perm_example :
    Perm (format_imports same_text (flatten_imports group)) (flatten_imports group)
format_imports-Perm_example = format_imports-Perm same_text (flatten_imports group)
