-- ===== src/Format/Flatten.antt =====
-- internal/compiler/format_structure.go: `formatFlattenImports`. The loops with one index are one
-- pass over the tokens whose state says in which of the loops the index is.
use ghi.Prelude.{Bool, true, false, ◌&&◌, not, List, [], ◌∷◌, ◌++◌, if◌then◌else◌}
use ghi.Format.Kinds.{
  FormatKind, comment, string, lparen, rparen, semicolon, import, is_kind, FormatToken,
}

-- `entries` looks for the next entry, after the comments `leading`; `naming` for its text, which
-- begins with `body`; `trailing` for what follows the text on its line. `opening` stands before
-- the parenthesis.
pub data Flattening : Type 0 where
  outside : Flattening
  opening : FormatToken → Flattening
  entries : (declaration : FormatToken) → (first : Bool) → (leading : List FormatToken) → Flattening
  naming trailing :
      (declaration : FormatToken) → (first : Bool) → (leading body : List FormatToken) → Flattening

abbrev pub change_head : (FormatToken → FormatToken) → List FormatToken → List FormatToken
change_head change [] = []
change_head change (t ∷ ts) = change t ∷ ts

-- The first token of an entry of its own: `imp`.
abbrev pub import_at : FormatToken → List FormatToken → FormatToken
import_at d [] = record d { break_before = true; blank_before = false }
import_at d (t ∷ ts) = record d {
  start = t.start;
  end = t.start;
  break_before = true;
  blank_before = false;
}

abbrev pub blank_import :
    FormatToken → Bool → (leading : List FormatToken) → FormatToken → FormatToken
blank_import d true [] imp = record imp { blank_before = d.blank_before }
blank_import d _ _ imp = imp

abbrev pub lead_entry : FormatToken → Bool → List FormatToken → List FormatToken
lead_entry d first leading =
    change_head
      (λ t. record t {
        break_before = true;
        blank_before = if first then d.blank_before else t.blank_before;
      })
      leading

-- One entry, as a declaration of its own.
unfoldable pub entry_tokens :
    FormatToken → (first : Bool) → (leading body : List FormatToken) → List FormatToken
entry_tokens d first leading body =
    lead_entry d first leading
    ++ (blank_import d first leading (import_at d body)
        ∷ change_head (λ t. record t { break_before = false; blank_before = false }) body)

-- What is added to the result, and the next state.
pub record Move : Type 0 where
  pub emitted : List FormatToken
  pub next : Flattening

abbrev pub moves : List FormatToken → Flattening → Move
moves emitted next = record { emitted = emitted; next = next }

abbrev pub entry_step : FormatToken → Bool → List FormatToken → FormatToken → Move
entry_step d first leading t =
    if is_kind t.kind rparen
    then moves leading outside
    else if is_kind t.kind comment
    then moves [] (entries d first (leading ++ (t ∷ [])))
    else if is_kind t.kind string
    then moves [] (trailing d first leading (t ∷ []))
    else moves [] (naming d first leading (t ∷ []))

abbrev pub name_step : FormatToken → Bool → (leading body : List FormatToken) → FormatToken → Move
name_step d first leading body t =
    if is_kind t.kind rparen
    then moves (leading ++ body) outside
    else if is_kind t.kind string
    then moves [] (trailing d first leading (body ++ (t ∷ [])))
    else moves [] (naming d first leading (body ++ (t ∷ [])))

abbrev pub trail_step : FormatToken → Bool → (leading body : List FormatToken) → FormatToken → Move
trail_step d first leading body t =
    if is_kind t.kind comment && not t.break_before
    then moves [] (trailing d first leading (body ++ (t ∷ [])))
    else if is_kind t.kind semicolon
    then moves (entry_tokens d first leading (body ++ (t ∷ []))) (entries d false [])
    else let after = entry_step d false [] t in
      moves (entry_tokens d first leading body ++ after.emitted) after.next

abbrev pub is_group : FormatKind → List FormatToken → Bool
is_group k [] = false
is_group k (t ∷ ts) = is_kind k import && is_kind t.kind lparen

-- One token, with those after it.
unfoldable pub flatten_step : Flattening → FormatToken → List FormatToken → Move
unfolding entry_tokens
flatten_step outside t later =
    if is_group t.kind later then moves [] (opening t) else moves (t ∷ []) outside
flatten_step (opening d) t later = moves [] (entries d true [])
flatten_step (entries d first leading) t later = entry_step d first leading t
flatten_step (naming d first leading body) t later = name_step d first leading body t
flatten_step (trailing d first leading body) t later = trail_step d first leading body t

-- What is added at the end of the tokens.
unfoldable pub flatten_end : Flattening → List FormatToken
unfolding entry_tokens
flatten_end outside = []
flatten_end (opening d) = []
flatten_end (entries d first leading) = leading
flatten_end (naming d first leading body) = leading ++ body
flatten_end (trailing d first leading body) = entry_tokens d first leading body

unfoldable pub flatten_from : Flattening → List FormatToken → List FormatToken
unfolding flatten_step flatten_end
flatten_from f [] = flatten_end f
flatten_from f (t ∷ ts) = let m = flatten_step f t ts in m.emitted ++ flatten_from m.next ts

unfoldable pub flatten_imports : List FormatToken → List FormatToken
unfolding flatten_from
flatten_imports ts = flatten_from outside ts
