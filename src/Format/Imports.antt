-- ===== src/Format/Imports.antt =====
-- internal/compiler/format_structure.go: `formatImports`. The loop over the entries of a block is
-- one pass over the tokens; the sorted block stands in the result, and its tokens are passed over.
-- `strconv.Unquote` is a parameter, empty where it fails; `sort.SliceStable` is an insertion sort.
use Prim.Native.Nat.{Ordering}
use Prim.Native.String.{compare}
use ghi.Prelude.{
  ℕ, zero, suc, String, text_append, Bool, true, false, ◌&&◌, ◌||◌, not, List, [], ◌∷◌, ◌++◌,
  if◌then◌else◌, length, str_eq, drop, ◌-◌,
}
use mathlib.Core.List.{reverse}
use ghi.Format.Kinds.{comment, string, semicolon, import, is_kind, FormatToken}
use ghi.Format.Flatten.{is_group}

pub record Entry : Type 0 where
  pub tokens : List FormatToken
  pub key : String

-- `entries[i].key < entries[j].key`.
abbrev pub text_lt : String → String → Bool
text_lt a b = elim (compare a b) [ Ordering.lt ↦ true | _ ↦ false ]

unfoldable pub insert_entry : Entry → List Entry → List Entry
insert_entry e [] = e ∷ []
insert_entry e (x ∷ xs) =
    let rest = insert_entry e xs in if text_lt x.key e.key then x ∷ rest else e ∷ (x ∷ xs)

unfoldable pub sort_entries : List Entry → List Entry
unfolding insert_entry
sort_entries [] = []
sort_entries (e ∷ es) = insert_entry e (sort_entries es)

-- The key of an import without a text: the tokens of its name.
abbrev name_text : List FormatToken → String
name_text [] = ""
name_text (t ∷ ts) =
    let rest = name_text ts in
    if str_eq t.text "as" || is_kind t.kind comment || is_kind t.kind semicolon
    then ""
    else text_append t.text rest

unfoldable pub name_key : List FormatToken → String
name_key [] = ""
name_key (t ∷ ts) = let rest = name_key ts in if is_kind t.kind import then name_text ts else rest

unfoldable pub make_entry : (tokens : List FormatToken) → (key : String) → Entry
unfolding name_key
make_entry tokens key = record {
  tokens = tokens;
  key = if str_eq key "" then name_key tokens else key;
}

-- Between entries, with the comments that stand before the next one, or within one.
pub data Scanning : Type 0 where
  between : (begun : List FormatToken) → Scanning
  within : (tokens : List FormatToken) → (key : String) → Scanning
  stopped : Scanning

pub record Found : Type 0 where
  pub entries : List Entry
  pub next : Scanning

abbrev pub finds : List Entry → Scanning → Found
finds entries next = record { entries = entries; next = next }

-- A group in parentheses is no entry.
abbrev pub begin_step : (begun : List FormatToken) → FormatToken → List FormatToken → Found
begin_step begun t later =
    if is_kind t.kind comment
    then finds [] (between (begun ++ (t ∷ [])))
    else if is_kind t.kind import && not (is_group t.kind later)
    then finds [] (within (begun ++ (t ∷ [])) "")
    else finds [] stopped

module _ (unquote : String → String) where
  abbrev pub within_step :
      (tokens : List FormatToken) → (key : String) → FormatToken → List FormatToken → Found
  within_step tokens key t later =
      if is_kind t.kind semicolon
      then finds (make_entry (tokens ++ (t ∷ [])) key ∷ []) (between [])
      else if t.break_before
      then finds (make_entry tokens key ∷ []) (begin_step [] t later).next
      else finds []
          (within (tokens ++ (t ∷ [])) (if is_kind t.kind string then unquote t.text else key))

  unfoldable pub scan_step : Scanning → FormatToken → List FormatToken → Found
  unfolding make_entry
  scan_step (between begun) t later = begin_step begun t later
  scan_step (within tokens key) t later = within_step tokens key t later
  scan_step stopped t later = finds [] stopped

  unfoldable pub scan_end : Scanning → List Entry
  unfolding make_entry
  scan_end (within tokens key) = make_entry tokens key ∷ []
  scan_end _ = []

  -- The entries of a block, from its first token on.
  unfoldable pub scan_entries : Scanning → List FormatToken → List Entry
  unfolding scan_step scan_end
  scan_entries s [] = scan_end s
  scan_entries s (t ∷ ts) = let f = scan_step s t ts in f.entries ++ scan_entries f.next ts

abbrev pub tokens_of : List Entry → List FormatToken
tokens_of [] = []
tokens_of (e ∷ es) = e.tokens ++ tokens_of es

-- How many of the tokens before the import, the last one first, are comments that go with it;
-- `blank` is whether an empty line stands before the token after them.
unfoldable pub leading_count : (blank : Bool) → List FormatToken → ℕ
leading_count blank [] = 0
leading_count blank (t ∷ ts) =
    let rest = leading_count t.blank_before ts in
    if is_kind t.kind comment && t.break_before && not blank then suc rest else 0

-- The tokens before the index, the last one first, and how many after it are in them already.
pub record Block : Type 0 where
  pub before : List FormatToken
  pub skip : ℕ

abbrev pub keep_token : List FormatToken → FormatToken → Block
keep_token before t = record { before = t ∷ before; skip = 0 }

abbrev pub push_all : List FormatToken → List FormatToken → List FormatToken
push_all [] before = before
push_all (t ∷ ts) before = push_all ts (t ∷ before)

abbrev pub take_leading : ℕ → List FormatToken → List FormatToken → List FormatToken
take_leading zero before ts = ts
take_leading (suc n) [] ts = ts
take_leading (suc n) (t ∷ before) ts = take_leading n before (t ∷ ts)

-- The block of imports at `t`, of which `n` comments stand before the index already.
abbrev pub sort_block :
    (n : ℕ) → (entries : List Entry) → (before : List FormatToken) → FormatToken → Block
sort_block n [] before t = keep_token before t
sort_block n (e ∷ es) before t = record {
  before = push_all (tokens_of (sort_entries (e ∷ es))) (drop n before);
  skip = length (tokens_of (e ∷ es)) - n - 1;
}

module _ (unquote : String → String) where
  unfoldable pub import_step : List FormatToken → FormatToken → List FormatToken → Block
  unfolding leading_count scan_entries sort_entries
  import_step before t later =
      let n = leading_count t.blank_before before in
      if is_kind t.kind import
      then sort_block n (scan_entries unquote (between []) (take_leading n before (t ∷ later)))
          before t
      else keep_token before t

  unfoldable pub imports_from : Block → List FormatToken → List FormatToken
  unfolding import_step
  imports_from b [] = reverse b.before
  imports_from b (t ∷ ts) =
      let next : Block = elim b.skip [
        | zero ↦ import_step b.before t ts
        | suc n ↦ record b { skip = n }
      ] in
      imports_from next ts

  unfoldable pub format_imports : List FormatToken → List FormatToken
  unfolding imports_from
  format_imports ts = imports_from (record { before = []; skip = 0 }) ts
