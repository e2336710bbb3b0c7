-- ===== src/Nullable/Stars.antt =====
-- internal/compiler/nullable_parse.go: `normalizeNullable`. The scanner is a parameter, for the two
-- ways in which it is called: the tokens with the comments, unless there is an error, and the
-- tokens without them, with whether there was an error. A question mark is an illegal token.
use ghi.Prelude.{
  ℕ, zero, suc, Bool, true, false, ◌&&◌, ◌||◌, not, Option, none, some, List, [], ◌∷◌,
  if◌then◌else◌, ◌==◌, str_eq,
}
use ghi.Format.Kinds.{illegal, ident, is_kind, FormatToken}
use ghi.Ternary.Tokens.{grammar_tokens, groups_of, Ternary, find_ternaries}
use ghi.Ternary.Bounds.{start_at}
use ghi.Ternary.Loop.{has_question}

pub data NullableError : Type 0 where
  not_scanned invalid_token : NullableError
  not_before_type : ℕ → NullableError

pub data Normalized : Type 0 where
  refused : NullableError → Normalized
  normalized : List ℕ → Normalized

-- `output[i] = v`.
unfoldable pub set : List ℕ → ℕ → ℕ → List ℕ
set [] i v = []
set (x ∷ xs) zero v = v ∷ xs
set (x ∷ xs) (suc i) v = x ∷ set xs i v

-- `ternaryOffsets`.
abbrev pub ternary_offsets : List FormatToken → List Ternary → List ℕ
ternary_offsets ts [] = []
ternary_offsets ts (t ∷ rest) = start_at ts t.question ∷ ternary_offsets ts rest

abbrev pub has_offset : List ℕ → ℕ → Bool
has_offset [] i = false
has_offset (k ∷ ks) i = (k == i) || has_offset ks i

-- The token ends a pending question mark well.
abbrev pub names_type : ℕ → FormatToken → Bool
names_type p t = is_kind t.kind ident && (t.start == suc p)

abbrev pub is_prefix : List ℕ → FormatToken → Bool
is_prefix ternaries t =
    is_kind t.kind illegal && str_eq t.text "?" && not (has_offset ternaries t.start)

-- The token is a name right after the pending question mark, if there is one.
abbrev pub is_fit : Option ℕ → FormatToken → Bool
is_fit none t = true
is_fit (some p) t = names_type p t

abbrev pub or_zero : Option ℕ → ℕ
or_zero none = 0
or_zero (some p) = p

abbrev pub finish : Bool → Option ℕ → List ℕ → Normalized
finish wrong none output = if wrong then refused invalid_token else normalized output
finish wrong (some p) output = refused (not_before_type p)

-- The loop over the tokens, up to the end of the file; `wrong` is whether the scanner had an error.
unfoldable pub star_types :
    (ternaries : List ℕ)
    → (wrong : Bool) → (pending : Option ℕ) → (output : List ℕ) → List FormatToken
    → Normalized
unfolding set
star_types ternaries wrong pending output [] = finish wrong pending output
star_types ternaries wrong pending output (t ∷ ts) =
    let starred = is_prefix ternaries t in
    let rest =
      star_types ternaries wrong (if starred then some t.start else none)
        (if starred then set output t.start b'*' else output) ts in
    if is_fit pending t then rest else refused (not_before_type (or_zero pending))

pub record Scanned : Type 0 where
  pub tokens : List FormatToken
  pub wrong : Bool

module _ (scan : List ℕ → Option (List FormatToken)) (scan_code : List ℕ → Scanned) where
  abbrev pub star_scanned : List ℕ → Option (List FormatToken) → Normalized
  star_scanned source none = refused not_scanned
  star_scanned source (some all) =
      let ts = grammar_tokens all in
      let code = scan_code source in
      star_types (ternary_offsets ts (find_ternaries (groups_of ts) 0 ts)) code.wrong none source
        code.tokens

  unfoldable pub normalize_nullable : List ℕ → Normalized
  unfolding star_types grammar_tokens find_ternaries
  normalize_nullable source =
      if has_question source then star_scanned source (scan source) else normalized source
