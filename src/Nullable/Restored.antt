-- ===== src/Nullable/Restored.antt =====
-- Proofs about `normalizeNullable` of internal/compiler/nullable_parse.go.
use ghi.Prelude.{
  ℕ, zero, suc, ◌≤◌, ◌<◌, ◌≡◌, ◌⊎◌, inl, inr, refl, ◌∙◌, ap, Bool, true, false, ◌&&◌, not, Option,
  none, some, List, [], ◌∷◌, if◌then◌else◌, Bool-cases, Option-cases, arith, get_elem?, All,
  &&-true, str_eq, ◌==◌, ==_iff,
}
use ghi.Format.Kinds.{illegal, ident, is_kind, FormatToken}
use ghi.Ternary.Tokens.{grammar_tokens, groups_of, find_ternaries}
use ghi.Ternary.Loop.{has_question}
use ghi.Nullable.Stars.{
  NullableError, Normalized, refused, normalized, set, ternary_offsets, has_offset, not_before_type,
  is_prefix, is_fit, or_zero, finish, star_types, Scanned, normalize_nullable,
}

-- The bytes at the offsets become stars, one after another; and question marks again.
unfoldable pub stars : List ℕ → List ℕ → List ℕ
unfolding set
stars [] xs = xs
stars (o ∷ os) xs = stars os (set xs o b'*')

unfoldable pub unstar : List ℕ → List ℕ → List ℕ
unfolding set
unstar [] xs = xs
unstar (o ∷ os) xs = set (unstar os xs) o b'?'

-- A name begins right after the offset.
abbrev pub IsNamed : List FormatToken → ℕ → Type 0
IsNamed [] o = ⊥
IsNamed (t ∷ ts) o = ((is_kind t.kind ident ≡ true) × (t.start ≡ suc o)) ⊎ IsNamed ts o

-- The bytes at the offsets are question marks.
abbrev Marked : List ℕ → List ℕ → Type 0
Marked [] xs = Unit
Marked (o ∷ os) xs = (get_elem? xs o ≡ some b'?') × Marked os (set xs o b'*')

set_back : (xs : List ℕ) (o v w : ℕ) → get_elem? xs o ≡ some w → set (set xs o v) o w ≡ xs
unfolding set
set_back [] o v w h = refl
set_back (x ∷ xs) zero v w h = ground arith
set_back (x ∷ xs) (suc o) v w h = ap (λ r. x ∷ r) (set_back xs o v w h)

get-set : (xs : List ℕ) (o k v : ℕ) → o < k → get_elem? (set xs o v) k ≡ get_elem? xs k
unfolding set
get-set [] o k v less = refl
get-set (x ∷ xs) zero zero v less = absurd (omega arith)
get-set (x ∷ xs) zero (suc k) v less = refl
get-set (x ∷ xs) (suc o) zero v less = absurd (omega arith)
get-set (x ∷ xs) (suc o) (suc k) v less = get-set xs o k v (omega arith)

unstar-stars : (os xs : List ℕ) → Marked os xs → unstar os (stars os xs) ≡ xs
unfolding unstar stars
unstar-stars [] xs h = refl
unstar-stars (o ∷ os) xs h =
    ap (λ r. set r o b'?') (unstar-stars os (set xs o b'*') h.1) ∙ set_back xs o b'*' b'?' h.0

-- The tokens stand one after another, from `previous` on, and a question mark is its byte.
abbrev pub IsScanned : List ℕ → ℕ → List FormatToken → Type 0
IsScanned source previous [] = Unit
IsScanned source previous (t ∷ ts) =
    (previous ≤ t.start)
    × (t.start < t.end)
    × ((is_kind t.kind illegal && str_eq t.text "?") ≡ true → get_elem? source t.start ≡ some b'?')
    × IsScanned source t.end ts

-- The result with its stars at `os`, of which every one is before a name.
abbrev pub Starred : List FormatToken → List ℕ → List ℕ → List ℕ → Type 0
Starred ts os before after = (after ≡ stars os before) × Marked os before × All (IsNamed ts) os

abbrev Awaited : Option ℕ → List FormatToken → Type 0
Awaited none ts = Unit
Awaited (some p) ts = IsNamed ts p

All-later :
    (t : FormatToken) (ts : List FormatToken) (os : List ℕ)
    → All (IsNamed ts) os
    → All (IsNamed (t ∷ ts)) os
All-later t ts [] h = tt
All-later t ts (o ∷ os) h = (inr h.0, All-later t ts os h.1)

fit-Awaited :
    (pending : Option ℕ) (t : FormatToken) (ts : List FormatToken)
    → is_fit pending t ≡ true
    → Awaited pending (t ∷ ts)
fit-Awaited none t ts h = tt
fit-Awaited (some p) t ts h =
    let (name, next) = &&-true (is_kind t.kind ident) (t.start == suc p) h in
    inl (name, (==_iff t.start (suc p)).0 next)

if-normalized :
    (b : Bool) (r : Normalized) (e : NullableError) (result : List ℕ)
    → (if b then r else refused e) ≡ normalized result
    → (b ≡ true) × (r ≡ normalized result)
if-normalized true r e result h = (refl, h)
if-normalized false r e result h = absurd (cc)

end-same :
    (wrong : Bool) (output result : List ℕ)
    → finish wrong none output ≡ normalized result
    → result ≡ output
end-same true output result h = absurd (cc)
end-same false output result h = cc

is_prefix-question :
    (ternaries : List ℕ) (t : FormatToken)
    → is_prefix ternaries t ≡ true
    → (is_kind t.kind illegal && str_eq t.text "?") ≡ true
is_prefix-question ternaries t h =
    (&&-true (is_kind t.kind illegal && str_eq t.text "?") (not (has_offset ternaries t.start)) h).0

module _ (ternaries source : List ℕ) (wrong : Bool) where
  star_types-Starred :
      (ts : List FormatToken) (pending : Option ℕ) (output : List ℕ) (previous : ℕ)
      (result : List ℕ)
      → IsScanned source previous ts
      → ((k : ℕ) → previous ≤ k → get_elem? output k ≡ get_elem? source k)
      → star_types ternaries wrong pending output ts ≡ normalized result
      → ((os : List ℕ) × Starred ts os output result) × Awaited pending ts
  unfolding star_types stars
  star_types-Starred [] none output previous result scanned agrees done =
      (([], (end-same wrong output result done, tt, tt)), tt)
  star_types-Starred [] (some p) output previous result scanned agrees done = absurd (cc)
  star_types-Starred (t ∷ ts) pending output previous result (later, proper, spelled, rest) agrees
        done =
      let starred = is_prefix ternaries t in
      let (fit, went) =
        if-normalized (is_fit pending t) _ (not_before_type (or_zero pending)) result done in
      (
        elim (Bool-cases starred) [
          | inl star ↦
              let ((os, (same, marked, named)), next) =
                star_types-Starred ts (some t.start) (set output t.start b'*') t.end result rest
                  (λ k less.
                    get-set output t.start k b'*' (omega (arith, less, proper))
                    ∙ agrees k (omega (arith, less, proper, later)))
                  (rw star at went) in
              (
                t.start ∷ os,
                (
                  same,
                  (agrees t.start later ∙ spelled (is_prefix-question ternaries t star), marked),
                  (inr next, All-later t ts os named),
                ),
              )
          | inr plain ↦
              let ((os, (same, marked, named)), next) =
                star_types-Starred ts none output t.end result rest
                  (λ k less. agrees k (omega (arith, less, proper, later))) (rw plain at went) in
              (os, (same, marked, All-later t ts os named))
        ],
        fit-Awaited pending t ts fit,
      )

module _ (scan : List ℕ → Option (List FormatToken)) (scan_code : List ℕ → Scanned) where
  -- The result for a source: the source with stars for some question marks, each right before a
  -- name.
  abbrev pub IsRestored : List ℕ → List ℕ → Type 0
  IsRestored source result =
      (os : List ℕ) × (result ≡ stars os source)
      × (unstar os result ≡ source)
      × All (IsNamed (scan_code source).tokens) os

  -- Where the scanner's tokens stand one after another and a question mark is its byte: the result
  -- of `normalizeNullable` is the source with a star in the place of some question marks, each
  -- right before a name; and with question marks again in these places it is the source.
  pub normalize_nullable-IsRestored :
      (source result : List ℕ)
      → IsScanned source 0 (scan_code source).tokens
      → normalize_nullable scan scan_code source ≡ normalized result
      → IsRestored source result
  unfolding normalize_nullable stars unstar
  normalize_nullable-IsRestored source result scanned done =
      elim (Bool-cases (has_question source)) [
        | inl asked ↦ elim (Option-cases (scan source)) [
          | inl failed ↦ absurd (cc (rw (asked, failed) at done))
          | inr (all, tokens) ↦
              let ts = grammar_tokens all in
              let code = scan_code source in
              let ((os, (same, marked, named)), _) =
                star_types-Starred (ternary_offsets ts (find_ternaries (groups_of ts) 0 ts)) source
                  code.wrong code.tokens none source 0 result scanned (λ k less. refl)
                  (rw (asked, tokens) at done) in
              (os, same, ap (unstar os) same ∙ unstar-stars os source marked, named)
        ]
        | inr calm ↦ (
          [],
          plain_result source result (rw calm at done),
          plain_result source result (rw calm at done),
          tt,
        )
      ]
    where
      plain_result : (a b : List ℕ) → normalized a ≡ normalized b → b ≡ a
      plain_result a b h = cc
