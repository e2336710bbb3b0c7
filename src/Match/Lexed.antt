-- ===== src/Match/Lexed.antt =====
-- Proofs about `normalizeMatches` of internal/compiler/match_parse.go: the tokens that `lexSource`
-- gives, up to the end of a match.
use ghi.Prelude.{
  ℕ, zero, suc, ◌+◌, ◌-◌, ◌≤◌, ◌<◌, ◌≡◌, ◌⊎◌, inl, inr, refl, ◌∙◌, ap, subst, Bool, true, false,
  ◌&&◌, ◌||◌, Option, none, some, List, [], ◌∷◌, if◌then◌else◌, arith, length, take, drop, All,
  &&-true, ◌==◌,
}
use ghi.Format.Kinds.{FormatKind, semicolon, eof, rbrace, is_kind, FormatToken}
use ghi.Format.Printer.{kind_at}
use ghi.Ternary.Bounds.{start_at, end_at}
use ghi.Ternary.Edited.{within_source, in_turn}
use ghi.Match.Arms.{find_match}
use ghi.Match.Round.{body_tokens}
use ghi.Match.Sorted.{IsTight}
use ghi.Match.Placed.{IsTight-InOrder, body_tokens-IsTight}

abbrev ends_file : FormatKind → Bool
ends_file k = is_kind k semicolon || is_kind k eof

-- The tokens stand one after another, from `previous` on and within a source of `n` bytes, and none
-- is empty; but for those that end the file, the semicolon that the scanner inserts at the end of
-- the source and EOF, which both begin where the source ends.
abbrev pub IsLexed : (n previous : ℕ) → List FormatToken → Type 0
IsLexed n previous [] = previous ≤ n
IsLexed n previous (t ∷ ts) =
    ((previous ≤ t.start) × (t.start < t.end) × IsLexed n t.end ts)
    ⊎ ((previous ≤ n)
        × All (λ (u : FormatToken). (u.start ≡ n) × (ends_file u.kind ≡ true)) (t ∷ ts))

IsLexed-bound : (n p : ℕ) (ts : List FormatToken) → IsLexed n p ts → p ≤ n
IsLexed-bound n p [] h = h
IsLexed-bound n p (t ∷ ts) (inl (later, full, h)) =
    omega (arith, later, full, IsLexed-bound n t.end ts h)
IsLexed-bound n p (t ∷ ts) (inr (h, _)) = h

All-kind_at :
    (n : ℕ) (ts : List FormatToken) (k : ℕ)
    → All (λ (u : FormatToken). (u.start ≡ n) × (ends_file u.kind ≡ true)) ts
    → k < length ts
    → ends_file (kind_at ts k) ≡ true
All-kind_at n [] k h less = absurd (omega arith)
All-kind_at n (t ∷ ts) zero h less = h.0.1
All-kind_at n (t ∷ ts) (suc k) h less = All-kind_at n ts k h.1 (omega arith)

not_brace : (k : FormatKind) → ends_file k ≡ true → is_kind k rbrace ≡ true → ⊥
not_brace k h brace = absurd (ground arith)

-- Up to a brace, the tokens stand within the source and none is empty.
pub IsLexed-take :
    (n p : ℕ) (ts : List FormatToken) (k : ℕ)
    → IsLexed n p ts
    → k < length ts
    → is_kind (kind_at ts k) rbrace ≡ true
    → IsTight n p (take (suc k) ts)
IsLexed-take n p [] k h less brace = absurd (omega arith)
IsLexed-take n p (t ∷ ts) k (inr (h, ends)) less brace =
    absurd (not_brace (kind_at (t ∷ ts) k) (All-kind_at n (t ∷ ts) k ends less) brace)
IsLexed-take n p (t ∷ ts) zero (inl (later, full, h)) less brace =
    (later, full, IsLexed-bound n t.end ts h)
IsLexed-take n p (t ∷ ts) (suc k) (inl (later, full, h)) less brace =
    (later, full, IsLexed-take n t.end ts k h (omega arith) brace)

length-take : (k : ℕ) (ts : List FormatToken) → k ≤ length ts → length (take k ts) ≡ k
length-take zero ts h = refl
length-take (suc k) [] h = absurd (omega arith)
length-take (suc k) (t ∷ ts) h = omega (arith, length-take k ts (omega arith))

start_at-take :
    (k : ℕ) (ts : List FormatToken) (i : ℕ) → i < k → start_at (take k ts) i ≡ start_at ts i
start_at-take zero ts i h = absurd (omega arith)
start_at-take (suc k) [] i h = refl
start_at-take (suc k) (t ∷ ts) zero h = refl
start_at-take (suc k) (t ∷ ts) (suc i) h = start_at-take k ts i (omega arith)

end_at-take : (k : ℕ) (ts : List FormatToken) (i : ℕ) → i < k → end_at (take k ts) i ≡ end_at ts i
end_at-take zero ts i h = absurd (omega arith)
end_at-take (suc k) [] i h = refl
end_at-take (suc k) (t ∷ ts) zero h = refl
end_at-take (suc k) (t ∷ ts) (suc i) h = end_at-take k ts i (omega arith)

take-take : (m k : ℕ) (ts : List FormatToken) → m ≤ k → take m (take k ts) ≡ take m ts
take-take zero k ts h = refl
take-take (suc m) zero ts h = absurd (omega arith)
take-take (suc m) (suc k) [] h = refl
take-take (suc m) (suc k) (t ∷ ts) h = ap (λ r. t ∷ r) (take-take m k ts (omega arith))

take-drop-take :
    (m d k : ℕ) (ts : List FormatToken)
    → d + m ≤ k
    → take m (drop d (take k ts)) ≡ take m (drop d ts)
take-drop-take m zero k ts h = take-take m k ts (omega arith)
take-drop-take m (suc d) zero ts h = absurd (omega arith)
take-drop-take m (suc d) (suc k) [] h = refl
take-drop-take m (suc d) (suc k) (t ∷ ts) h = take-drop-take m d k ts (omega arith)

module _ (n : ℕ) (ts : List FormatToken) (close : ℕ) (long : close < length ts)
    (tight : IsTight n 0 (take (suc close) ts)) where
  pub within_match : (i : ℕ) → i ≤ close → (start_at ts i ≤ end_at ts i) × (end_at ts i ≤ n)
  within_match i h =
      let size = length-take (suc close) ts (omega arith) in
      let (_, proper, fits) =
        within_source n 0 (take (suc close) ts) i (IsTight-InOrder n 0 (take (suc close) ts) tight)
          (omega (arith, size, h)) in
      let first = start_at-take (suc close) ts i (omega (arith, h)) in
      let last = end_at-take (suc close) ts i (omega (arith, h)) in
      (omega (arith, proper, first, last), omega (arith, fits, last))

  pub in_turn_match : (i j : ℕ) → i < j → j ≤ close → end_at ts i ≤ start_at ts j
  in_turn_match i j h less =
      let size = length-take (suc close) ts (omega arith) in
      let turn =
        in_turn n 0 (take (suc close) ts) i j (IsTight-InOrder n 0 (take (suc close) ts) tight) h
          (omega (arith, size, less)) in
      omega (
        arith,
        turn,
        end_at-take (suc close) ts i (omega (arith, h, less)),
        start_at-take (suc close) ts j (omega (arith, less)),
      )

  pub body_tokens_within :
      (first : ℕ)
      → first < close
      → IsTight (start_at ts close) (end_at ts first) (body_tokens ts first close)
  body_tokens_within first less =
      let size = length-take (suc close) ts (omega arith) in
      let inner =
        body_tokens-IsTight n (take (suc close) ts) first close tight less (omega (arith, size)) in
      subst (λ body. IsTight (start_at ts close) (end_at ts first) body)
        (take-drop-take (close - suc first) (suc first) (suc close) ts (omega (arith, less)))
        (subst (λ k. IsTight k (end_at ts first) (body_tokens (take (suc close) ts) first close))
          (start_at-take (suc close) ts close (omega arith))
          (subst
            (λ k.
              IsTight (start_at (take (suc close) ts) close) k
                (body_tokens (take (suc close) ts) first close))
            (end_at-take (suc close) ts first (omega (arith, less))) inner))

-- The delimiter that is found is of the kind that closes.
abbrev pub IsKind : List FormatToken → FormatKind → Option ℕ → Type 0
IsKind ts c none = Unit
IsKind ts c (some k) = is_kind (kind_at ts k) c ≡ true

IsKind-if :
    (b : Bool) (ts : List FormatToken) (c : FormatKind) (x y : Option ℕ)
    → (b ≡ true → IsKind ts c x)
    → IsKind ts c y
    → IsKind ts c (if b then x else y)
IsKind-if true ts c x y f h = f refl
IsKind-if false ts c x y f h = h

find_match-IsKind_from :
    (whole : List FormatToken) (o c : FormatKind) (depth j : ℕ) (ts : List FormatToken)
    → ((m : ℕ) → kind_at whole (j + m) ≡ kind_at ts m)
    → IsKind whole c (find_match o c depth j ts)
unfolding find_match
find_match-IsKind_from whole o c depth j [] same = tt
find_match-IsKind_from whole o c depth j (t ∷ ts) same =
    let deeper = if is_kind t.kind o then suc depth else depth in
    let depth' = if is_kind t.kind c then deeper - 1 else deeper in
    IsKind-if (is_kind t.kind c && (deeper == 1)) whole c (some j) _
      (λ h.
        let here : kind_at whole j ≡ t.kind =
          ap (kind_at whole) (let e : j ≡ j + 0 = omega arith in e) ∙ same 0 in
        ap (λ k. is_kind k c) here ∙ (&&-true (is_kind t.kind c) (deeper == 1) h).0)
      (find_match-IsKind_from whole o c depth' (suc j) ts
        (λ m. ap (kind_at whole) (let e : suc j + m ≡ j + suc m = omega arith in e) ∙ same (suc m)))

kind_at-drop : (j m : ℕ) (ts : List FormatToken) → kind_at ts (j + m) ≡ kind_at (drop j ts) m
kind_at-drop zero m ts = ap (kind_at ts) (let e : 0 + m ≡ m = omega arith in e)
kind_at-drop (suc j) m [] = refl
kind_at-drop (suc j) m (t ∷ ts) =
    ap (kind_at (t ∷ ts)) (let e : suc j + m ≡ suc (j + m) = omega arith in e) ∙ kind_at-drop j m ts

pub find_match-IsKind :
    (o c : FormatKind) (depth j : ℕ) (ts : List FormatToken)
    → IsKind ts c (find_match o c depth j (drop j ts))
find_match-IsKind o c depth j ts =
    find_match-IsKind_from ts o c depth j (drop j ts) (λ m. kind_at-drop j m ts)
