-- ===== src/Match/Placed.antt =====
-- Proofs about `normalizeMatches` of internal/compiler/match_parse.go: where a match and its body
-- stand.
use ghi.Prelude.{
  ℕ, zero, suc, ◌+◌, ◌-◌, ◌≤◌, ◌<◌, ◌≡◌, refl, ◌∙◌, ap, subst, Bool, true, false, ◌&&◌, ◌||◌,
  Option, none, some, List, [], ◌∷◌, if◌then◌else◌, arith, ltb, ◌==◌, length, take, drop,
}
use ghi.Format.Kinds.{FormatKind, eof, semicolon, lbrace, rbrace, is_kind, FormatToken}
use ghi.Ternary.Bounds.{start_at, end_at}
use ghi.Ternary.Edited.{InOrder}
use ghi.Match.Arms.{find_match, skip_group}
use ghi.Match.Round.{
  last_match, or_found, Body, bodiless, opens_at, skip_to, find_body, body_tokens,
}
use ghi.Match.Sorted.{IsTight}

abbrev pub Lies : ℕ → ℕ → Option ℕ → Type 0
Lies low high none = Unit
Lies low high (some j) = (low ≤ j) × (j < high)

Lies-if :
    (c : Bool) (low high : ℕ) (x y : Option ℕ)
    → (c ≡ true → Lies low high x)
    → Lies low high y
    → Lies low high (if c then x else y)
Lies-if true low high x y f k = f refl
Lies-if false low high x y f k = k

Lies-widen :
    (low low' high high' : ℕ) (o : Option ℕ)
    → low' ≤ low
    → high ≤ high'
    → Lies low high o
    → Lies low' high' o
Lies-widen low low' high high' none a b h = tt
Lies-widen low low' high high' (some j) a b h = (omega (arith, a, h.0), omega (arith, b, h.1))

Lies-or_found :
    (low high : ℕ) (a b : Option ℕ)
    → Lies low high a
    → Lies low high b
    → Lies low high (or_found a b)
Lies-or_found low high none b h k = k
Lies-or_found low high (some i) b h k = h

pub last_match-Lies :
    (i : ℕ) (before : FormatKind) (ts : List FormatToken)
    → Lies i (i + length ts) (last_match i before ts)
unfolding last_match
last_match-Lies i before [] = tt
last_match-Lies i before (t ∷ ts) =
    let high = i + length (t ∷ ts) in
    Lies-or_found i high _ _
      (Lies-widen (suc i) i (suc i + length ts) high (last_match (suc i) t.kind ts) (omega arith)
        (omega arith) (last_match-Lies (suc i) t.kind ts))
      (Lies-if _ i high (some i) none (λ _. (omega arith, omega arith)) tt)

find_match-Lies :
    (o c : FormatKind) (depth j : ℕ) (ts : List FormatToken)
    → Lies j (j + length ts) (find_match o c depth j ts)
unfolding find_match
find_match-Lies o c depth j [] = tt
find_match-Lies o c depth j (t ∷ ts) =
    let deeper = if is_kind t.kind o then suc depth else depth in
    let depth' = if is_kind t.kind c then deeper - 1 else deeper in
    Lies-if (is_kind t.kind c && (deeper == 1)) j (j + length (t ∷ ts)) (some j) _
      (λ _. (omega arith, omega arith))
      (Lies-widen (suc j) j (suc j + length ts) (j + length (t ∷ ts)) _ (omega arith) (omega arith)
        (find_match-Lies o c depth' (suc j) ts))

-- The delimiter that closes stands after the one that opens.
no_brace :
    (k : FormatKind) → (is_kind k rbrace && ((if is_kind k lbrace then 1 else 0) == 1)) ≡ true → ⊥
no_brace lbrace h = cc
no_brace rbrace h = cc
no_brace _ h = cc

pub find_match_later :
    (j : ℕ) (ts : List FormatToken) → Lies (suc j) (j + length ts) (find_match lbrace rbrace 0 j ts)
unfolding find_match
find_match_later j [] = tt
find_match_later j (t ∷ ts) =
    let deeper : ℕ = if is_kind t.kind lbrace then 1 else 0 in
    let depth' : ℕ = if is_kind t.kind rbrace then deeper - 1 else deeper in
    Lies-if (is_kind t.kind rbrace && (deeper == 1)) (suc j) (j + length (t ∷ ts)) (some j) _
      (λ h. absurd (no_brace t.kind h))
      (Lies-widen (suc j) (suc j) (suc j + length ts) (j + length (t ∷ ts)) _ (omega arith)
        (omega arith) (find_match-Lies lbrace rbrace depth' (suc j) ts))

abbrev pub Opens : ℕ → ℕ → Body → Type 0
Opens low high (bodiless e) = Unit
Opens low high (opens_at j) = (low ≤ j) × (j < high)

Opens-if :
    (c : Bool) (low high : ℕ) (x y : Body)
    → Opens low high x
    → Opens low high y
    → Opens low high (if c then x else y)
Opens-if true low high x y h k = h
Opens-if false low high x y h k = k

Opens-skip_to :
    (low high : ℕ) (o : Option ℕ) (next : ℕ → Body)
    → ((k : ℕ) → Opens low high (next k))
    → Opens low high (skip_to o next)
Opens-skip_to low high none next f = tt
Opens-skip_to low high (some k) next f = f (suc k)

Opens-widen :
    (low low' high high' : ℕ) (b : Body)
    → low' ≤ low
    → high ≤ high'
    → Opens low high b
    → Opens low' high' b
Opens-widen low low' high high' (bodiless e) a b h = tt
Opens-widen low low' high high' (opens_at j) a b h = (omega (arith, a, h.0), omega (arith, b, h.1))

pub find_body-Opens :
    (ts : List FormatToken) (j skip : ℕ) (later : List FormatToken)
    → Opens j (j + length later) (find_body ts j skip later)
unfolding find_body
find_body-Opens ts j skip [] = tt
find_body-Opens ts j skip (t ∷ later) =
    let high = j + length (t ∷ later) in
    let rest = λ (k : ℕ).
      Opens-widen (suc j) j (suc j + length later) high (find_body ts (suc j) k later) (omega arith)
        (omega arith) (find_body-Opens ts (suc j) k later) in
    Opens-if (ltb j skip) j high _ _ (rest skip) (
      Opens-if (is_kind t.kind lbrace) j high _ _ (omega arith, omega arith)
        (Opens-if (is_kind t.kind eof || is_kind t.kind semicolon) j high _ _ tt
          (Opens-skip_to j high (skip_group j t.kind (drop j ts)) _ rest)))

pub length-drop :
    (n : ℕ) (ts : List FormatToken) → n ≤ length ts → n + length (drop n ts) ≡ length ts
length-drop zero ts h = omega arith
length-drop (suc n) [] h = absurd (omega arith)
length-drop (suc n) (t ∷ ts) h = omega (arith, length-drop n ts (omega arith))

IsTight-drop :
    (n q k : ℕ) (ts : List FormatToken)
    → IsTight n q ts
    → k < length ts
    → IsTight n (end_at ts k) (drop (suc k) ts)
IsTight-drop n q k [] h less = absurd (omega arith)
IsTight-drop n q zero (t ∷ ts) h less = h.2
IsTight-drop n q (suc k) (t ∷ ts) h less = IsTight-drop n t.end k ts h.2 (omega arith)

IsTight-take :
    (n q k : ℕ) (ts : List FormatToken)
    → IsTight n q ts
    → k < length ts
    → IsTight (start_at ts k) q (take k ts)
IsTight-take n q k [] h less = absurd (omega arith)
IsTight-take n q zero (t ∷ ts) h less = h.0
IsTight-take n q (suc k) (t ∷ ts) h less = (h.0, h.1, IsTight-take n t.end k ts h.2 (omega arith))

start_at-drop :
    (m k : ℕ) (ts : List FormatToken) → m < length ts → start_at (drop m ts) k ≡ start_at ts (m + k)
start_at-drop zero k ts less = ap (start_at ts) (let e : k ≡ 0 + k = omega arith in e)
start_at-drop (suc m) k [] less = absurd (omega arith)
start_at-drop (suc m) k (t ∷ ts) less =
    start_at-drop m k ts (omega arith)
    ∙ ap (start_at (t ∷ ts)) (let e : suc (m + k) ≡ suc m + k = omega arith in e)

pub IsTight-InOrder : (n q : ℕ) (ts : List FormatToken) → IsTight n q ts → InOrder n q ts
IsTight-InOrder n q [] h = h
IsTight-InOrder n q (t ∷ ts) h = (h.0, omega (arith, h.1), IsTight-InOrder n t.end ts h.2)

pub body_tokens-IsTight :
    (n : ℕ) (ts : List FormatToken) (first close : ℕ)
    → IsTight n 0 ts
    → first < close
    → close < length ts
    → IsTight (start_at ts close) (end_at ts first) (body_tokens ts first close)
body_tokens-IsTight n ts first close tight less long =
    let size = length-drop (suc first) ts (omega (arith, less, long)) in
    let reach : suc first + (close - suc first) ≡ close = omega (arith, less) in
    let inner =
      IsTight-take n (end_at ts first) (close - suc first) (drop (suc first) ts)
        (IsTight-drop n 0 first ts tight (omega (arith, less, long)))
        (omega (arith, size, less, long)) in
    subst (λ k. IsTight k (end_at ts first) (body_tokens ts first close))
      (start_at-drop (suc first) (close - suc first) ts (omega (arith, less, long))
        ∙ ap (start_at ts) reach)
      inner
