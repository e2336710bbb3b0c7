-- ===== src/Ternary/Ordered.antt =====
-- Proofs about `normalizeTernaries` of internal/compiler/ternary_parse.go: where the operands stand.
use ghi.Prelude.{
  ℕ, zero, suc, ◌+◌, ◌≤◌, ◌<◌, ◌≡◌, ◌≢◌, ap, subst, Bool, true, false, ◌||◌, Option, none, some,
  List, [], ◌∷◌, ◌++◌, if◌then◌else◌, arith, ltb, leb, ◌==◌, length, drop, str_eq,
}
use ghi.Format.Kinds.{FormatToken, is_kind, colon}
use ghi.Ternary.Tokens.{
  group_end, group_start, skip_past, is_some, is_fat_arrow, ends_value, find_colon, Ternary,
  ternary_at, find_ternaries, in_header,
}
use ghi.Ternary.Bounds.{
  end_at, bounds_condition, lower, find_start, find_end, begins_body, after_value, Operands,
  bounded, check_operands, find_operands, bound_ternary,
}

find_start-le :
    (ts : List FormatToken) (groups : List (ℕ × ℕ)) (i low : ℕ) → find_start ts groups i low ≤ i
unfolding find_start
find_start-le ts groups zero low = omega arith
find_start-le ts groups (suc i) low =
    let passed = leb low i in
    let group = group_start groups i in
    let rest = find_start-le ts groups i (if passed then low else lower group low) in
    le-if (passed || is_some group) _ _ (suc i) (omega (arith, rest))
      (le-if (bounds_condition ts i) (suc i) _ (suc i) (omega arith) (omega (arith, rest)))
  where
    le-if : (c : Bool) (x y n : ℕ) → x ≤ n → y ≤ n → (if c then x else y) ≤ n
    le-if true x y n h k = h
    le-if false x y n h k = k

-- A value between two bounds.
abbrev Between : ℕ → ℕ → ℕ → Type 0
Between low n high = (low ≤ n) × (n ≤ high)

Between-if :
    (c : Bool) (low x y high : ℕ)
    → Between low x high
    → Between low y high
    → Between low (if c then x else y) high
Between-if true low x y high h k = h
Between-if false low x y high h k = k

find_end-Between :
    (complete : List ℕ → Bool) (source : List ℕ) (groups : List (ℕ × ℕ)) (header : Bool)
    (value j skip : ℕ) (ts : List FormatToken)
    → Between j (find_end complete source groups header value j skip ts) (j + length ts)
unfolding find_end
find_end-Between complete source groups header value j skip [] = (omega arith, omega arith)
find_end-Between complete source groups header value j skip (t ∷ ts) =
    let passed = ltb j skip in
    let group = group_end groups j in
    let skip' = if passed then skip else skip_past group skip in
    let ih = find_end-Between complete source groups header value (suc j) skip' ts in
    let rest : Between j (find_end complete source groups header value (suc j) skip' ts)
        (j + length (t ∷ ts)) =
      (omega (arith, ih.0), omega (arith, ih.1)) in
    let here : Between j j (j + length (t ∷ ts)) = (omega arith, omega arith) in
    Between-if passed j _ _ _ rest (
      Between-if (begins_body complete source header value t) j _ _ _ here (
        Between-if (is_some group) j _ _ _ rest
          (Between-if (after_value t.kind) j _ _ _ here rest)))

abbrev Found : ℕ → ℕ → Option ℕ → Type 0
Found low high none = Unit
Found low high (some j) = (low ≤ j) × (j < high)

Found-if :
    (c : Bool) (low high : ℕ) (x y : Option ℕ)
    → Found low high x
    → Found low high y
    → Found low high (if c then x else y)
Found-if true low high x y h k = h
Found-if false low high x y h k = k

Found-widen :
    (low low' high high' : ℕ) (o : Option ℕ)
    → low' ≤ low
    → high ≤ high'
    → Found low high o
    → Found low' high' o
Found-widen low low' high high' none a b h = tt
Found-widen low low' high high' (some j) a b h = (omega (arith, a, h.0), omega (arith, b, h.1))

find_colon-Found :
    (groups : List (ℕ × ℕ)) (j skip : ℕ) (ts : List FormatToken)
    → Found j (j + length ts) (find_colon groups j skip ts)
unfolding find_colon
find_colon-Found groups j skip [] = tt
find_colon-Found groups j skip (t ∷ ts) =
    let passed = ltb j skip in
    let group = group_end groups j in
    let skip' = if passed then skip else skip_past group skip in
    let high = j + length (t ∷ ts) in
    let rest =
      Found-widen (suc j) j (suc j + length ts) high (find_colon groups (suc j) skip' ts)
        (omega arith) (omega arith) (find_colon-Found groups (suc j) skip' ts) in
    Found-if (passed || is_some group || is_fat_arrow t ts) j high _ _ rest (
      Found-if (is_kind t.kind colon) j high (some j) _ (omega arith, omega arith)
        (Found-if (ends_value t.kind) j high none _ tt rest))

abbrev pub IsPlaced : ℕ → ℕ → Ternary → Type 0
IsPlaced low high t = (low ≤ t.question) × (t.question < t.colon) × (t.colon < high)

abbrev pub AllPlaced : ℕ → ℕ → List Ternary → Type 0
AllPlaced low high [] = Unit
AllPlaced low high (t ∷ ts) = IsPlaced low high t × AllPlaced low high ts

AllPlaced-append :
    (low high : ℕ) (xs ys : List Ternary)
    → AllPlaced low high xs
    → AllPlaced low high ys
    → AllPlaced low high (xs ++ ys)
AllPlaced-append low high [] ys h k = k
AllPlaced-append low high (x ∷ xs) ys h k = (h.0, AllPlaced-append low high xs ys h.1 k)

AllPlaced-widen :
    (low low' high high' : ℕ) (xs : List Ternary)
    → low' ≤ low
    → high ≤ high'
    → AllPlaced low high xs
    → AllPlaced low' high' xs
AllPlaced-widen low low' high high' [] a b h = tt
AllPlaced-widen low low' high high' (x ∷ xs) a b h = (
  (omega (arith, a, h.0), h.0.1, omega (arith, b, h.0)),
  AllPlaced-widen low low' high high' xs a b h.1,
)

AllPlaced-at :
    (i high : ℕ) (o : Option ℕ) → Found (suc i) high o → AllPlaced i high (ternary_at i o)
AllPlaced-at i high none h = tt
AllPlaced-at i high (some j) h = ((omega arith, omega (arith, h), h.1), tt)

AllPlaced-if :
    (c : Bool) (low high : ℕ) (xs : List Ternary)
    → AllPlaced low high xs
    → AllPlaced low high (if c then xs else [])
AllPlaced-if true low high xs h = h
AllPlaced-if false low high xs h = tt

pub find_ternaries-AllPlaced :
    (groups : List (ℕ × ℕ)) (i : ℕ) (ts : List FormatToken)
    → AllPlaced i (i + length ts) (find_ternaries groups i ts)
unfolding find_ternaries
find_ternaries-AllPlaced groups i [] = tt
find_ternaries-AllPlaced groups i (t ∷ ts) =
    let high = i + length (t ∷ ts) in
    AllPlaced-append i high _ _
      (AllPlaced-if (str_eq t.text "?") i high _ (
        AllPlaced-at i high (find_colon groups (suc i) 0 ts) (
          Found-widen (suc i) (suc i) (suc i + length ts) high _ (omega arith) (omega arith)
            (find_colon-Found groups (suc i) 0 ts))))
      (AllPlaced-widen (suc i) i (suc i + length ts) high _ (omega arith) (omega arith)
        (find_ternaries-AllPlaced groups (suc i) ts))

-- The operands of a ternary: a condition, and two values of at least one token each.
abbrev pub IsBounded : ℕ → Operands → Type 0
IsBounded n o =
    (o.start < o.question) × (suc o.question < o.colon) × (suc o.colon < o.end) × (o.end ≤ n)

length-drop : (n : ℕ) (ts : List FormatToken) → n ≤ length ts → n + length (drop n ts) ≡ length ts
length-drop zero ts h = omega arith
length-drop (suc n) [] h = absurd (omega arith)
length-drop (suc n) (t ∷ ts) h = omega (arith, length-drop n ts (omega arith))

abbrev is_short : Operands → Bool
is_short o = (o.start == o.question) || (o.colon == suc o.question) || (o.end == suc o.colon)

long_enough :
    (o : Operands)
    → is_short o ≡ false
    → (o.start ≢ o.question) × (o.colon ≢ suc o.question) × (o.end ≢ suc o.colon)
long_enough o h = ground arith

check_operands-bounded :
    (ts : List FormatToken) (groups : List (ℕ × ℕ)) (pairs : List Ternary) (o o' : Operands)
    (complete : List ℕ → Bool) (source : List ℕ)
    → check_operands complete source ts groups pairs o ≡ bounded o'
    → (is_short o ≡ false) × (o ≡ o')
unfolding check_operands
check_operands-bounded ts groups pairs o o' complete source h = ground arith

module _ (complete : List ℕ → Bool) (source : List ℕ) where
  pub bound_ternary-IsBounded :
      (ts : List FormatToken) (groups : List (ℕ × ℕ)) (pairs : List Ternary) (t : Ternary)
      (o : Operands)
      → IsPlaced 0 (length ts) t
      → bound_ternary complete source ts groups pairs t ≡ bounded o
      → IsBounded (length ts) o
  unfolding bound_ternary find_operands
  bound_ternary-IsBounded ts groups pairs t o placed h =
      let first = find_start ts groups t.question t.question in
      let header = in_header ts groups first first first in
      let found = find_operands complete source ts groups t in
      let (long, same) = check_operands-bounded ts groups pairs found o complete source h in
      let least = find_start-le ts groups t.question t.question in
      let most =
        find_end-Between complete source groups header (end_at ts t.colon) (suc t.colon) 0
          (drop (suc t.colon) ts) in
      let size = length-drop (suc t.colon) ts (omega (arith, placed)) in
      let apart = long_enough found long in
      let inside : IsBounded (length ts) found = (
        omega (arith, least, apart),
        omega (arith, placed, apart),
        omega (arith, most, apart),
        omega (arith, most, size),
      ) in
      subst (IsBounded (length ts)) same inside

  pub bound_ternary-question :
      (ts : List FormatToken) (groups : List (ℕ × ℕ)) (pairs : List Ternary) (t : Ternary)
      (o : Operands)
      → bound_ternary complete source ts groups pairs t ≡ bounded o
      → t.question ≡ o.question
  unfolding bound_ternary find_operands
  bound_ternary-question ts groups pairs t o h =
      ap (λ x. x.question)
        (check_operands-bounded ts groups pairs (find_operands complete source ts groups t) o
          complete source h).1
