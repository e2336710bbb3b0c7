-- ===== src/Tokens/Balance.antt =====
-- Balanced lists of delimiters, and the stack of brackets that recognizes them.
use ghi.Prelude.{
  ◌≡◌, refl, sym, ◌∙◌, ap, subst, Bool, true, false, List, [], ◌∷◌, ◌++◌, Bool-cases, inl, inr,
  if◌then◌else◌,
}
use ghi.Tokens.Pairs.{Bracket, round, square, curly, Kind, opening, closing, other, bracket_eq}

-- Every opening delimiter is closed by its own kind, properly nested.
pub data Balanced : List Kind → Type 0 where
  empty : Balanced []
  skip : {ks : List Kind} → Balanced ks → Balanced (other ∷ ks)
  nest :
      {inner after : List Kind} (b : Bracket)
      → Balanced inner
      → Balanced after
      → Balanced (opening b ∷ (inner ++ (closing b ∷ after)))

abbrev pub closes : List Bracket → Bool
closes [] = true
closes (b ∷ s) = false

-- Whether the kinds close the brackets of the stack.
unfoldable pub accepts : List Bracket → List Kind → Bool
accepts s [] = closes s
accepts s (opening b ∷ ks) = accepts (b ∷ s) ks
accepts [] (closing b ∷ ks) = false
accepts (c ∷ s) (closing b ∷ ks) = let rest = accepts s ks in if bracket_eq c b then rest else false
accepts s (other ∷ ks) = accepts s ks

bracket_eq_sound : (a b : Bracket) → bracket_eq a b ≡ true → a ≡ b
bracket_eq_sound round round h = refl
bracket_eq_sound square square h = refl
bracket_eq_sound curly curly h = refl
bracket_eq_sound _ _ h = cc

bracket_eq_refl : (a : Bracket) → bracket_eq a a ≡ true
bracket_eq_refl round = refl
bracket_eq_refl square = refl
bracket_eq_refl curly = refl

append_assoc : (xs ys zs : List Kind) → (xs ++ ys) ++ zs ≡ xs ++ (ys ++ zs)
append_assoc [] ys zs = refl
append_assoc (x ∷ xs) ys zs = ap (λ r. x ∷ r) (append_assoc xs ys zs)

-- A balanced list, the closing delimiter of the top, and so on down the stack.
abbrev Closing : List Bracket → List Kind → Type 0
Closing [] ks = Balanced ks
Closing (b ∷ s) ks =
    (inner after : List Kind) × (ks ≡ inner ++ (closing b ∷ after))
    × Balanced inner
    × Closing s after

Closing-skip : (s : List Bracket) (ks : List Kind) → Closing s ks → Closing s (other ∷ ks)
Closing-skip [] ks h = skip h
Closing-skip (b ∷ s) ks (inner, after, split, h, rest) =
    (other ∷ inner, after, ap (λ r. other ∷ r) split, skip h, rest)

Closing-nest :
    (s : List Bracket) (b : Bracket) (inner after : List Kind)
    → Balanced inner
    → Closing s after
    → Closing s (opening b ∷ (inner ++ (closing b ∷ after)))
Closing-nest [] b inner after h k = nest b h k
Closing-nest (c ∷ s) b inner after h (more, rest, split, k, deeper) = (
  opening b ∷ (inner ++ (closing b ∷ more)),
  rest,
  ap (λ r. opening b ∷ (inner ++ (closing b ∷ r))) split
      ∙ ap (λ r. opening b ∷ r) (sym (append_assoc inner (closing b ∷ more) (closing c ∷ rest))),
  nest b h k,
  deeper,
)

accepts-Closing : (s : List Bracket) (ks : List Kind) → accepts s ks ≡ true → Closing s ks
unfolding accepts
accepts-Closing [] [] h = empty
accepts-Closing (b ∷ s) [] h = absurd (cc)
accepts-Closing s (opening b ∷ ks) h =
    let (inner, after, split, k, rest) = accepts-Closing (b ∷ s) ks h in
    subst (λ r. Closing s (opening b ∷ r)) (sym split) (Closing-nest s b inner after k rest)
accepts-Closing [] (closing b ∷ ks) h = absurd (cc)
accepts-Closing (c ∷ s) (closing b ∷ ks) h = elim (Bool-cases (bracket_eq c b)) [
  | inl same ↦ (
    [],
    ks,
    ap (λ d. closing d ∷ ks) (sym (bracket_eq_sound c b same)),
    empty,
    accepts-Closing s ks (rw same at h),
  )
  | inr different ↦ absurd (cc (rw different at h))
]
accepts-Closing s (other ∷ ks) h = Closing-skip s ks (accepts-Closing s ks h)

Balanced-accepts :
    {ks : List Kind}
    → Balanced ks
    → (s : List Bracket) (rest : List Kind) → accepts s (ks ++ rest) ≡ accepts s rest
unfolding accepts
Balanced-accepts empty s rest = refl
Balanced-accepts (skip h) s rest = Balanced-accepts h s rest
Balanced-accepts (nest {inner} {after} b h k) s rest =
    ap (accepts (b ∷ s)) (append_assoc inner (closing b ∷ after) rest)
    ∙ Balanced-accepts h (b ∷ s) (closing b ∷ (after ++ rest))
    ∙ rw (bracket_eq_refl b) (Balanced-accepts k s rest)

append_nil : (ks : List Kind) → ks ++ [] ≡ ks
append_nil [] = refl
append_nil (k ∷ ks) = ap (λ r. k ∷ r) (append_nil ks)

pub accepts-Balanced : (ks : List Kind) → accepts [] ks ≡ true → Balanced ks
accepts-Balanced ks h = accepts-Closing [] ks h

pub Balanced-accepts_all : (ks : List Kind) → Balanced ks → accepts [] ks ≡ true
unfolding accepts
Balanced-accepts_all ks h = ap (accepts []) (sym (append_nil ks)) ∙ Balanced-accepts h [] []
