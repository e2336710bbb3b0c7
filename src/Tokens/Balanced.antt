-- ===== src/Tokens/Balanced.antt =====
-- Proofs about the pairing of delimiters in internal/compiler/analyze.go.
use ghi.Prelude.{
  ℕ, ◌≡◌, Bool, true, false, Option, none, some, List, [], ◌∷◌, get_elem?, ◌≤◌, ◌<◌, ◌&&◌, leb,
}
use ghi.Tokens.Pairs.{Bracket, Kind, opening, Item, SyntaxToken, Analysis, complete, Place, start}

abbrev pub kinds : List Item → List Kind
kinds [] = []
kinds (item ∷ items) = item.kind ∷ kinds items

abbrev pub is_complete : Analysis → Bool
is_complete (complete tokens) = true
is_complete _ = false

abbrev kind_of : Option SyntaxToken → Option Kind
kind_of none = none
kind_of (some t) = some t.kind

-- The tokens on the stack are the opening delimiters of these brackets.
abbrev Holds : List SyntaxToken → List ℕ → List Bracket → Type 0
Holds ts [] [] = Unit
Holds ts (i ∷ is) (b ∷ s) = (kind_of (get_elem? ts i) ≡ some (opening b)) × Holds ts is s
Holds ts _ _ = ⊥

-- The inner loop reaches an offset within the source, or the source ends before.
abbrev Reaches : (size target : ℕ) → Option Place → Type 0
Reaches size target none = size < target
Reaches size target (some p) = (p.offset ≡ target) × (target ≤ size)

-- No token begins past the end of the source.
abbrev pub are_within : (size : ℕ) → List Item → Bool
are_within size [] = true
are_within size (item ∷ items) = leb item.start size && are_within size items
