-- ===== src/Classes/Cycles.antt =====
-- internal/compiler/class_model.go: the search for an inheritance cycle in `prepareClasses`. Classes
-- are numbers, and `parent` gives the link that an earlier pass has set.
use ghi.Prelude.{
  ℕ, zero, suc, ◌+◌, ◌≤◌, ◌<◌, ◌≡◌, ◌≢◌, refl, sym, subst, ◌⊎◌, ==_iff, Bool, true, false, ◌||◌,
  Option, none, some, List, [], ◌∷◌, arith, ◌==◌, if◌then◌else◌, Bool-cases, inl, inr,
}

abbrev pub seen_before : List ℕ → ℕ → Bool
seen_before [] c = false
seen_before (a ∷ seen) c = (a == c) || seen_before seen c

pub data Search : Type 0 where
  no_fuel acyclic cycle : Search

module _ (parent : ℕ → Option ℕ) where
  -- The loop `for a := c; a != nil; a = a.Parent`, with the set `ancestors`.
  unfoldable pub walk : (fuel : ℕ) (ancestors : List ℕ) → Option ℕ → Search
  walk fuel ancestors none = acyclic
  walk zero ancestors (some a) = no_fuel
  walk (suc fuel) ancestors (some a) =
      let rest = walk fuel (a ∷ ancestors) (parent a) in
      if seen_before ancestors a then cycle else rest

  -- The links from a class end.
  pub data Ends : Option ℕ → Type 0 where
    at_root : Ends none
    above : {a : ℕ} → Ends (parent a) → Ends (some a)

  -- Following at least one link from the first class leads to the second.
  pub data Above : ℕ → ℕ → Type 0 where
    link : {a b : ℕ} → parent a ≡ some b → Above a b
    further : {a b c : ℕ} → Above a b → parent b ≡ some c → Above a c

  -- How many of the classes below `n` the search has not seen.
  abbrev pub room : (n : ℕ) → List ℕ → ℕ
  room zero ancestors = 0
  room (suc n) ancestors = (if seen_before ancestors n then 0 else 1) + room n ancestors

  room-shrinks : (n : ℕ) (ancestors : List ℕ) (a : ℕ) → room n (a ∷ ancestors) ≤ room n ancestors
  room-shrinks zero ancestors a = omega arith
  room-shrinks (suc n) ancestors a = ground (arith, room-shrinks n ancestors a)

  room-drops :
      (n : ℕ) (ancestors : List ℕ) (a : ℕ)
      → a < n
      → seen_before ancestors a ≡ false
      → suc (room n (a ∷ ancestors)) ≤ room n ancestors
  room-drops zero ancestors a small new = ground arith
  room-drops (suc n) ancestors a small new = elim (Bool-cases (a == n)) [
    | inl same ↦
        let equal : a ≡ n = ground arith in
        let new' : seen_before ancestors n ≡ false =
          subst (λ m. seen_before ancestors m ≡ false) equal new in
        rw (same, new') (omega (arith, room-shrinks n ancestors a))
    | inr other ↦
        let below : a < n = ground arith in ground (arith, room-drops n ancestors a below new)
  ]

  empty_room : (n : ℕ) → room n [] < suc n
  empty_room zero = omega arith
  empty_room (suc n) = omega (arith, empty_room n)

  abbrev pub Below : ℕ → Option ℕ → Type 0
  Below n none = Unit
  Below n (some a) = a < n

  walk-fuel :
      (n : ℕ)
      → ((a : ℕ) → Below n (parent a))
      → (fuel : ℕ) (ancestors : List ℕ) (o : Option ℕ) → Below n o
      → room n ancestors < fuel
      → walk fuel ancestors o ≢ no_fuel
  unfolding walk
  walk-fuel n links fuel ancestors none small enough out = cc
  walk-fuel n links zero ancestors (some a) small enough out = ground arith
  walk-fuel n links (suc fuel) ancestors (some a) small enough out =
      elim (Bool-cases (seen_before ancestors a)) [
        | inl seen ↦ cc (rw (seen, walk) at out)
        | inr new ↦
            walk-fuel n links fuel (a ∷ ancestors) (parent a) (links a)
              (omega (arith, room-drops n ancestors a small new, enough)) (rw (new, walk) at out)
      ]

  walk-acyclic :
      (fuel : ℕ) (ancestors : List ℕ) (o : Option ℕ) → walk fuel ancestors o ≡ acyclic → Ends o
  unfolding walk
  walk-acyclic fuel ancestors none h = at_root
  walk-acyclic zero ancestors (some a) h = absurd (cc)
  walk-acyclic (suc fuel) ancestors (some a) h = elim (Bool-cases (seen_before ancestors a)) [
    | inl seen ↦ absurd (cc (rw (seen, walk) at h))
    | inr new ↦ above (walk-acyclic fuel (a ∷ ancestors) (parent a) (rw (new, walk) at h))
  ]

  -- The first link of a path.
  Above-first : {a c : ℕ} → Above a c → (b : ℕ) × (parent a ≡ some b) × ((b ≡ c) ⊎ Above b c)
  Above-first (link {b = b} first) = (b, first, inl refl)
  Above-first (further {a} {b} {c} up next) =
      let (d, first, rest) = Above-first up in
      elim rest [
        | inl same ↦ (d, first, inr (link (subst (λ e. parent e ≡ some c) (sym same) next)))
        | inr up' ↦ (d, first, inr (further up' next))
      ]

  Ends-irreflexive : {o : Option ℕ} → Ends o → (a : ℕ) → o ≡ some a → ¬ Above a a
  Ends-irreflexive at_root a same loop = cc
  Ends-irreflexive (above {a = b} ends) a same loop =
      let (d, first, rest) = Above-first loop in
      let next : parent b ≡ some d = cc in
      elim rest [
        | inl again ↦ Ends-irreflexive ends d next (subst (λ e. Above e e) (sym again) loop)
        | inr up ↦ Ends-irreflexive ends d next (further up first)
      ]

  walk-cycle :
      (fuel : ℕ) (ancestors : List ℕ) (o : Option ℕ)
      → ((s a : ℕ) → seen_before ancestors s ≡ true → o ≡ some a → Above s a)
      → walk fuel ancestors o ≡ cycle
      → ¬ Ends o
  unfolding walk
  walk-cycle fuel ancestors none below h ends = cc
  walk-cycle zero ancestors (some a) below h ends = cc
  walk-cycle (suc fuel) ancestors (some a) below h (above ends) =
      elim (Bool-cases (seen_before ancestors a)) [
        | inl seen ↦ Ends-irreflexive (above ends) a refl (below a a seen refl)
        | inr new ↦
            walk-cycle fuel (a ∷ ancestors) (parent a)
              (λ s b seen up. elim (Bool-cases (a == s)) [
                | inl same ↦ link (subst (λ e. parent e ≡ some b) ((==_iff a s).0 same) up)
                | inr other ↦ further (below s a (rw other at seen) refl) up
              ])
              (rw (new, walk) at h) ends
      ]

  -- For classes below `n` whose parents are below `n`, the search needs at most one round more than
  -- there are classes; it succeeds exactly on a class whose chain of parents ends, and reports a
  -- cycle exactly on one whose chain does not.
  pub walk-exact :
      (n c : ℕ)
      → ((a : ℕ) → Below n (parent a))
      → c < n
      → ((walk (suc n) [] (some c) ≡ acyclic) × Ends (some c))
        ⊎ ((walk (suc n) [] (some c) ≡ cycle) × (¬ Ends (some c)))
  walk-exact n c links small = decide (walk (suc n) [] (some c)) refl
    where
      decide :
          (r : Search)
          → walk (suc n) [] (some c) ≡ r
          → ((walk (suc n) [] (some c) ≡ acyclic) × Ends (some c))
            ⊎ ((walk (suc n) [] (some c) ≡ cycle) × (¬ Ends (some c)))
      decide acyclic h = inl (h, walk-acyclic (suc n) [] (some c) h)
      decide cycle h = inr (h, walk-cycle (suc n) [] (some c) (λ s a seen. cc) h)
      decide no_fuel h = absurd (walk-fuel n links (suc n) [] (some c) small (empty_room n) h)
