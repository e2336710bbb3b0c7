-- ===== src/Arrow/Lines.antt =====
-- Proofs about `normalizeArrows` of internal/compiler/arrow_parse.go: the lines of the source.
use ghi.Prelude.{
  ℕ, zero, suc, ◌+◌, ◌-◌, ◌≤◌, ◌≡◌, ◌≢◌, refl, sym, ◌∙◌, ap, Bool, true, false, ◌&&◌, Option, some,
  List, [], ◌∷◌, ◌++◌, if◌then◌else◌, Bool-cases, &&-true, arith, take, drop, All, ◌==◌, ◌||◌,
  subst, leb, ◌⊎◌, inl, inr, none,
}
use ghi.Format.Kinds.{FormatToken, gtr, assign, is_kind}
use ghi.Ternary.Tokens.{is_fat_arrow}
use ghi.Ternary.Bounds.{bytes_of, slice}
use ghi.Ternary.Loop.{Normalizing}
use ghi.Arrow.Spliced.{drop_next, drop-between}
use ghi.Arrow.Parse.{
  starts_block, Arrow, Arrows, found, refused, is_start, is_arrow, lowered_bytes, find_arrows,
  with_signature, find_signature, lowered, lower_arrows, lower_found, lower_scanned,
  normalize_arrows,
}

abbrev one_at : ℕ → ℕ
one_at b = if b == 10 then 1 else 0

-- How many newlines a text has.
abbrev pub breaks : List ℕ → ℕ
breaks [] = 0
breaks (b ∷ bs) = one_at b + breaks bs

breaks-append : (xs ys : List ℕ) → breaks (xs ++ ys) ≡ breaks xs + breaks ys
breaks-append [] ys = omega arith
breaks-append (x ∷ xs) ys = omega (arith, breaks-append xs ys)

-- The bytes `=>` stand at an offset.
abbrev IsSpelledAt : List ℕ → ℕ → Type 0
IsSpelledAt source i = (rest : List ℕ) × (drop i source ≡ 61 ∷ 62 ∷ rest)

breaks-step :
    (b : ℕ) (bs out : List ℕ) (start hit : Bool)
    → (hit ≡ true → (one_at b ≡ 0) × (breaks out ≡ breaks bs))
    → (hit ≡ false → breaks out ≡ breaks bs)
    → breaks
        ((if start then bytes_of "func" else []) ++ (if hit then bytes_of "  " ++ out else b ∷ out))
      ≡ one_at b + breaks bs
breaks-step b bs out true true jumps same = omega (arith, jumps refl)
breaks-step b bs out true false jumps same = omega (arith, same refl)
breaks-step b bs out false true jumps same = omega (arith, jumps refl)
breaks-step b bs out false false jumps same = omega (arith, same refl)

module _ (arrows : List Arrow) (source : List ℕ) where
  -- The arrows stand where the source has them.
  abbrev pub Spelled : Type 0
  Spelled = (i : ℕ) → is_arrow arrows i ≡ true → IsSpelledAt source i

  breaks-lowered :
      (bs : List ℕ) (i : ℕ)
      → Spelled
      → drop i source ≡ bs
      → (breaks (lowered_bytes arrows i false bs) ≡ breaks bs)
        × ((rest : List ℕ) → bs ≡ 62 ∷ rest → breaks (lowered_bytes arrows i true bs) ≡ breaks bs)
  unfolding lowered_bytes
  breaks-lowered [] i spelled here = (refl, λ rest h. refl)
  breaks-lowered (b ∷ bs) i spelled here =
      let (ih, after) = breaks-lowered bs (suc i) spelled (drop_next i b source bs here) in
      (
        breaks-step b bs (lowered_bytes arrows (suc i) (is_arrow arrows i) bs) (is_start arrows i)
            (is_arrow arrows i)
            (λ hit.
              let (rest, there) = spelled i hit in
              let whole : b ∷ bs ≡ 61 ∷ 62 ∷ rest = sym here ∙ there in
              let first : b ≡ 61 = cc in
              let second : bs ≡ 62 ∷ rest = cc in (ap one_at first, rw hit (after rest second)))
            (λ plain. rw plain ih),
        λ rest h. let first : b ≡ 62 = cc in omega (arith, ih, ap one_at first),
      )

take_none : (m b : ℕ) → take m [] ≢ b ∷ []
take_none zero b h = absurd (cc)
take_none (suc m) b h = absurd (cc)

take_two :
    (k m a b : ℕ) (xs : List ℕ)
    → take k xs ≡ a ∷ []
    → take m (drop k xs) ≡ b ∷ []
    → xs ≡ a ∷ b ∷ drop 2 xs
take_two k m a b [] h g = absurd (take_none k a h)
take_two zero m a b (x ∷ xs) h g = absurd (cc)
take_two (suc zero) m a b (x ∷ []) h g = absurd (take_none m b g)
take_two (suc (suc k)) m a b (x ∷ []) h g = absurd (take_none m b g)
take_two (suc zero) zero a b (x ∷ y ∷ ys) h g = absurd (cc)
take_two (suc zero) (suc m) a b (x ∷ y ∷ ys) h g =
    let first : x ≡ a = cc in let second : y ≡ b = cc in cc
take_two (suc (suc k)) m a b (x ∷ y ∷ ys) h g = absurd (cc)

-- The tokens `=` and `>` are these bytes.
abbrev pub IsWritten : List ℕ → FormatToken → Type 0
IsWritten source t =
    (is_kind t.kind assign ≡ true → slice t.start t.end source ≡ 61 ∷ [])
    × (is_kind t.kind gtr ≡ true → slice t.start t.end source ≡ 62 ∷ [])

slice_some : (from to b : ℕ) (xs : List ℕ) → slice from to xs ≡ b ∷ [] → from ≤ to
slice_some from to b xs h = elim (Bool-cases (leb from to)) [
  | inl fits ↦ ground arith
  | inr past ↦
      let none_ : to - from ≡ 0 = ground arith in
      absurd (list_case b (sym (ap (λ k. take k (drop from xs)) none_) ∙ h))
]
  where
    list_case : (b : ℕ) → [] ≢ b ∷ []
    list_case b h = absurd (cc)

is_fat_arrow-IsSpelledAt :
    (source : List ℕ) (t : FormatToken) (ts : List FormatToken)
    → All (IsWritten source) (t ∷ ts)
    → is_fat_arrow t ts ≡ true
    → IsSpelledAt source t.start
is_fat_arrow-IsSpelledAt source t [] written fat = absurd (cc)
is_fat_arrow-IsSpelledAt source t (u ∷ us) written fat =
    let (kinds, close) =
      &&-true (is_kind t.kind assign && is_kind u.kind gtr) (t.end == u.start) fat in
    let (first, second) = &&-true (is_kind t.kind assign) (is_kind u.kind gtr) kinds in
    let meet : u.start ≡ t.end = ground arith in
    let order = slice_some t.start t.end 61 source (written.0.0 first) in
    (
      drop 2 (drop t.start source),
      take_two (t.end - t.start) (u.end - u.start) 61 62 (drop t.start source) (written.0.0 first) (
          ap (take (u.end - u.start))
            (drop-between t.start t.end source order ∙ ap (λ k. drop k source) (sym meet))
          ∙ written.1.0.1 second),
    )

one_of : (b c : Bool) → (b || c) ≡ true → (b ≡ true) ⊎ (c ≡ true)
one_of true c h = inl refl
one_of false c h = inr h

with_signature-Spelled :
    (source : List ℕ) (i place : ℕ) (start : Option ℕ) (rest : Arrows) (arrows : List Arrow)
    → IsSpelledAt source place
    → ((later : List Arrow) → rest ≡ found later → Spelled later source)
    → with_signature i place start rest ≡ found arrows
    → Spelled arrows source
with_signature-Spelled source i place none rest arrows there ih done = absurd (cc)
with_signature-Spelled source i place (some s) (refused e) arrows there ih done = absurd (cc)
with_signature-Spelled source i place (some s) (found later) arrows there ih done =
    subst (λ as_. Spelled as_ source) same
      (λ j hit. elim (one_of (place == j) (is_arrow later j) hit) [
        | inl here ↦ let at_j : place ≡ j = ground arith in subst (IsSpelledAt source) at_j there
        | inr further ↦ ih later refl j further
      ])
  where
    same : record { start = s; arrow = place } ∷ later ≡ arrows
    same = cc

module _ (parse : List ℕ → Option (List ℕ)) (source : List ℕ) where
  find_arrows-Spelled :
      (whole : List FormatToken) (i : ℕ) (ts : List FormatToken) (arrows : List Arrow)
      → All (IsWritten source) ts
      → find_arrows parse source whole i ts ≡ found arrows
      → Spelled arrows source
  unfolding find_arrows
  find_arrows-Spelled whole i [] arrows written done =
      let same : [] ≡ arrows = cc in subst (λ as_. Spelled as_ source) same (λ j hit. absurd (cc))
  find_arrows-Spelled whole i (t ∷ ts) arrows written done =
      let ih =
        λ (later : List Arrow) (same : find_arrows parse source whole (suc i) ts ≡ found later).
          find_arrows-Spelled whole (suc i) ts later written.1 same in
      elim (Bool-cases (is_fat_arrow t ts)) [
        | inl fat ↦ elim (Bool-cases (starts_block ts)) [
          | inl block ↦
              with_signature-Spelled source i t.start (find_signature parse source whole i i 0 none)
                (find_arrows parse source whole (suc i) ts) arrows
                (is_fat_arrow-IsSpelledAt source t ts written fat) ih (rw (fat, block) at done)
          | inr bare ↦ absurd (cc (rw (fat, bare) at done))
        ]
        | inr other ↦ ih arrows (rw other at done)
      ]

breaks-lower_arrows :
    (arrows : List Arrow) (n : Normalizing)
    → Spelled arrows n.source
    → breaks (lower_arrows arrows n).source ≡ breaks n.source
unfolding lower_arrows
breaks-lower_arrows [] n spelled = refl
breaks-lower_arrows (a ∷ arrows) n spelled =
    (breaks-lowered (a ∷ arrows) n.source n.source 0 spelled refl).0

module _ (scan : List ℕ → Option (List FormatToken)) (parse : List ℕ → Option (List ℕ)) where
  lower_found-breaks :
      (n n' : Normalizing) (arrows : Arrows)
      → ((as_ : List Arrow) → arrows ≡ found as_ → Spelled as_ n.source)
      → lower_found n arrows ≡ lowered n'
      → breaks n'.source ≡ breaks n.source
  lower_found-breaks n n' (refused e) spelled done = absurd (cc)
  lower_found-breaks n n' (found as_) spelled done =
      let same : lower_arrows as_ n ≡ n' = cc in
      ap (λ m. breaks m.source) (sym same) ∙ breaks-lower_arrows as_ n (spelled as_ refl)

  -- Where each token `=` or `>` that the scanner gives is this byte of the source, a source whose
  -- arrow functions are lowered keeps its number of newlines.
  pub normalize_arrows-breaks :
      (n n' : Normalizing) (ts : List FormatToken)
      → scan n.source ≡ some ts
      → All (IsWritten n.source) ts
      → normalize_arrows scan parse n ≡ lowered n'
      → breaks n'.source ≡ breaks n.source
  unfolding normalize_arrows
  normalize_arrows-breaks n n' ts scanned written done =
      lower_found-breaks n n' (find_arrows parse n.source ts 0 ts)
        (λ as_ same. find_arrows-Spelled parse n.source ts 0 ts as_ written same)
        (ap (lower_scanned scan parse n) (sym scanned) ∙ done)
