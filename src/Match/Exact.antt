-- ===== src/Match/Exact.antt =====
-- Proofs about `validateExhaustiveMatches` of internal/compiler/match_exhaustive.go.
use ghi.Prelude.{
  ℕ, String, ◌≡◌, refl, sym, ◌∙◌, ap, subst, inl, inr, ◌↔◌, Bool, true, false, ◌||◌, Option, List,
  [], ◌∷◌, ◌++◌, Bool-cases, Option-cases, contains, str_eq, eq_iff, IsDistinct, All, eq_refl,
  ||-false,
}
use ghi.Syntax.{Expr, Exprs, no_exprs, more_exprs}
use ghi.Match.Named.{IsNamed, candidate_sound, candidate_complete}
use ghi.Match.Exhaustive.{
  Object, EnumDecl, accepted, unparen, Scan, stopped, found, and_then, candidate, scan_one,
  scan_exprs, scan_arms, missing_cases, report_missing, verdict_of, validate_arms,
}

-- The candidates of all arms, in order.
abbrev pub exprs_of : Exprs → List Expr
exprs_of no_exprs = []
exprs_of (more_exprs x xs) = x ∷ exprs_of xs

abbrev pub candidates : List Exprs → List Expr
candidates [] = []
candidates (list ∷ lists) = exprs_of list ++ candidates lists

and_then_assoc :
    (s : Scan) (f g : List String → Scan)
    → and_then (and_then s f) g ≡ and_then s (λ seen. and_then (f seen) g)
and_then_assoc (stopped e) f g = refl
and_then_assoc (found seen) f g = refl

and_then-cong :
    (s : Scan) (f g : List String → Scan)
    → ((seen : List String) → f seen ≡ g seen)
    → and_then s f ≡ and_then s g
and_then-cong (stopped e) f g h = refl
and_then-cong (found seen) f g h = h seen

missing_cases-All :
    (cs seen : List String) → missing_cases cs seen ≡ [] → All (λ c. contains seen c ≡ true) cs
unfolding missing_cases
missing_cases-All [] seen h = tt
missing_cases-All (c ∷ cs) seen h = elim (Bool-cases (contains seen c)) [
  | inl there ↦ (there, missing_cases-All cs seen (rw there at h))
  | inr absent ↦ absurd (cc (rw absent at h))
]

All-missing_cases :
    (cs seen : List String) → All (λ c. contains seen c ≡ true) cs → missing_cases cs seen ≡ []
unfolding missing_cases
All-missing_cases [] seen h = refl
All-missing_cases (c ∷ cs) seen (there, h) = rw there (All-missing_cases cs seen h)

report_missing-accepted : (names : List String) → report_missing names ≡ accepted → names ≡ []
report_missing-accepted [] h = refl
report_missing-accepted (n ∷ names) h = cc

-- The two sets hold the same names, those of `ns` and those of `seen`.
abbrev Adds : (ns seen seen' : List String) → Type 0
Adds ns seen seen' = (c : String) → contains seen' c ≡ (contains ns c || contains seen c)

abbrev Apart : (ns seen : List String) → Type 0
Apart ns seen = (c : String) → contains ns c ≡ true → contains seen c ≡ false

Apart-fresh : (n : String) (ns seen : List String) → Apart ns (n ∷ seen) → contains ns n ≡ false
Apart-fresh n ns seen apart = elim (Bool-cases (contains ns n)) [
  | inl there ↦ absurd (cc (rw (eq_refl n) at (apart n there)))
  | inr absent ↦ absent
]

Apart-cons :
    (n : String) (ns seen : List String)
    → contains seen n ≡ false
    → Apart ns (n ∷ seen)
    → Apart (n ∷ ns) seen
Apart-cons n ns seen new apart c m = elim (Bool-cases (str_eq n c)) [
  | inl same ↦ subst (λ k. contains seen k ≡ false) ((eq_iff n c).0 same) new
  | inr other ↦ (||-false (str_eq n c) (contains seen c) (apart c (rw other at m))).1
]

Apart-tail :
    (n : String) (ns seen : List String)
    → contains ns n ≡ false
    → Apart (n ∷ ns) seen
    → Apart ns (n ∷ seen)
Apart-tail n ns seen once apart c m = elim (Bool-cases (str_eq n c)) [
  | inl same ↦
      let there : contains ns n ≡ true =
        subst (λ k. contains ns k ≡ true) (sym ((eq_iff n c).0 same)) m in
      cc
  | inr other ↦ rw other (apart c (rw other m))
]

or_swap : (a b c : Bool) → (b || (a || c)) ≡ ((a || b) || c)
or_swap true true c = refl
or_swap true false c = refl
or_swap false b c = refl

Adds-cons :
    (n : String) (ns seen seen' : List String) → Adds ns (n ∷ seen) seen' → Adds (n ∷ ns) seen seen'
Adds-cons n ns seen seen' adds c = adds c ∙ or_swap (str_eq n c) (contains ns c) (contains seen c)

All-renamed :
    (a b cs : List String)
    → ((c : String) → contains a c ≡ contains b c)
    → All (λ c. contains a c ≡ true) cs
    → All (λ c. contains b c ≡ true) cs
All-renamed a b [] same h = tt
All-renamed a b (c ∷ cs) same (there, h) = (sym (same c) ∙ there, All-renamed a b cs same h)

or_false : (a : Bool) → (a || false) ≡ a
or_false true = refl
or_false false = refl

verdict_of-accepted :
    (e : EnumDecl) (s : Scan)
    → verdict_of e s ≡ accepted
    → (seen : List String) × (s ≡ found seen) × (missing_cases e.cases seen ≡ [])
unfolding verdict_of
verdict_of-accepted e (stopped error) h = absurd (cc)
verdict_of-accepted e (found seen) h =
    (seen, refl, report_missing-accepted (missing_cases e.cases seen) h)

module _ (itoa : ℕ → String) (object_of : Expr → Option Object) (e : EnumDecl) where
  -- The candidates name these cases.
  abbrev pub Names : List Expr → List String → Type 0
  Names [] [] = Unit
  Names (x ∷ xs) (n ∷ ns) = IsNamed itoa object_of e x n × Names xs ns
  Names _ _ = ⊥

  -- Every candidate names a case, no case is named twice, and every case of the enum is named.
  abbrev pub IsExhaustive : List Exprs → Type 0
  IsExhaustive lists =
      (ns : List String) × Names (candidates lists) ns
      × IsDistinct ns
      × All (λ c. contains ns c ≡ true) e.cases

  abbrev scan_list : List Expr → List String → Scan
  scan_list [] seen = found seen
  scan_list (x ∷ xs) seen =
      and_then (scan_one (candidate itoa object_of e (unparen x)) seen)
        (λ seen'. scan_list xs seen')

  scan_list-append :
      (xs ys : List Expr) (seen : List String)
      → scan_list (xs ++ ys) seen ≡ and_then (scan_list xs seen) (λ seen'. scan_list ys seen')
  scan_list-append [] ys seen = refl
  scan_list-append (x ∷ xs) ys seen =
      and_then-cong (scan_one (candidate itoa object_of e (unparen x)) seen) _ _
        (λ seen'. scan_list-append xs ys seen')
      ∙ sym (
          and_then_assoc (scan_one (candidate itoa object_of e (unparen x)) seen)
            (λ seen'. scan_list xs seen') (λ seen'. scan_list ys seen'))

  scan_exprs-list :
      (list : Exprs) (seen : List String)
      → scan_exprs itoa object_of e list seen ≡ scan_list (exprs_of list) seen
  unfolding scan_exprs
  scan_exprs-list no_exprs seen = refl
  scan_exprs-list (more_exprs x xs) seen =
      and_then-cong (scan_one (candidate itoa object_of e (unparen x)) seen)
        (λ seen'. scan_exprs itoa object_of e xs seen') (λ seen'. scan_list (exprs_of xs) seen')
        (λ seen'. scan_exprs-list xs seen')

  scan_arms-list :
      (lists : List Exprs) (seen : List String)
      → scan_arms itoa object_of e lists seen ≡ scan_list (candidates lists) seen
  unfolding scan_arms
  scan_arms-list [] seen = refl
  scan_arms-list (list ∷ lists) seen =
      ap (λ s. and_then s (λ seen'. scan_arms itoa object_of e lists seen'))
        (scan_exprs-list list seen)
      ∙ and_then-cong (scan_list (exprs_of list) seen)
          (λ seen'. scan_arms itoa object_of e lists seen')
          (λ seen'. scan_list (candidates lists) seen') (λ seen'. scan_arms-list lists seen')
      ∙ sym (scan_list-append (exprs_of list) (candidates lists) seen)

  scan_list_sound :
      (xs : List Expr) (seen seen' : List String)
      → scan_list xs seen ≡ found seen'
      → (ns : List String) × Names xs ns × IsDistinct ns × Apart ns seen × Adds ns seen seen'
  scan_list_sound [] seen seen' h =
      let same : seen ≡ seen' = cc in
      ([], tt, tt, λ c m. absurd (cc), λ c. ap (λ s. contains s c) (sym same))
  scan_list_sound (x ∷ xs) seen seen' h =
      elim (Option-cases (candidate itoa object_of e (unparen x))) [
        | inl bad ↦ absurd (cc (rw bad at h))
        | inr (n, good) ↦ elim (Bool-cases (contains seen n)) [
          | inl twice ↦ absurd (cc (rw (good, twice) at h))
          | inr new ↦
              let (ns, names, distinct, apart, adds) =
                scan_list_sound xs (n ∷ seen) seen' (rw (good, new) at h) in
              (
                n ∷ ns,
                (candidate_sound itoa object_of e x n good, names),
                (Apart-fresh n ns seen apart, distinct),
                Apart-cons n ns seen new apart,
                Adds-cons n ns seen seen' adds,
              )
        ]
      ]

  scan_list_complete :
      (xs : List Expr) (ns seen : List String)
      → Names xs ns
      → IsDistinct ns
      → Apart ns seen
      → (seen' : List String) × (scan_list xs seen ≡ found seen') × Adds ns seen seen'
  scan_list_complete [] [] seen names distinct apart = (seen, refl, λ c. refl)
  scan_list_complete (x ∷ xs) (n ∷ ns) seen (named, names) (once, distinct) apart =
      let good = candidate_complete itoa object_of e x n named in
      let new : contains seen n ≡ false = apart n (rw (eq_refl n) refl) in
      let (seen', scanned, adds) =
        scan_list_complete xs ns (n ∷ seen) names distinct (Apart-tail n ns seen once apart) in
      (seen', rw (good, new) scanned, Adds-cons n ns seen seen' adds)
  scan_list_complete _ _ seen names distinct apart = absurd names

  -- A match without default on a plain enum is accepted exactly if every candidate calls, by its
  -- symbol, the function of a case in the package of the enum, no case is named twice, and every
  -- case is named.
  pub validate_arms-IsExhaustive :
      (lists : List Exprs) → (validate_arms itoa object_of e lists ≡ accepted) ↔ IsExhaustive lists
  unfolding validate_arms verdict_of
  validate_arms-IsExhaustive lists = (
    λ h.
        let (seen, scanned, covered) =
          verdict_of-accepted e (scan_arms itoa object_of e lists []) h in
        let (ns, names, distinct, apart, adds) =
          scan_list_sound (candidates lists) [] seen (sym (scan_arms-list lists []) ∙ scanned) in
        (
          ns,
          names,
          distinct,
          All-renamed seen ns e.cases (λ c. adds c ∙ or_false (contains ns c))
              (missing_cases-All e.cases seen covered),
        ),
    λ (ns, names, distinct, covered).
        let (seen, scanned, adds) =
          scan_list_complete (candidates lists) ns [] names distinct (λ c m. refl) in
        ap (verdict_of e) (scan_arms-list lists [] ∙ scanned)
        ∙ ap report_missing (
            All-missing_cases e.cases seen
              (All-renamed ns seen e.cases (λ c. sym (adds c ∙ or_false (contains ns c))) covered)),
  )
