-- ===== src/Format/Blocks.antt =====
-- Proofs about `formatImports` of internal/compiler/format_structure.go: the blocks of imports are
-- sorted in their places.
use ghi.Prelude.{
  ℕ, zero, suc, ◌+◌, ◌-◌, ◌≤◌, ◌<◌, String, ◌≡◌, refl, sym, ◌∙◌, ap, subst, ◌⊎◌, inl, inr, Bool,
  true, false, ◌&&◌, not, List, [], ◌∷◌, ◌++◌, if◌then◌else◌, Bool-cases, arith, length, drop, All,
  &&-true, length-append, All-append,
}
use mathlib.Core.List.{Perm, reverse_perm, perm_append_comm, perm_middle}
use mathlib.Core.List.Perm
use ghi.Format.Kinds.{FormatKind, comment, string, semicolon, import, is_kind, FormatToken}
use ghi.Format.Flatten.{is_group}
use ghi.Format.Imports.{
  Entry, sort_entries, make_entry, between, within, stopped, Found, finds, begin_step, scan_step,
  scan_end, scan_entries, tokens_of, leading_count, Block, keep_token, push_all, take_leading,
  sort_block, import_step, imports_from, format_imports,
}
use ghi.Format.Permuted.{
  append_assoc, append_nil, perm_of_eq, sort_entries-Perm, push_all-Perm, scan_entries_split,
  scan_entries-stopped,
}

abbrev IsComment : FormatToken → Type 0
IsComment t = is_kind t.kind comment ≡ true

comment-import : (k : FormatKind) → is_kind k import ≡ true → is_kind k comment ≡ false
comment-import import h = refl
comment-import _ h = cc

begin_step-comment :
    (begun : List FormatToken) (t : FormatToken) (later : List FormatToken)
    → IsComment t
    → begin_step begun t later ≡ finds [] (between (begun ++ (t ∷ [])))
begin_step-comment begun t later h = rw h refl

begin_step-group :
    (begun : List FormatToken) (t : FormatToken) (later : List FormatToken)
    → is_kind t.kind import ≡ true
    → is_group t.kind later ≡ true
    → begin_step begun t later ≡ finds [] stopped
begin_step-group begun t later h g = rw (comment-import t.kind h, h, g) refl

begin_step-import :
    (begun : List FormatToken) (t : FormatToken) (later : List FormatToken)
    → is_kind t.kind import ≡ true
    → is_group t.kind later ≡ false
    → begin_step begun t later ≡ finds [] (within (begun ++ (t ∷ [])) "")
begin_step-import begun t later h g = rw (comment-import t.kind h, h, g) refl

module _ (unquote : String → String) where
  -- The tokens of the entries that a round finds and leads to.
  abbrev found : Found → List FormatToken → List Entry
  found f ts = f.entries ++ scan_entries unquote f.next ts

  Found-if :
      (n : ℕ) (c : Bool) (x y : Found) (ts : List FormatToken)
      → n ≤ length (tokens_of (found x ts))
      → n ≤ length (tokens_of (found y ts))
      → n ≤ length (tokens_of (found (if c then x else y) ts))
  Found-if n true x y ts f g = f
  Found-if n false x y ts f g = g

  -- The entry that was begun has what it was begun with.
  within-grows :
      (tokens : List FormatToken) (key : String) (ts : List FormatToken)
      → length tokens ≤ length (tokens_of (scan_entries unquote (within tokens key) ts))
  unfolding scan_entries scan_end scan_step make_entry
  within-grows tokens key [] = omega (arith, ap length (append_nil tokens))
  within-grows tokens key (t ∷ ts) =
      let n = length tokens in
      let key' = if is_kind t.kind string then unquote t.text else key in
      let next = (begin_step [] t ts).next in
      Found-if n (is_kind t.kind semicolon) _ _ ts
        (omega (
          arith,
          length-append (tokens ++ (t ∷ [])) (tokens_of (scan_entries unquote (between []) ts)),
          length-append tokens (t ∷ []),
        ))
        (Found-if n t.break_before _ _ ts
          (omega (arith, length-append tokens (tokens_of (scan_entries unquote next ts))))
          (omega (arith, within-grows (tokens ++ (t ∷ [])) key' ts, length-append tokens (t ∷ []))))

  -- A block has the comments before its import, and the import.
  abbrev Begins : ℕ → List Entry → Type 0
  Begins n entries = (entries ≡ []) ⊎ (n < length (tokens_of entries))

  block-grows :
      (begun comments : List FormatToken) (t : FormatToken) (later : List FormatToken)
      → All IsComment comments
      → is_kind t.kind import ≡ true
      → Begins
          (length begun + length comments)
          (scan_entries unquote (between begun) (comments ++ (t ∷ later)))
  unfolding scan_entries scan_step
  block-grows begun [] t later all here = elim (Bool-cases (is_group t.kind later)) [
    | inl group ↦ inl (
        ap (λ f. found f later) (begin_step-group begun t later here group)
        ∙ scan_entries-stopped unquote later)
    | inr entry ↦ inr (
        subst (λ f. length begun + 0 < length (tokens_of (found f later)))
          (sym (begin_step-import begun t later here entry))
          (omega (arith, within-grows (begun ++ (t ∷ [])) "" later, length-append begun (t ∷ []))))
  ]
  block-grows begun (c ∷ cs) t later all here =
      subst (λ f. Begins (length begun + suc (length cs)) (found f (cs ++ (t ∷ later))))
        (sym (begin_step-comment begun c (cs ++ (t ∷ later)) all.0))
        (subst
          (λ n. Begins n (scan_entries unquote (between (begun ++ (c ∷ []))) (cs ++ (t ∷ later))))
          (omega (arith, length-append begun (c ∷ [])))
          (block-grows (begun ++ (c ∷ [])) cs t later all.1 here))

-- The comments that go with an import stand before it.
abbrev Leads : ℕ → List FormatToken → List FormatToken → Type 0
Leads n before later =
    (cs : List FormatToken) × All IsComment cs
    × (length cs ≡ n)
    × (take_leading n before later ≡ cs ++ later)
    × (before ≡ push_all cs (drop n before))

Leads-none : (before later : List FormatToken) → Leads 0 before later
Leads-none before later = ([], tt, refl, refl, refl)

push_all_last :
    (cs before : List FormatToken) (t : FormatToken)
    → push_all (cs ++ (t ∷ [])) before ≡ t ∷ push_all cs before
push_all_last [] before t = refl
push_all_last (c ∷ cs) before t = push_all_last cs (c ∷ before) t

Leads-if :
    (c : Bool) (n m : ℕ) (before later : List FormatToken)
    → (c ≡ true → Leads n before later)
    → Leads m before later
    → Leads (if c then n else m) before later
Leads-if true n m before later f h = f refl
Leads-if false n m before later f h = h

leading_count-Leads :
    (blank : Bool) (before later : List FormatToken)
    → Leads (leading_count blank before) before later
unfolding leading_count
leading_count-Leads blank [] later = Leads-none [] later
leading_count-Leads blank (t ∷ before) later =
    let n = leading_count t.blank_before before in
    let (cs, all, size, taken, back) = leading_count-Leads t.blank_before before (t ∷ later) in
    Leads-if (is_kind t.kind comment && t.break_before && not blank) (suc n) 0 (t ∷ before) later
      (λ leads. (
        cs ++ (t ∷ []),
        All-append IsComment cs (t ∷ []) all ((&&-true _ _ (&&-true _ _ leads).0).0, tt),
        length-append cs (t ∷ []) ∙ omega (arith, size),
        taken ∙ sym (append_assoc cs (t ∷ []) later),
        ap (λ r. t ∷ r) back ∙ sym (push_all_last cs (drop n before) t),
      ))
      (Leads-none (t ∷ before) later)

drop-append : (xs ys : List FormatToken) → drop (length xs) (xs ++ ys) ≡ ys
drop-append [] ys = refl
drop-append (x ∷ xs) ys = drop-append xs ys

drop_past :
    (cs : List FormatToken) (t : FormatToken) (later : List FormatToken) (m : ℕ)
    → drop (length cs + suc m) (cs ++ (t ∷ later)) ≡ drop m later
drop_past [] t later m =
    let size : 0 + suc m ≡ suc m = omega arith in ap (λ n. drop n (t ∷ later)) size
drop_past (c ∷ cs) t later m =
    let size : suc (length cs) + suc m ≡ suc (length cs + suc m) = omega arith in
    ap (λ n. drop n (c ∷ (cs ++ (t ∷ later)))) size ∙ drop_past cs t later m

regroup :
    (toks rest cs later under : List FormatToken)
    → cs ++ later ≡ toks ++ rest
    → Perm ((toks ++ under) ++ rest) ((cs ++ under) ++ later)
regroup toks rest cs later under whole =
    let same : toks ++ (rest ++ under) ≡ cs ++ (later ++ under) =
      sym (append_assoc toks rest under)
      ∙ ap (λ r. r ++ under) (sym whole)
      ∙ append_assoc cs later under in
    Perm.trans (perm_of_eq (append_assoc toks under rest)) (
      Perm.trans (Perm.append_left toks (perm_append_comm under rest)) (
        Perm.trans (perm_of_eq same) (
          Perm.trans (Perm.append_left cs (perm_append_comm later under))
            (perm_of_eq (sym (append_assoc cs under later))))))

module _ (unquote : String → String) where
  -- What a round holds: the tokens before the index and those after it that are not among them.
  abbrev IsKept : Block → List FormatToken → FormatToken → List FormatToken → Type 0
  IsKept b before t later = Perm (b.before ++ drop b.skip later) (before ++ (t ∷ later))

  keep_token-IsKept :
      (before : List FormatToken) (t : FormatToken) (later : List FormatToken)
      → IsKept (keep_token before t) before t later
  keep_token-IsKept before t later = Perm.symm (perm_middle before later)

  sort_block-IsKept :
      (n : ℕ) (entries : List Entry) (before : List FormatToken) (t : FormatToken)
      (later : List FormatToken) (rest : List FormatToken)
      → Leads n before (t ∷ later)
      → Begins unquote n entries
      → take_leading n before (t ∷ later) ≡ tokens_of entries ++ rest
      → IsKept (sort_block n entries before t) before t later
  sort_block-IsKept n [] before t later rest leads begins split = keep_token-IsKept before t later
  sort_block-IsKept n (e ∷ es) before t later rest leads (inl none) split = absurd (cc)
  sort_block-IsKept n (e ∷ es) before t later rest (cs, all, size, taken, back) (inr long) split =
      let toks = tokens_of (e ∷ es) in
      let sorted = tokens_of (sort_entries (e ∷ es)) in
      let under = drop n before in
      let whole : cs ++ (t ∷ later) ≡ toks ++ rest = sym taken ∙ split in
      let left : drop (length toks - n - 1) later ≡ rest =
        sym (drop_past cs t later (length toks - n - 1))
        ∙ ap (λ k. drop k (cs ++ (t ∷ later))) (omega (arith, size, long))
        ∙ ap (drop (length toks)) whole
        ∙ drop-append toks rest in
      let moved = Perm.append (push_all-Perm sorted under) (perm_of_eq left) in
      let unsorted =
        Perm.append_right rest (Perm.append_right under (sort_entries-Perm (e ∷ es))) in
      let restored = Perm.trans (Perm.symm (push_all-Perm cs under)) (perm_of_eq (sym back)) in
      Perm.trans moved (
        Perm.trans unsorted (
          Perm.trans (regroup toks rest cs (t ∷ later) under whole)
            (Perm.append_right (t ∷ later) restored)))

  IsKept-if :
      (c : Bool) (x y : Block) (before : List FormatToken) (t : FormatToken)
      (later : List FormatToken)
      → (c ≡ true → IsKept x before t later)
      → IsKept y before t later
      → IsKept (if c then x else y) before t later
  IsKept-if true x y before t later f h = f refl
  IsKept-if false x y before t later f h = h

  import_step-IsKept :
      (before : List FormatToken) (t : FormatToken) (later : List FormatToken)
      → IsKept (import_step unquote before t later) before t later
  unfolding import_step
  import_step-IsKept before t later =
      let n = leading_count t.blank_before before in
      let group = take_leading n before (t ∷ later) in
      let entries = scan_entries unquote (between []) group in
      let leads = leading_count-Leads t.blank_before before (t ∷ later) in
      let (rest, split) = scan_entries_split unquote (between []) group in
      let size : 0 + length leads.0 ≡ n = omega (arith, leads.2) in
      IsKept-if (is_kind t.kind import) (sort_block n entries before t) (keep_token before t) before
        t later
        (λ here.
          sort_block-IsKept n entries before t later rest leads
            (subst (λ k. Begins unquote k entries) size
              (subst
                (λ g. Begins unquote (0 + length leads.0) (scan_entries unquote (between []) g))
                (sym leads.3) (block-grows unquote [] leads.0 t later leads.1 here)))
            split)
        (keep_token-IsKept before t later)

  imports_from-Perm :
      (before : List FormatToken) (skip : ℕ) (ts : List FormatToken)
      → Perm
          (imports_from unquote (record { before = before; skip = skip }) ts)
          (before ++ drop skip ts)
  unfolding imports_from
  imports_from-Perm before zero [] =
      Perm.trans (reverse_perm before) (perm_of_eq (sym (append_nil before)))
  imports_from-Perm before (suc n) [] =
      Perm.trans (reverse_perm before) (perm_of_eq (sym (append_nil before)))
  imports_from-Perm before zero (t ∷ ts) =
      let b = import_step unquote before t ts in
      Perm.trans (imports_from-Perm b.before b.skip ts) (import_step-IsKept before t ts)
  imports_from-Perm before (suc n) (t ∷ ts) = imports_from-Perm before n ts

  -- `formatImports` gives the tokens in another order: none is lost and none is added.
  pub format_imports-Perm : (ts : List FormatToken) → Perm (format_imports unquote ts) ts
  unfolding format_imports
  format_imports-Perm ts = imports_from-Perm [] 0 ts
