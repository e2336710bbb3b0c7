-- ===== src/Format/Permuted.antt =====
-- Proofs about `formatImports` of internal/compiler/format_structure.go: no token is lost.
use ghi.Prelude.{
  String, ◌≡◌, refl, sym, ◌∙◌, ap, subst, ◌⊎◌, inl, inr, Bool, true, false, ◌&&◌, not, List, [],
  ◌∷◌, ◌++◌, if◌then◌else◌, Bool-cases, arith,
}
use mathlib.Core.List.{Perm, perm_append_comm, perm_middle}
use mathlib.Core.List.Perm
use ghi.Format.Kinds.{comment, semicolon, import, is_kind, FormatToken}
use ghi.Format.Flatten.{is_group}
use ghi.Format.Imports.{
  Entry, text_lt, insert_entry, sort_entries, make_entry, Scanning, between, within, stopped, Found,
  begin_step, within_step, scan_step, scan_end, scan_entries, tokens_of, push_all,
}

pub append_assoc {ℓ} : {A : Type ℓ} (xs ys zs : List A) → (xs ++ ys) ++ zs ≡ xs ++ (ys ++ zs)
append_assoc [] ys zs = refl
append_assoc (x ∷ xs) ys zs = ap (λ r. x ∷ r) (append_assoc xs ys zs)

pub append_nil {ℓ} : {A : Type ℓ} (xs : List A) → xs ++ [] ≡ xs
append_nil [] = refl
append_nil (x ∷ xs) = ap (λ r. x ∷ r) (append_nil xs)

pub perm_of_eq : {xs ys : List FormatToken} → xs ≡ ys → Perm xs ys
perm_of_eq {xs} same = subst (Perm xs) same (Perm.refl xs)

swap_blocks : (xs ys zs : List FormatToken) → Perm (xs ++ (ys ++ zs)) (ys ++ (xs ++ zs))
swap_blocks xs ys zs = Perm.trans (perm_of_eq (sym (append_assoc xs ys zs))) (
    Perm.trans (Perm.append_right zs (perm_append_comm xs ys)) (perm_of_eq (append_assoc ys xs zs)))

insert_entry-Perm :
    (e : Entry) (es : List Entry) → Perm (tokens_of (insert_entry e es)) (e.tokens ++ tokens_of es)
unfolding insert_entry
insert_entry-Perm e [] = Perm.refl (e.tokens ++ [])
insert_entry-Perm e (x ∷ xs) = elim (Bool-cases (text_lt x.key e.key)) [
  | inl less ↦ rw less (
      Perm.trans (Perm.append_left x.tokens (insert_entry-Perm e xs))
        (swap_blocks x.tokens e.tokens (tokens_of xs)))
  | inr more ↦ rw more (Perm.refl (e.tokens ++ (x.tokens ++ tokens_of xs)))
]

pub sort_entries-Perm : (es : List Entry) → Perm (tokens_of (sort_entries es)) (tokens_of es)
unfolding sort_entries
sort_entries-Perm [] = Perm.nil
sort_entries-Perm (e ∷ es) =
    Perm.trans (insert_entry-Perm e (sort_entries es))
      (Perm.append_left e.tokens (sort_entries-Perm es))

pub push_all-Perm : (xs before : List FormatToken) → Perm (push_all xs before) (xs ++ before)
push_all-Perm [] before = Perm.refl before
push_all-Perm (x ∷ xs) before = Perm.trans (push_all-Perm xs (x ∷ before)) (perm_middle xs before)

-- The tokens of the entry, or of the comments before it, that was begun.
abbrev pub pending : Scanning → List FormatToken
pending (between begun) = begun
pending (within tokens key) = tokens
pending stopped = []

-- A round that splits what was begun, the token and the later ones into the entries that it
-- found, what it holds, and the rest.
abbrev Splits : Found → List FormatToken → FormatToken → Type 0
Splits f held t =
    (later : List FormatToken)
    → (rest : List FormatToken) × (held ++ (t ∷ later)
        ≡ tokens_of f.entries ++ (pending f.next ++ rest))
      × ((f.next ≡ stopped) ⊎ (rest ≡ later))

pub make_entry-tokens :
    (tokens : List FormatToken) (key : String) → (make_entry tokens key).tokens ≡ tokens
unfolding make_entry
make_entry-tokens tokens key = refl

begin_step-entries :
    (begun : List FormatToken) (t : FormatToken) (later : List FormatToken)
    → (begin_step begun t later).entries ≡ []
begin_step-entries begun t later = ground arith

Splits-if :
    (c : Bool) (x y : Found) (held : List FormatToken) (t : FormatToken)
    → Splits x held t
    → Splits y held t
    → Splits (if c then x else y) held t
Splits-if true x y held t f g = f
Splits-if false x y held t f g = g

begin_step-Splits :
    (begun : List FormatToken) (t : FormatToken) (later : List FormatToken)
    → Splits (begin_step begun t later) begun t
begin_step-Splits begun t later =
    Splits-if (is_kind t.kind comment) _ _ begun t
      (λ us. (us, sym (append_assoc begun (t ∷ []) us), inr refl))
      (Splits-if (is_kind t.kind import && not (is_group t.kind later)) _ _ begun t
        (λ us. (us, sym (append_assoc begun (t ∷ []) us), inr refl))
        (λ us. (begun ++ (t ∷ us), refl, inl refl)))

pub tokens_of-append : (xs ys : List Entry) → tokens_of (xs ++ ys) ≡ tokens_of xs ++ tokens_of ys
tokens_of-append [] ys = refl
tokens_of-append (x ∷ xs) ys =
    ap (λ r. x.tokens ++ r) (tokens_of-append xs ys)
    ∙ sym (append_assoc x.tokens (tokens_of xs) (tokens_of ys))

module _ (unquote : String → String) where
  within_step-Splits :
      (tokens : List FormatToken) (key : String) (t : FormatToken) (later : List FormatToken)
      → Splits (within_step unquote tokens key t later) tokens t
  within_step-Splits tokens key t later =
      Splits-if (is_kind t.kind semicolon) _ _ tokens t
        (λ us. (
          us,
          rw (make_entry-tokens (tokens ++ (t ∷ [])) key) (
              sym (
                ap (λ r. r ++ us) (append_nil (tokens ++ (t ∷ [])))
                ∙ append_assoc tokens (t ∷ []) us)),
          inr refl,
        ))
        (Splits-if t.break_before _ _ tokens t
          (λ us.
            let (rest, same, where_) = begin_step-Splits [] t later us in
            (
              rest,
              rw (make_entry-tokens tokens key) (
                  ap (λ r. tokens ++ r)
                    (same
                      ∙ ap (λ es. tokens_of es ++ (pending (begin_step [] t later).next ++ rest))
                          (begin_step-entries [] t later))
                  ∙ ap (λ r. r ++ (pending (begin_step [] t later).next ++ rest))
                      (sym (append_nil tokens))),
              where_,
            ))
          (λ us. (us, sym (append_assoc tokens (t ∷ []) us), inr refl)))

  pub scan_entries-stopped : (ts : List FormatToken) → scan_entries unquote stopped ts ≡ []
  unfolding scan_entries scan_step
  scan_entries-stopped [] = refl
  scan_entries-stopped (t ∷ ts) = scan_entries-stopped ts

  scan_step-Splits :
      (s : Scanning) (t : FormatToken) (later : List FormatToken)
      → Splits (scan_step unquote s t later) (pending s) t
  unfolding scan_step
  scan_step-Splits (between begun) t later = begin_step-Splits begun t later
  scan_step-Splits (within tokens key) t later = within_step-Splits tokens key t later
  scan_step-Splits stopped t later = λ us. (t ∷ us, refl, inl refl)

  -- The tokens of the entries stand first.
  pub scan_entries_split :
      (s : Scanning) (ts : List FormatToken)
      → (rest : List FormatToken) × (pending s ++ ts
          ≡ tokens_of (scan_entries unquote s ts) ++ rest)
  unfolding scan_entries scan_end
  scan_entries_split (between begun) [] = (begun, append_nil begun)
  scan_entries_split (within tokens key) [] =
      ([], rw (make_entry-tokens tokens key) (sym (append_nil (tokens ++ []))))
  scan_entries_split stopped [] = ([], refl)
  scan_entries_split s (t ∷ ts) =
      let f = scan_step unquote s t ts in
      let (held, same, case_) = scan_step-Splits s t ts ts in
      let (rest, later) = scan_entries_split f.next ts in
      elim case_ [
        | inl stop ↦ (
          pending f.next ++ held,
          same
              ∙ ap (λ r. r ++ (pending f.next ++ held))
                  (sym (append_nil (tokens_of f.entries))
                    ∙ ap (λ r. tokens_of f.entries ++ tokens_of r)
                        (sym (ap (λ n. scan_entries unquote n ts) stop ∙ scan_entries-stopped ts))
                    ∙ sym (tokens_of-append f.entries (scan_entries unquote f.next ts))),
        )
        | inr all ↦ (
          rest,
          same
              ∙ ap (λ r. tokens_of f.entries ++ (pending f.next ++ r)) all
              ∙ ap (λ r. tokens_of f.entries ++ r) later
              ∙ sym (
                  append_assoc (tokens_of f.entries) (tokens_of (scan_entries unquote f.next ts))
                    rest)
              ∙ ap (λ r. r ++ rest)
                  (sym (tokens_of-append f.entries (scan_entries unquote f.next ts))),
        )
      ]
