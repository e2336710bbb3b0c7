-- ===== src/Format/Contents.antt =====
-- Proofs about `formatFlattenImports` of internal/compiler/format_structure.go: what a group of
-- imports keeps.
use ghi.Prelude.{
  String, ◌≡◌, refl, sym, ◌∙◌, ap, Bool, true, false, ◌&&◌, ◌||◌, not, List, [], ◌∷◌, ◌++◌,
  if◌then◌else◌, arith,
}
use ghi.Format.Kinds.{
  FormatKind, comment, string, lparen, rparen, semicolon, import, is_kind, FormatToken,
}
use ghi.Format.Flatten.{
  Flattening, outside, opening, entries, naming, trailing, change_head, import_at, blank_import,
  lead_entry, entry_tokens, Move, entry_step, name_step, trail_step, is_group, flatten_step,
  flatten_end, flatten_from, flatten_imports,
}

abbrev is_frame : FormatKind → Bool
is_frame k = is_kind k import || is_kind k lparen || is_kind k rparen

abbrev pub content_of : FormatToken → List (FormatKind × String)
content_of t = if is_frame t.kind then [] else (t.kind, t.text) ∷ []

-- The kinds and texts of the tokens, without the words `import` and the parentheses.
abbrev pub contents : List FormatToken → List (FormatKind × String)
contents [] = []
contents (t ∷ ts) = content_of t ++ contents ts

append_assoc {ℓ} : {A : Type ℓ} (xs ys zs : List A) → (xs ++ ys) ++ zs ≡ xs ++ (ys ++ zs)
append_assoc [] ys zs = refl
append_assoc (x ∷ xs) ys zs = ap (λ r. x ∷ r) (append_assoc xs ys zs)

append_nil {ℓ} : {A : Type ℓ} (xs : List A) → xs ++ [] ≡ xs
append_nil [] = refl
append_nil (x ∷ xs) = ap (λ r. x ∷ r) (append_nil xs)

contents-append : (xs ys : List FormatToken) → contents (xs ++ ys) ≡ contents xs ++ contents ys
contents-append [] ys = refl
contents-append (x ∷ xs) ys =
    ap (λ r. content_of x ++ r) (contents-append xs ys)
    ∙ sym (append_assoc (content_of x) (contents xs) (contents ys))

contents-lead_entry :
    (d : FormatToken) (first : Bool) (leading : List FormatToken)
    → contents (lead_entry d first leading) ≡ contents leading
contents-lead_entry d first [] = refl
contents-lead_entry d first (t ∷ ts) = refl

contents-import :
    (d : FormatToken) (first : Bool) (leading body : List FormatToken)
    → is_kind d.kind import ≡ true
    → content_of (blank_import d first leading (import_at d body)) ≡ []
contents-import d true [] [] h = rw h refl
contents-import d true [] (t ∷ ts) h = rw h refl
contents-import d true (l ∷ ls) [] h = rw h refl
contents-import d true (l ∷ ls) (t ∷ ts) h = rw h refl
contents-import d false [] [] h = rw h refl
contents-import d false [] (t ∷ ts) h = rw h refl
contents-import d false (l ∷ ls) [] h = rw h refl
contents-import d false (l ∷ ls) (t ∷ ts) h = rw h refl

contents-entry_tokens :
    (d : FormatToken) (first : Bool) (leading body : List FormatToken)
    → is_kind d.kind import ≡ true
    → contents (entry_tokens d first leading body) ≡ contents (leading ++ body)
unfolding entry_tokens
contents-entry_tokens d first leading body h =
    contents-append (lead_entry d first leading) _
    ∙ rw (contents-lead_entry d first leading, contents-import d first leading body h) (same body)
    ∙ sym (contents-append leading body)
  where
    same :
        (body : List FormatToken)
        → contents leading
            ++ contents
                (change_head (λ t. record t { break_before = false; blank_before = false }) body)
          ≡ contents leading ++ contents body
    same [] = refl
    same (t ∷ ts) = refl

-- The tokens that the state holds.
abbrev held : Flattening → List FormatToken
held (entries d first leading) = leading
held (naming d first leading body) = leading ++ body
held (trailing d first leading body) = leading ++ body
held _ = []

-- A group begins with its word and its parenthesis.
abbrev Fits : Flattening → List FormatToken → Type 0
Fits outside ts = Unit
Fits (opening d) [] = is_kind d.kind import ≡ true
Fits (opening d) (t ∷ ts) = (is_kind d.kind import ≡ true) × (is_kind t.kind lparen ≡ true)
Fits (entries d first leading) ts = is_kind d.kind import ≡ true
Fits (naming d first leading body) ts = is_kind d.kind import ≡ true
Fits (trailing d first leading body) ts = is_kind d.kind import ≡ true

-- A round adds and holds what was held, and the token.
abbrev Keeps : Move → List FormatToken → FormatToken → List FormatToken → Type 0
Keeps m before t later =
    (contents m.emitted ++ contents (held m.next) ≡ contents before ++ content_of t)
    × Fits m.next later

Keeps-if :
    (c : Bool) (x y : Move) (before : List FormatToken) (t : FormatToken) (later : List FormatToken)
    → (c ≡ true → Keeps x before t later)
    → (c ≡ false → Keeps y before t later)
    → Keeps (if c then x else y) before t later
Keeps-if true x y before t later f g = f refl
Keeps-if false x y before t later f g = g refl

content_of-frame : (t : FormatToken) → is_frame t.kind ≡ true → content_of t ≡ []
content_of-frame t h = rw h refl

contents-one :
    (xs : List FormatToken) (t : FormatToken)
    → contents (xs ++ (t ∷ [])) ≡ contents xs ++ content_of t
contents-one xs t =
    contents-append xs (t ∷ []) ∙ ap (λ r. contents xs ++ r) (append_nil (content_of t))

rparen-frame : (k : FormatKind) → is_kind k rparen ≡ true → is_frame k ≡ true
rparen-frame rparen h = refl
rparen-frame _ h = cc

entry_step-Keeps :
    (d : FormatToken) (first : Bool) (leading : List FormatToken) (t : FormatToken)
    (later : List FormatToken)
    → is_kind d.kind import ≡ true
    → Keeps (entry_step d first leading t) leading t later
entry_step-Keeps d first leading t later h =
    Keeps-if (is_kind t.kind rparen) _ _ leading t later
      (λ closes. (
        ap (λ r. contents leading ++ r) (sym (content_of-frame t (rparen-frame t.kind closes))),
        tt,
      ))
      (λ _.
        Keeps-if (is_kind t.kind comment) _ _ leading t later (λ _. (contents-one leading t, h))
          (λ _.
            Keeps-if (is_kind t.kind string) _ _ leading t later (λ _. (contents-one leading t, h))
              (λ _. (contents-one leading t, h))))

contents-body :
    (leading body : List FormatToken) (t : FormatToken)
    → contents (leading ++ (body ++ (t ∷ []))) ≡ contents (leading ++ body) ++ content_of t
contents-body leading body t =
    ap contents (sym (append_assoc leading body (t ∷ []))) ∙ contents-one (leading ++ body) t

name_step-Keeps :
    (d : FormatToken) (first : Bool) (leading body : List FormatToken) (t : FormatToken)
    (later : List FormatToken)
    → is_kind d.kind import ≡ true
    → Keeps (name_step d first leading body t) (leading ++ body) t later
name_step-Keeps d first leading body t later h =
    Keeps-if (is_kind t.kind rparen) _ _ (leading ++ body) t later
      (λ closes. (
        ap (λ r. contents (leading ++ body) ++ r)
            (sym (content_of-frame t (rparen-frame t.kind closes))),
        tt,
      ))
      (λ _.
        Keeps-if (is_kind t.kind string) _ _ (leading ++ body) t later
          (λ _. (contents-body leading body t, h)) (λ _. (contents-body leading body t, h)))

trail_step-Keeps :
    (d : FormatToken) (first : Bool) (leading body : List FormatToken) (t : FormatToken)
    (later : List FormatToken)
    → is_kind d.kind import ≡ true
    → Keeps (trail_step d first leading body t) (leading ++ body) t later
trail_step-Keeps d first leading body t later h =
    let after = entry_step d false [] t in
    let (same, fits) = entry_step-Keeps d false [] t later h in
    Keeps-if (is_kind t.kind comment && not t.break_before) _ _ (leading ++ body) t later
      (λ _. (contents-body leading body t, h))
      (λ _.
        Keeps-if (is_kind t.kind semicolon) _ _ (leading ++ body) t later
          (λ _. (
            append_nil (contents (entry_tokens d first leading (body ++ (t ∷ []))))
                ∙ contents-entry_tokens d first leading (body ++ (t ∷ [])) h
                ∙ contents-body leading body t,
            h,
          ))
          (λ _. (
            ap (λ r. r ++ contents (held after.next))
                  (contents-append (entry_tokens d first leading body) after.emitted)
                ∙ append_assoc (contents (entry_tokens d first leading body))
                    (contents after.emitted) (contents (held after.next))
                ∙ rw (same, contents-entry_tokens d first leading body h) refl,
            fits,
          )))

is_group-Fits :
    (t : FormatToken) (later : List FormatToken)
    → is_group t.kind later ≡ true
    → Fits (opening t) later
is_group-Fits t [] h = absurd (cc)
is_group-Fits t (u ∷ us) h = ground arith

lparen-frame : (k : FormatKind) → is_kind k lparen ≡ true → is_frame k ≡ true
lparen-frame lparen h = refl
lparen-frame _ h = cc

import-frame : (k : FormatKind) → is_kind k import ≡ true → is_frame k ≡ true
import-frame import h = refl
import-frame _ h = cc

Fits-import :
    (t : FormatToken) (later : List FormatToken)
    → Fits (opening t) later
    → is_kind t.kind import ≡ true
Fits-import t [] h = h
Fits-import t (u ∷ us) h = h.0

flatten_step-Keeps :
    (f : Flattening) (t : FormatToken) (later : List FormatToken)
    → Fits f (t ∷ later)
    → Keeps (flatten_step f t later) (held f) t later
unfolding flatten_step
flatten_step-Keeps outside t later h =
    Keeps-if (is_group t.kind later) _ _ [] t later
      (λ group.
        let fits = is_group-Fits t later group in
        (sym (content_of-frame t (import-frame t.kind (Fits-import t later fits))), fits))
      (λ _. (append_nil (contents (t ∷ [])) ∙ append_nil (content_of t), tt))
flatten_step-Keeps (opening d) t later h = (sym (content_of-frame t (lparen-frame t.kind h.1)), h.0)
flatten_step-Keeps (entries d first leading) t later h = entry_step-Keeps d first leading t later h
flatten_step-Keeps (naming d first leading body) t later h =
    name_step-Keeps d first leading body t later h
flatten_step-Keeps (trailing d first leading body) t later h =
    trail_step-Keeps d first leading body t later h

flatten_end-contents : (f : Flattening) → Fits f [] → contents (flatten_end f) ≡ contents (held f)
unfolding flatten_end
flatten_end-contents outside h = refl
flatten_end-contents (opening d) h = refl
flatten_end-contents (entries d first leading) h = refl
flatten_end-contents (naming d first leading body) h = refl
flatten_end-contents (trailing d first leading body) h =
    contents-entry_tokens d first leading body h

flatten_from-contents :
    (f : Flattening) (ts : List FormatToken)
    → Fits f ts
    → contents (flatten_from f ts) ≡ contents (held f) ++ contents ts
unfolding flatten_from
flatten_from-contents f [] h = flatten_end-contents f h ∙ sym (append_nil (contents (held f)))
flatten_from-contents f (t ∷ ts) h =
    let m = flatten_step f t ts in
    let (same, fits) = flatten_step-Keeps f t ts h in
    contents-append m.emitted (flatten_from m.next ts)
    ∙ ap (λ r. contents m.emitted ++ r) (flatten_from-contents m.next ts fits)
    ∙ sym (append_assoc (contents m.emitted) (contents (held m.next)) (contents ts))
    ∙ ap (λ r. r ++ contents ts) same
    ∙ append_assoc (contents (held f)) (content_of t) (contents ts)

-- `formatFlattenImports` keeps the kinds and texts of all tokens and their order, but for the words
-- `import` and the parentheses.
pub flatten_imports-contents : (ts : List FormatToken) → contents (flatten_imports ts) ≡ contents ts
unfolding flatten_imports
flatten_imports-contents ts = flatten_from-contents outside ts tt
