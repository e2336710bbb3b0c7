-- ===== src/New/Range.antt =====
-- Proofs about `normalizeNew` of internal/compiler/new_parse.go: it writes within the source.
use ghi.Prelude.{
  ℕ, zero, suc, ◌<◌, ◌≡◌, ◌≢◌, inl, inr, refl, sym, subst, ◌∙◌, ap, true, some, List, [], ◌∷◌,
  Bool-cases, arith, length, All,
}
use ghi.Format.Kinds.{ident, lparen, is_kind, FormatToken}
use ghi.Ternary.Edited.{InOrder, within_source}
use ghi.New.Marks.{
  Construct, builtin, faulty, constructs, is_new, construct_after, erase, prepend, write_byte,
  mark_gap, Marked, out_of_range, mark_rest, mark_construct, mark_from, normalize_new,
}
use ghi.New.Widths.{length-erase, length-write_byte}

-- A name has at least one byte.
abbrev pub IsFull : FormatToken → Type 0
IsFull t = is_kind t.kind ident ≡ true → t.start < t.end

write_byte_fits :
    (i byte : ℕ) (bs : List ℕ) → i < length bs → (out : List ℕ) × (write_byte i byte bs ≡ some out)
unfolding write_byte
write_byte_fits i byte [] h = absurd (omega arith)
write_byte_fits zero byte (b ∷ bs) h = (byte ∷ bs, refl)
write_byte_fits (suc i) byte (b ∷ bs) h =
    let (out, wrote) = write_byte_fits i byte bs (omega arith) in (b ∷ out, ap (prepend b) wrote)

-- The gap of a construction ends where a name begins.
construct_after-fits :
    (i next n previous : ℕ) (ts : List FormatToken)
    → InOrder n previous ts
    → All IsFull ts
    → construct_after i ts ≡ constructs next
    → previous < n
unfolding construct_after
construct_after-fits i next n previous [] ordered full done = absurd (cc)
construct_after-fits i next n previous (t ∷ ts) ordered full done =
    elim (Bool-cases (is_kind t.kind lparen)) [
      | inl paren ↦ absurd (cc (rw paren at done))
      | inr other ↦ elim (Bool-cases (is_kind t.kind ident)) [
        | inl name ↦
            omega (arith, within_source n previous (t ∷ ts) 0 ordered (omega arith), full.0 name)
        | inr strange ↦ absurd (cc (rw (other, strange) at done))
      ]
    ]

mark_gap_fits :
    (end next : ℕ) (bs : List ℕ)
    → end < length bs
    → (out : List ℕ) × (mark_gap end next bs ≡ some out) × (length out ≡ length bs)
unfolding mark_gap
mark_gap_fits end next bs h =
    let same = length-erase end next 0 bs in
    let (out, wrote) = write_byte_fits end 46 (erase end next 0 bs) (omega (arith, same)) in
    (out, wrote, length-write_byte end 46 (erase end next 0 bs) out wrote ∙ same)

mark_construct_fits :
    (rest : List ℕ → Marked) (end : ℕ) (bs : List ℕ) (c : Construct)
    → ((next : ℕ) → c ≡ constructs next → end < length bs)
    → ((later : List ℕ) → length later ≡ length bs → rest later ≢ out_of_range)
    → mark_construct end rest bs c ≢ out_of_range
mark_construct_fits rest end bs builtin fits ih h = ih bs refl h
mark_construct_fits rest end bs (faulty e) fits ih h = absurd (cc)
mark_construct_fits rest end bs (constructs next) fits ih h =
    let (out, wrote, same) = mark_gap_fits end next bs (fits next refl) in
    ih out same (ap (mark_rest rest) (sym wrote) ∙ h)

mark_from_fits :
    (i previous : ℕ) (ts : List FormatToken) (bs : List ℕ)
    → InOrder (length bs) previous ts
    → All IsFull ts
    → mark_from i ts bs ≢ out_of_range
unfolding mark_from
mark_from_fits i previous [] bs ordered full h = absurd (cc)
mark_from_fits i previous (t ∷ ts) bs ordered full h = elim (Bool-cases (is_new t)) [
  | inl new_ ↦
      mark_construct_fits (mark_from (suc i) ts) t.end bs (construct_after i ts)
        (λ next same. construct_after-fits i next (length bs) t.end ts ordered.2 full.1 same)
        (λ later same.
          mark_from_fits (suc i) t.end ts later
            (subst (λ n. InOrder n t.end ts) (sym same) ordered.2) full.1)
        (rw new_ at h)
  | inr other ↦ mark_from_fits (suc i) t.end ts bs ordered.2 full.1 (rw other at h)
]

-- Where the tokens stand in order within the source and no name is empty, each period that marks a
-- construction is written within the source.
pub normalize_new-within :
    (source : List ℕ) (ts : List FormatToken)
    → InOrder (length source) 0 ts
    → All IsFull ts
    → normalize_new source ts ≢ out_of_range
unfolding normalize_new
normalize_new-within source ts ordered full = mark_from_fits 0 0 ts source ordered full
