-- ===== src/New/Widths.antt =====
-- Proofs about `normalizeNew` of internal/compiler/new_parse.go: the bytes keep their places.
use ghi.Prelude.{
  ℕ, zero, suc, ◌+◌, ◌≤◌, ◌<◌, ◌≡◌, ◌⊎◌, inl, inr, refl, sym, subst, ◌∙◌, ap, true, false, ◌&&◌,
  not, Option, none, some, List, [], ◌∷◌, ltb, leb, Bool-cases, arith, length, get_elem?,
}
use ghi.Format.Kinds.{ident, lparen, is_kind, FormatToken}
use ghi.Ternary.Bounds.{start_at}
use ghi.New.Marks.{
  Construct, builtin, faulty, constructs, is_new, qualified, past_arguments, check_call,
  construct_after, is_line_end, erase, prepend, write_byte, mark_gap, Marked, marked, mark_rest,
  mark_construct, mark_from, normalize_new,
}

pub length-erase : (start end i : ℕ) (bs : List ℕ) → length (erase start end i bs) ≡ length bs
unfolding erase
length-erase start end i [] = refl
length-erase start end i (b ∷ bs) = ap suc (length-erase start end (suc i) bs)

erase_keeps :
    (start end i k : ℕ) (bs : List ℕ)
    → (k + i < start) ⊎ (end ≤ k + i)
    → get_elem? (erase start end i bs) k ≡ get_elem? bs k
unfolding erase
erase_keeps start end i k [] far = refl
erase_keeps start end i zero (b ∷ bs) far =
    let out : (leb start i && ltb i end && not (is_line_end b)) ≡ false = ground arith in
    rw out refl
erase_keeps start end i (suc k) (b ∷ bs) far = erase_keeps start end (suc i) k bs (ground arith)

prepend_inverts :
    (b : ℕ) (o : Option (List ℕ)) (out : List ℕ)
    → prepend b o ≡ some out
    → (later : List ℕ) × (o ≡ some later) × (b ∷ later ≡ out)
prepend_inverts b none out done = absurd (cc)
prepend_inverts b (some later) out done = (later, refl, cc)

pub length-write_byte :
    (i byte : ℕ) (bs out : List ℕ) → write_byte i byte bs ≡ some out → length out ≡ length bs
unfolding write_byte
length-write_byte i byte [] out done = absurd (cc)
length-write_byte zero byte (b ∷ bs) out done =
    let same : byte ∷ bs ≡ out = cc in ap length (sym same)
length-write_byte (suc i) byte (b ∷ bs) out done =
    let (later, wrote, same) = prepend_inverts b (write_byte i byte bs) out done in
    ap length (sym same) ∙ ap suc (length-write_byte i byte bs later wrote)

write_byte_keeps :
    (i byte k : ℕ) (bs out : List ℕ)
    → (k < i) ⊎ (i < k)
    → write_byte i byte bs ≡ some out
    → get_elem? out k ≡ get_elem? bs k
unfolding write_byte
write_byte_keeps i byte k [] out far done = absurd (cc)
write_byte_keeps zero byte zero (b ∷ bs) out far done = absurd (ground arith)
write_byte_keeps zero byte (suc k) (b ∷ bs) out far done =
    let same : byte ∷ bs ≡ out = cc in ap (λ r. get_elem? r (suc k)) (sym same)
write_byte_keeps (suc i) byte zero (b ∷ bs) out far done =
    let (later, wrote, same) = prepend_inverts b (write_byte i byte bs) out done in
    ap (λ r. get_elem? r 0) (sym same)
write_byte_keeps (suc i) byte (suc k) (b ∷ bs) out far done =
    let (later, wrote, same) = prepend_inverts b (write_byte i byte bs) out done in
    ap (λ r. get_elem? r (suc k)) (sym same)
    ∙ write_byte_keeps i byte k bs later (ground arith) wrote

check_call-next :
    (i begin next : ℕ) (o : Option (List FormatToken))
    → check_call i begin o ≡ constructs next
    → begin ≡ next
check_call-next i begin next none done = absurd (cc)
check_call-next i begin next (some []) done = absurd (cc)
check_call-next i begin next (some (t ∷ ts)) done = elim (Bool-cases (is_kind t.kind lparen)) [
  | inl paren ↦ cc (rw paren at done)
  | inr other ↦ absurd (cc (rw other at done))
]

construct_after-next :
    (i next : ℕ) (ts : List FormatToken)
    → construct_after i ts ≡ constructs next
    → start_at ts 0 ≡ next
unfolding construct_after
construct_after-next i next [] done = absurd (cc)
construct_after-next i next (t ∷ ts) done = elim (Bool-cases (is_kind t.kind lparen)) [
  | inl paren ↦ absurd (cc (rw paren at done))
  | inr other ↦ elim (Bool-cases (is_kind t.kind ident)) [
    | inl name ↦
        check_call-next i t.start next (past_arguments (qualified ts)) (rw (other, name) at done)
    | inr strange ↦ absurd (cc (rw (other, strange) at done))
  ]
]

-- The byte at `k` stands in no gap after a `new`.
abbrev pub IsOutside : ℕ → List FormatToken → Type 0
IsOutside k [] = Unit
IsOutside k (t ∷ ts) =
    (is_new t ≡ true → (k < t.end) ⊎ ((t.end < k) × (start_at ts 0 ≤ k))) × IsOutside k ts

mark_gap_keeps :
    (end next k : ℕ) (bs out : List ℕ)
    → (k < end) ⊎ ((end < k) × (next ≤ k))
    → mark_gap end next bs ≡ some out
    → (length out ≡ length bs) × (get_elem? out k ≡ get_elem? bs k)
unfolding mark_gap
mark_gap_keeps end next k bs out far done = (
  length-write_byte end 46 (erase end next 0 bs) out done ∙ length-erase end next 0 bs,
  write_byte_keeps end 46 k (erase end next 0 bs) out (ground arith) done
      ∙ erase_keeps end next 0 k bs (ground arith),
)

-- The same length, and the same byte at `k`.
abbrev pub Keeps : ℕ → (bs out : List ℕ) → Type 0
Keeps k bs out = (length out ≡ length bs) × (get_elem? out k ≡ get_elem? bs k)

mark_rest-Keeps :
    (rest : List ℕ → Marked) (end next k : ℕ) (bs out : List ℕ) (o : Option (List ℕ))
    → (k < end) ⊎ ((end < k) × (next ≤ k))
    → ((later : List ℕ) → rest later ≡ marked out → Keeps k later out)
    → mark_gap end next bs ≡ o
    → mark_rest rest o ≡ marked out
    → Keeps k bs out
mark_rest-Keeps rest end next k bs out none far ih same done = absurd (cc)
mark_rest-Keeps rest end next k bs out (some later) far ih same done =
    let here = mark_gap_keeps end next k bs later far same in
    let there = ih later done in (there.0 ∙ here.0, there.1 ∙ here.1)

mark_construct-Keeps :
    (rest : List ℕ → Marked) (end k : ℕ) (bs out : List ℕ) (c : Construct)
    → ((next : ℕ) → c ≡ constructs next → (k < end) ⊎ ((end < k) × (next ≤ k)))
    → ((later : List ℕ) → rest later ≡ marked out → Keeps k later out)
    → mark_construct end rest bs c ≡ marked out
    → Keeps k bs out
mark_construct-Keeps rest end k bs out builtin far ih done = ih bs done
mark_construct-Keeps rest end k bs out (faulty e) far ih done = absurd (cc)
mark_construct-Keeps rest end k bs out (constructs next) far ih done =
    mark_rest-Keeps rest end next k bs out (mark_gap end next bs) (far next refl) ih refl done

mark_from-Keeps :
    (i k : ℕ) (ts : List FormatToken) (bs out : List ℕ)
    → IsOutside k ts
    → mark_from i ts bs ≡ marked out
    → Keeps k bs out
unfolding mark_from
mark_from-Keeps i k [] bs out far done =
    let same : bs ≡ out = cc in (ap length (sym same), ap (λ r. get_elem? r k) (sym same))
mark_from-Keeps i k (t ∷ ts) bs out far done = elim (Bool-cases (is_new t)) [
  | inl new_ ↦
      mark_construct-Keeps (mark_from (suc i) ts) t.end k bs out (construct_after i ts)
        (λ next same.
          subst (λ n. (k < t.end) ⊎ ((t.end < k) × (n ≤ k))) (construct_after-next i next ts same)
            (far.0 new_))
        (λ later d. mark_from-Keeps (suc i) k ts later out far.1 d) (rw new_ at done)
  | inr other ↦ mark_from-Keeps (suc i) k ts bs out far.1 (rw other at done)
]

-- A source whose constructions are marked keeps its length, and every byte of it that stands in no
-- gap between a `new` and the next token.
pub normalize_new-Keeps :
    (source out : List ℕ) (ts : List FormatToken) (k : ℕ)
    → IsOutside k ts
    → normalize_new source ts ≡ marked out
    → Keeps k source out
unfolding normalize_new
normalize_new-Keeps source out ts k far done = mark_from-Keeps 0 k ts source out far done
