-- ===== src/Arrow/Examples.antt =====
-- Tests of `normalizeArrows` of internal/compiler/arrow_parse.go, with a scanner that makes a token
-- of each byte.
use ghi.Prelude.{
  ℕ, suc, ◌≡◌, refl, List, [], ◌∷◌, ◌++◌, Option, All, some, if◌then◌else◌, ◌==◌, false,
}
use ghi.Coverage.Edits.{edited}
use ghi.Format.Kinds.{FormatKind, FormatToken, assign, gtr, lparen, rparen, lbrace, rbrace, ident}
use ghi.Ternary.Bounds.{bytes_of}
use ghi.Ternary.Loop.{Normalizing}
use ghi.Arrow.Parse.{
  Arrow, requires_block, invalid_signature, lowered_bytes, arrow_edits, failed, lowered,
  normalize_arrows,
}
use ghi.Arrow.Spliced.{lowered_bytes-edited}
use ghi.Arrow.Lines.{breaks, IsWritten, normalize_arrows-breaks}

abbrev byte_kind : ℕ → FormatKind
byte_kind b =
    if b == b'='
    then assign
    else if b == b'>'
    then gtr
    else if b == b'('
    then lparen
    else if b == b')'
    then rparen
    else if b == b'{'
    then lbrace
    else if b == b'}'
    then rbrace
    else ident

abbrev bytes_from : ℕ → List ℕ → List FormatToken
bytes_from i [] = []
bytes_from i (b ∷ bs) =
    record {
      kind = byte_kind b;
      text = "x";
      start = i;
      end = suc i;
      implicit = false;
      break_before = false;
      blank_before = false;
      ternary = false;
    }
    ∷ bytes_from (suc i) bs

abbrev scan_bytes : List ℕ → Option (List FormatToken)
scan_bytes source = some (bytes_from 0 source)

-- One parameter with a name, or with none.
abbrev one_named : List ℕ → Option (List ℕ)
one_named text = some (1 ∷ [])

abbrev one_unnamed : List ℕ → Option (List ℕ)
one_unnamed text = some (0 ∷ [])

abbrev lambda : Normalizing
lambda = record { source = bytes_of "f=(x)=>{" ++ (10 ∷ bytes_of "}"); mappings = [] }

abbrev literal : Normalizing
literal = record { source = bytes_of "f=func(x)  {" ++ (10 ∷ bytes_of "}"); mappings = [] }

abbrev bodiless : Normalizing
bodiless = record { source = bytes_of "f=(x)=>y"; mappings = [] }

abbrev lambda_arrow : Arrow
lambda_arrow = record { start = 2; arrow = 5 }

lambda-lowered : normalize_arrows scan_bytes one_named lambda ≡ lowered literal
unfolding normalize_arrows
lambda-lowered = refl

lambda-unnamed : normalize_arrows scan_bytes one_unnamed lambda ≡ failed (invalid_signature 5)
unfolding normalize_arrows
lambda-unnamed = refl

lambda-bodiless : normalize_arrows scan_bytes one_named bodiless ≡ failed (requires_block 5)
unfolding normalize_arrows
lambda-bodiless = refl

lowered_bytes-edited_example :
    lowered_bytes (lambda_arrow ∷ []) 0 false lambda.source
    ≡ edited (arrow_edits (lambda_arrow ∷ []) 0 false lambda.source) lambda.source
lowered_bytes-edited_example = lowered_bytes-edited (lambda_arrow ∷ []) lambda.source

lambda-IsWritten : All (IsWritten lambda.source) (bytes_from 0 lambda.source)
lambda-IsWritten = (
  (λ h. absurd (cc), λ h. absurd (cc)),
  (
    (λ h. refl, λ h. absurd (cc)),
    (
      (λ h. absurd (cc), λ h. absurd (cc)),
      (
        (λ h. absurd (cc), λ h. absurd (cc)),
        (
          (λ h. absurd (cc), λ h. absurd (cc)),
          (
            (λ h. refl, λ h. absurd (cc)),
            (
              (λ h. absurd (cc), λ h. refl),
              (
                (λ h. absurd (cc), λ h. absurd (cc)),
                ((λ h. absurd (cc), λ h. absurd (cc)), ((λ h. absurd (cc), λ h. absurd (cc)), tt)),
              ),
            ),
          ),
        ),
      ),
    ),
  ),
)

normalize_arrows-breaks_example : breaks literal.source ≡ breaks lambda.source
normalize_arrows-breaks_example =
    normalize_arrows-breaks scan_bytes one_named lambda literal (bytes_from 0 lambda.source) refl
      lambda-IsWritten lambda-lowered
