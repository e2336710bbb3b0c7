-- ===== src/Prelude/Texts.antt =====
-- Names are native texts that the program compares and keeps in sets. A Go `map[string]bool`
-- that only ever holds `true` is a list of its keys.
use Prim.Native.String.{String}
pub use Prim.Native.String.{len as text_length, ◌++◌ as text_append}
use mathlib.Core.Path.{◌≡◌, refl}
use mathlib.Core.Bool.{Bool, false, ◌||◌}
use mathlib.Core.List.{List, [], ◌∷◌, ◌++◌}
use native.Mathlib.Omega.{arith}
pub use text.Mathlib.Text.{◌==◌ as str_eq, starts_with}
pub use text.Mathlib.TextEquality.{eq_iff}
pub use text.Mathlib.TextPositions.{eq_refl}
pub use text.Mathlib.TextLemmas.{append_cancel_left as text_append_cancel}

-- The lookup `set[name]`.
abbrev pub contains : List String → String → Bool
contains [] name = false
contains (key ∷ keys) name = str_eq key name || contains keys name

-- No name occurs twice.
abbrev pub IsDistinct : List String → Type 0
IsDistinct [] = Unit
IsDistinct (n ∷ ns) = (contains ns n ≡ false) × IsDistinct ns

pub contains-append :
    (xs ys : List String) (name : String)
    → contains (xs ++ ys) name ≡ (contains xs name || contains ys name)
contains-append [] ys name = refl
contains-append (x ∷ xs) ys name = ground (arith, contains-append xs ys name)
