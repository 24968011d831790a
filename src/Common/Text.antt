-- ===== src/Common/Text.antt =====
-- Texts against the source's regular expressions. A text is read as its code points; a class is a
-- Boolean test on one code point, so a code point outside ASCII fails every class here, as it does
-- in the source's patterns.
use Prim.Native.Nat.{ℕ, ◌+◌}
use Prim.Native.Char.{code}
use Prim.Native.String.{String}
use text.Mathlib.Text.{◌==◌}
use mathlib.Core.Bool.{Bool, true, false, ◌&&◌, ◌||◌}
use mathlib.Core.List.{List, [], ◌∷◌}
use mathlib.Core.Option.{Option, none, some}
use billing_validation_contr.Common.Tests.{leb, nat_eq, if◌then◌else◌}
use billing_validation_contr.Common.Lists.{length, every, some_of}
pub use text.Mathlib.Text.{◌==◌ as str_eq}
pub use text.Mathlib.TextEquality.{eq_iff}
pub use text.Mathlib.TextPositions.{eq_refl}
pub use Prim.Native.String.{◌++◌ as str_append}

abbrev pub codes : String → List ℕ
codes String.[] = []
codes (String.◌∷◌ c s) = code c ∷ codes s

-- Equality of texts by their codes, and of bytes.
abbrev pub same_codes : List ℕ → List ℕ → Bool
same_codes [] [] = true
same_codes [] (d ∷ ds) = false
same_codes (c ∷ cs) [] = false
same_codes (c ∷ cs) (d ∷ ds) = nat_eq c d && same_codes cs ds

abbrev pub includes : List String → String → Bool
includes names s = some_of (λ n. n == s) names

abbrev pub same_texts : List String → List String → Bool
same_texts [] [] = true
same_texts (a ∷ rest) (b ∷ others) = str_eq a b && same_texts rest others
same_texts _ _ = false

abbrev pub is_digit : ℕ → Bool
is_digit c = leb b'0' c && leb c b'9'

abbrev pub is_lower : ℕ → Bool
is_lower c = leb b'a' c && leb c b'z'

abbrev pub is_upper : ℕ → Bool
is_upper c = leb b'A' c && leb c b'Z'

abbrev pub is_alnum : ℕ → Bool
is_alnum c = is_upper c || is_lower c || is_digit c

-- [a-f0-9]
abbrev pub is_hex : ℕ → Bool
is_hex c = is_digit c || (leb b'a' c && leb c b'f')

-- [A-Za-z0-9_]
abbrev pub is_word : ℕ → Bool
is_word c = is_alnum c || nat_eq c b'_'

-- A repeated class with its bounds, `[p]{lo,hi}` between anchors.
abbrev pub run_of : (ℕ → Bool) → ℕ → ℕ → List ℕ → Bool
run_of p lo hi s = leb lo (length s) && leb (length s) hi && every p s

-- The rest of `s` after the literal prefix, if it has it.
abbrev pub after_prefix : List ℕ → List ℕ → Option (List ℕ)
after_prefix [] s = some s
after_prefix (p ∷ ps) [] = none
after_prefix (p ∷ ps) (c ∷ s) = if nat_eq p c then after_prefix ps s else none

-- `^literal[p]{lo,hi}$`.
abbrev pub prefixed_run : List ℕ → (ℕ → Bool) → ℕ → ℕ → List ℕ → Bool
prefixed_run literal p lo hi s = elim (after_prefix literal s) [
  | none ↦ false
  | some rest ↦ run_of p lo hi rest
]

-- One class for each position: `^[p1][p2]...$`.
abbrev pub matches_classes : List (ℕ → Bool) → List ℕ → Bool
matches_classes [] [] = true
matches_classes [] (c ∷ s) = false
matches_classes (p ∷ ps) [] = false
matches_classes (p ∷ ps) (c ∷ s) = p c && matches_classes ps s

-- `s.startsWith(prefix)`.
abbrev pub has_prefix : String → String → Bool
has_prefix prefix s = elim (after_prefix (codes prefix) (codes s)) [ none ↦ false | some r ↦ true ]

-- The ASCII letters of the `i` flag.
abbrev pub to_lower : ℕ → ℕ
to_lower c = if is_upper c then c + 32 else c
