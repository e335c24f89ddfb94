-- ===== src/Types/Packages.antt =====
-- The checks that `Validate` makes of one package, over the code points of its text:
-- `strings.Split(p, "=")` and the two regular expressions, which Go compiles at each call.
use Prim.Native.Char.{code}
use jupyter_operator.Common.{
  ℕ, String, Bool, true, false, List, [], ◌∷◌, ◌&&◌, ◌||◌, leb, nat_eq, if◌then◌else◌,
}

abbrev pub codes : String → List ℕ
codes String.[] = []
codes (String.◌∷◌ c s) = code c ∷ codes s

-- Prepend to the first piece.
abbrev pub extend : ℕ → List (List ℕ) → List (List ℕ)
extend c [] = (c ∷ []) ∷ []
extend c (piece ∷ pieces) = (c ∷ piece) ∷ pieces

-- `strings.Split(s, sep)` for a separator of one character.
unfoldable pub split : ℕ → List ℕ → List (List ℕ)
split sep [] = [] ∷ []
split sep (c ∷ s) =
    let pieces = split sep s in if nat_eq c sep then [] ∷ pieces else extend c pieces

abbrev pub between : ℕ → ℕ → ℕ → Bool
between lo hi c = leb lo c && leb c hi

abbrev pub alphanumeric : ℕ → Bool
alphanumeric c = between b'a' b'z' c || between b'A' b'Z' c || between b'0' b'9' c

-- `[a-zA-Z0-9-_]`
unfoldable pub name_char : ℕ → Bool
name_char c = alphanumeric c || nat_eq c b'-' || nat_eq c b'_'

-- `[a-zA-Z0-9.]`
unfoldable pub version_char : ℕ → Bool
version_char c = alphanumeric c || nat_eq c b'.'

abbrev pub all_in : (ℕ → Bool) → List ℕ → Bool
all_in p [] = true
all_in p (c ∷ s) = p c && all_in p s

-- `MatchString` of `^[…]+$`
unfoldable pub matches : (ℕ → Bool) → List ℕ → Bool
matches p [] = false
matches p (c ∷ s) = p c && all_in p s

-- The body of the loop over `n.Spec.Packages`: false where it returns the error. `Split` never
-- returns an empty slice.
unfoldable pub valid_parts : List (List ℕ) → Bool
unfolding matches name_char version_char
valid_parts [] = false
valid_parts (name ∷ []) = matches name_char name
valid_parts (name ∷ version ∷ []) = matches name_char name && matches version_char version
valid_parts (name ∷ version ∷ more ∷ rest) = false

unfoldable pub valid_package : String → Bool
unfolding valid_parts split
valid_package p = valid_parts (split b'=' (codes p))
