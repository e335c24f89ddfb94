-- ===== src/Types/Validate/Grammar.antt =====
-- What a package of a notebook's spec may look like, said without splitting, and that the check of
-- one package decides it.
use jupyter_operator.Common.{
  ℕ, String, Bool, true, false, List, [], ◌∷◌, ◌++◌, ◌≡◌, ◌≢◌, refl, sym, ap, ◌∙◌, ◌⊎◌, inl, inr,
  ◌↔◌, arith, nat_eq, ◌≤◌, All,
}
use jupyter_operator.Types.Packages.{
  codes, extend, split, name_char, version_char, all_in, matches, valid_parts, valid_package,
}

-- A letter of a to z or A to Z, or a digit.
abbrev pub IsAlphanumeric : ℕ → Type 0
IsAlphanumeric c =
    ((b'a' ≤ c) × (c ≤ b'z')) ⊎ (((b'A' ≤ c) × (c ≤ b'Z')) ⊎ ((b'0' ≤ c) × (c ≤ b'9')))

abbrev pub IsNameChar : ℕ → Type 0
IsNameChar c = IsAlphanumeric c ⊎ ((c ≡ b'-') ⊎ (c ≡ b'_'))

abbrev pub IsVersionChar : ℕ → Type 0
IsVersionChar c = IsAlphanumeric c ⊎ (c ≡ b'.')

-- A text of at least one character, all of one kind.
abbrev pub IsWord : (ℕ → Type 0) → List ℕ → Type 0
IsWord P s = (s ≢ []) × All P s

-- "package" or "package=version".
abbrev pub IsPackage : List ℕ → Type 0
IsPackage p =
    IsWord IsNameChar p
    ⊎ ((name : List ℕ) × (version : List ℕ) × (p ≡ name ++ b'=' ∷ version)
        × IsWord IsNameChar name
        × IsWord IsVersionChar version)

name_char_iff : (c : ℕ) → (name_char c ≡ true) ↔ IsNameChar c
unfolding name_char
name_char_iff c = (λ h. ground arith, λ h. ground arith)

version_char_iff : (c : ℕ) → (version_char c ≡ true) ↔ IsVersionChar c
unfolding version_char
version_char_iff c = (λ h. ground arith, λ h. ground arith)

module _ {P : ℕ → Type 0} {p : ℕ → Bool} (p_iff : (c : ℕ) → (p c ≡ true) ↔ P c) where
  all_in_sound : (s : List ℕ) → all_in p s ≡ true → All P s
  all_in_sound [] h = tt
  all_in_sound (c ∷ s) h = ((p_iff c).0 (ground arith), all_in_sound s (ground arith))

  all_in_complete : (s : List ℕ) → All P s → all_in p s ≡ true
  all_in_complete [] h = refl
  all_in_complete (c ∷ s) (h, hs) = rw ((p_iff c).1 h, all_in_complete s hs)

  matches_iff : (s : List ℕ) → (matches p s ≡ true) ↔ IsWord P s
  unfolding matches
  matches_iff [] = (λ h. cc, λ h. absurd (h.0 refl))
  matches_iff (c ∷ s) = (λ h. (λ e. cc, all_in_sound (c ∷ s) h), λ h. all_in_complete (c ∷ s) h.1)

-- A text without the separator is its own only piece.
split_free : (sep : ℕ) (s : List ℕ) → All (λ c. nat_eq c sep ≡ false) s → split sep s ≡ s ∷ []
unfolding split
split_free sep [] h = refl
split_free sep (c ∷ s) (h, hs) = rw (h, split_free sep s hs)

split_once :
    (sep : ℕ) (s t : List ℕ)
    → nat_eq sep sep ≡ true
    → All (λ c. nat_eq c sep ≡ false) s
    → All (λ c. nat_eq c sep ≡ false) t
    → split sep (s ++ sep ∷ t) ≡ s ∷ t ∷ []
unfolding split
split_once sep [] t r h ht = rw (r, split_free sep t ht)
split_once sep (c ∷ s) t r (h, hs) ht = rw (h, split_once sep s t r hs ht)

-- The text that the pieces came from.
join : ℕ → List (List ℕ) → List ℕ
join sep [] = []
join sep (piece ∷ []) = piece
join sep (piece ∷ next ∷ pieces) = piece ++ sep ∷ join sep (next ∷ pieces)

split-ne-nil : (sep : ℕ) (s : List ℕ) → split sep s ≢ []
unfolding split
split-ne-nil sep [] = cc
split-ne-nil sep (c ∷ s) = extended (split sep s)
  where
    extended : (pieces : List (List ℕ)) → split sep (c ∷ s) ≢ []
    extended pieces = ground arith

join-extend :
    (sep c : ℕ) (pieces : List (List ℕ))
    → pieces ≢ []
    → join sep (extend c pieces) ≡ c ∷ join sep pieces
unfolding join
join-extend sep c [] h = absurd (h refl)
join-extend sep c (piece ∷ []) h = refl
join-extend sep c (piece ∷ next ∷ pieces) h = refl

join-cons_nil :
    (sep : ℕ) (pieces : List (List ℕ))
    → pieces ≢ []
    → join sep ([] ∷ pieces) ≡ sep ∷ join sep pieces
unfolding join
join-cons_nil sep [] h = absurd (h refl)
join-cons_nil sep (piece ∷ pieces) h = refl

join-split : (sep : ℕ) (s : List ℕ) → join sep (split sep s) ≡ s
unfolding split
join-split sep [] = unfold join in refl
join-split sep (c ∷ s) = ground (
  arith,
  join-split sep s,
  split-ne-nil sep s,
  join-extend sep c (split sep s),
  join-cons_nil sep (split sep s),
)

module _ (s : List ℕ) where
  -- The two forms that pass.
  valid_parts_sound :
      (pieces : List (List ℕ)) → split b'=' s ≡ pieces → valid_parts pieces ≡ true → IsPackage s
  unfolding valid_parts join
  valid_parts_sound [] e h = cc
  valid_parts_sound (name ∷ []) e h =
      let whole : s ≡ name = sym (join-split b'=' s) ∙ ap (join b'=') e in
      inl (rw whole ((matches_iff name_char_iff name).0 h))
  valid_parts_sound (name ∷ version ∷ []) e h = inr (
    name,
    version,
    sym (join-split b'=' s) ∙ ap (join b'=') e,
    (matches_iff name_char_iff name).0 (ground arith),
    (matches_iff version_char_iff version).0 (ground arith),
  )
  valid_parts_sound (name ∷ version ∷ more ∷ rest) e h = cc

name_free : (s : List ℕ) → All IsNameChar s → All (λ c. nat_eq c b'=' ≡ false) s
name_free [] h = tt
name_free (c ∷ s) (h, hs) = (ground arith, name_free s hs)

version_free : (s : List ℕ) → All IsVersionChar s → All (λ c. nat_eq c b'=' ≡ false) s
version_free [] h = tt
version_free (c ∷ s) (h, hs) = (ground arith, version_free s hs)

valid_parts_complete : (s : List ℕ) → IsPackage s → valid_parts (split b'=' s) ≡ true
unfolding valid_parts
valid_parts_complete s (inl name) =
    rw (split_free b'=' s (name_free s name.1)) ((matches_iff name_char_iff s).1 name)
valid_parts_complete s (inr (name, version, e, hn, hv)) =
    rw (e, split_once b'=' name version refl (name_free name hn.1) (version_free version hv.1))
      (rw ((matches_iff name_char_iff name).1 hn) ((matches_iff version_char_iff version).1 hv))

-- The check of one package passes exactly the texts "package" and "package=version", where a name
-- is one or more letters, digits, dashes or underscores and a version is one or more letters, digits
-- or dots.
pub valid_package_iff : (p : String) → (valid_package p ≡ true) ↔ IsPackage (codes p)
unfolding valid_package
valid_package_iff p =
    (λ h. valid_parts_sound (codes p) (split b'=' (codes p)) refl h, valid_parts_complete (codes p))
