-- ===== src/Controller/Errors.antt =====
-- `joinErrors` of pkg/controller/handlers.go.
pub mod Laws
use jupyter_operator.Common.{
  String, Bool, true, false, concat, Option, none, some, List, [], ◌∷◌, ◌||◌, if◌then◌else◌,
}
use jupyter_operator.Kube.{Error, new_error}

-- The loop over `ignore`.
unfoldable pub ignored : List (Error → Bool) → Error → Bool
ignored [] e = false
ignored (ignore ∷ rest) e = ignore e || ignored rest e

-- `filteredErrs`
unfoldable pub filtered_errors : List (Error → Bool) → List (Option Error) → List String
filtered_errors ignore [] = []
filtered_errors ignore (none ∷ errs) = filtered_errors ignore errs
filtered_errors ignore (some e ∷ errs) =
    let rest = filtered_errors ignore errs in if ignored ignore e then rest else e.text ∷ rest

-- strings.Join(texts, "; ")
unfoldable pub join_texts : List String → String
join_texts [] = ""
join_texts (text ∷ []) = text
join_texts (text ∷ next ∷ rest) = concat text (concat "; " (join_texts (next ∷ rest)))

abbrev pub error_of : List String → Option Error
error_of [] = none
error_of (text ∷ texts) = some (new_error (join_texts (text ∷ texts)))

unfoldable pub join_errors : List (Option Error) → List (Error → Bool) → Option Error
join_errors errs ignore = error_of (filtered_errors ignore errs)
