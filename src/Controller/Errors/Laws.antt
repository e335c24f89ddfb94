-- ===== src/Controller/Errors/Laws.antt =====
-- When `joinErrors` returns no error.
use mathlib.Core.Bool.{false≢true}
use jupyter_operator.Common.{
  String, Bool, true, Option, none, some, List, [], ◌∷◌, ◌≡◌, refl, ◌↔◌, All, Bool-cases, inl, inr,
  ◌⊎◌,
}
use jupyter_operator.Kube.{Error}
use jupyter_operator.Controller.Errors.{ignored, filtered_errors, error_of, join_errors}

-- One of the predicates holds of the error.
abbrev pub AnyOf : Error → List (Error → Bool) → Type 0
AnyOf e [] = ⊥
AnyOf e (ignores ∷ rest) = (ignores e ≡ true) ⊎ AnyOf e rest

ignored-AnyOf :
    (ignore : List (Error → Bool)) (e : Error) → ignored ignore e ≡ true → AnyOf e ignore
unfolding ignored
ignored-AnyOf [] e h = absurd (false≢true h)
ignored-AnyOf (ignores ∷ rest) e h = elim (Bool-cases (ignores e)) [
  | inl yes' ↦ inl yes'
  | inr no' ↦ inr (ignored-AnyOf rest e (rw no' at h))
]

AnyOf-ignored :
    (ignore : List (Error → Bool)) (e : Error) → AnyOf e ignore → ignored ignore e ≡ true
unfolding ignored
AnyOf-ignored [] e h = absurd h
AnyOf-ignored (ignores ∷ rest) e (inl h) = rw h
AnyOf-ignored (ignores ∷ rest) e (inr h) = elim (Bool-cases (ignores e)) [
  | inl yes' ↦ rw yes'
  | inr no' ↦ rw no' (AnyOf-ignored rest e h)
]

module _ (ignore : List (Error → Bool)) where
  -- No error, or one of which some predicate holds.
  abbrev pub IsHarmless : Option Error → Type 0
  IsHarmless none = Unit
  IsHarmless (some e) = AnyOf e ignore

  filtered_errors_sound :
      (errs : List (Option Error)) → filtered_errors ignore errs ≡ [] → All IsHarmless errs
  unfolding filtered_errors
  filtered_errors_sound [] h = tt
  filtered_errors_sound (none ∷ errs) h = (tt, filtered_errors_sound errs h)
  filtered_errors_sound (some e ∷ errs) h = elim (Bool-cases (ignored ignore e)) [
    | inl yes' ↦ (ignored-AnyOf ignore e yes', filtered_errors_sound errs (rw yes' at h))
    | inr no' ↦ absurd (let h' = rw no' at h in cc)
  ]

  filtered_errors_complete :
      (errs : List (Option Error)) → All IsHarmless errs → filtered_errors ignore errs ≡ []
  unfolding filtered_errors
  filtered_errors_complete [] h = refl
  filtered_errors_complete (none ∷ errs) (h, hs) = filtered_errors_complete errs hs
  filtered_errors_complete (some e ∷ errs) (h, hs) =
      rw (AnyOf-ignored ignore e h) (filtered_errors_complete errs hs)

  error_of-none : (texts : List String) → error_of texts ≡ none → texts ≡ []
  error_of-none [] h = refl
  error_of-none (text ∷ texts) h = cc

  -- `joinErrors` returns nil exactly when each error is nil or one of the given predicates
  -- holds of it.
  pub join_errors-none_iff :
      (errs : List (Option Error)) → (join_errors errs ignore ≡ none) ↔ All IsHarmless errs
  unfolding join_errors
  join_errors-none_iff errs = (
    λ h. filtered_errors_sound errs (error_of-none _ h),
    λ h. rw (filtered_errors_complete errs h),
  )
