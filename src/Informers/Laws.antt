-- ===== src/Informers/Laws.antt =====
-- Informers are shared, and each is started once.
use mathlib.Core.Path.{subst}
use jupyter_operator.Common.{
  sym, ℕ, String, Bool, true, false, ◌==◌, Option, none, some, List, [], ◌∷◌, ◌≡◌, refl, ap, ◌∙◌,
  lookup, insert, lookup-insert, lookup-insert_self, All, Bool-cases, inl, inr,
}
use jupyter_operator.Informers.{
  Factory, or_false, reuse, is_started, start_each, start, add_informer, informer_for,
}

is_started-insert_self :
    (k : String) (m : List (String × Bool)) → is_started k (insert k true m) ≡ true
is_started-insert_self k m = ap or_false (lookup-insert_self k true m)

is_started-insert :
    (k type : String) (m : List (String × Bool))
    → is_started k m ≡ true
    → is_started k (insert type true m) ≡ true
is_started-insert k type m h =
    ap or_false (lookup-insert type k true m)
    ∙ elim (Bool-cases (type == k)) [ inl same ↦ rw same | inr other ↦ rw other h ]

module _ {Informer : Type 0} where
  -- What was started stays so.
  is_started-start_each :
      (k : String) (l : List (String × Informer)) (m : List (String × Bool))
      → is_started k m ≡ true
      → is_started k (start_each l m).1 ≡ true
  unfolding start_each
  is_started-start_each k [] m h = h
  is_started-start_each k ((type, informer) ∷ rest) m h = elim (Bool-cases (is_started type m)) [
    | inl yes' ↦ rw yes' (is_started-start_each k rest m h)
    | inr no' ↦
        rw no' (is_started-start_each k rest (insert type true m) (is_started-insert k type m h))
  ]

  abbrev AllStarted : List (String × Bool) → List (String × Informer) → Type 0
  AllStarted m l = All (λ (e : String × Informer). is_started e.0 m ≡ true) l

  -- The map after one round of the loop and the rest.
  start_each_skip :
      (type : String) (informer : Informer) (rest : List (String × Informer))
      (m : List (String × Bool))
      → is_started type m ≡ true
      → (start_each ((type, informer) ∷ rest) m).1 ≡ (start_each rest m).1
  unfolding start_each
  start_each_skip type informer rest m h = rw h

  start_each_run :
      (type : String) (informer : Informer) (rest : List (String × Informer))
      (m : List (String × Bool))
      → is_started type m ≡ false
      → (start_each ((type, informer) ∷ rest) m).1 ≡ (start_each rest (insert type true m)).1
  unfolding start_each
  start_each_run type informer rest m h = rw h

  start_each-AllStarted :
      (l : List (String × Informer)) (m : List (String × Bool)) → AllStarted (start_each l m).1 l
  start_each-AllStarted [] m = tt
  start_each-AllStarted ((type, informer) ∷ rest) m = elim (Bool-cases (is_started type m)) [
    | inl yes' ↦
        subst (λ m'. AllStarted m' ((type, informer) ∷ rest))
          (sym (start_each_skip type informer rest m yes'))
          (is_started-start_each type rest m yes', start_each-AllStarted rest m)
    | inr no' ↦
        subst (λ m'. AllStarted m' ((type, informer) ∷ rest))
          (sym (start_each_run type informer rest m no'))
          (
            is_started-start_each type rest (insert type true m) (is_started-insert_self type m),
            start_each-AllStarted rest (insert type true m),
          )
  ]

  start_each_again :
      (l : List (String × Informer)) (m : List (String × Bool))
      → AllStarted m l
      → start_each l m ≡ ([], m)
  unfolding start_each
  start_each_again [] m h = refl
  start_each_again ((type, informer) ∷ rest) m (h, hs) = rw h (start_each_again rest m hs)

module _ {Client Informer Tweak : Type 0} where
  -- After `Start`, another `Start` runs no informer and leaves the factory as it is.
  pub start_again :
      (factory : Factory Client Informer Tweak) → start (start factory).1 ≡ ([], (start factory).1)
  unfolding start
  start_again factory =
      let m = (start_each factory.informers factory.started_informers).1 in
      ap
        (λ (done : List Informer × List (String × Bool)).
          (done.0, record factory { started_informers = done.1 }))
        (start_each_again factory.informers m
          (start_each-AllStarted factory.informers factory.started_informers))

  reuse-known :
      (type : String) (new_func other : Client → ℕ → Informer)
      (factory : Factory Client Informer Tweak) (known : Option Informer)
      → lookup type factory.informers ≡ known
      → lookup type (reuse type new_func factory known).1.informers
        ≡ some (reuse type new_func factory known).0
  unfolding reuse add_informer
  reuse-known type new_func other factory (some informer) e = e
  reuse-known type new_func other factory none e = lookup-insert_self type _ factory.informers

  -- Once `InformerFor` has been asked for a type, it gives the same informer for it again, whatever
  -- constructor it is given then, and leaves the factory as it is.
  pub informer_for_again :
      (type : String) (new_func other : Client → ℕ → Informer)
      (factory : Factory Client Informer Tweak)
      → informer_for type other (informer_for type new_func factory).1
        ≡ informer_for type new_func factory
  unfolding informer_for
  informer_for_again type new_func other factory =
      ap (reuse type other (informer_for type new_func factory).1)
        (reuse-known type new_func other factory (lookup type factory.informers) refl)
      ∙ unfold reuse in refl
