-- ===== src/Controller/Crd/Laws.antt =====
-- What `initCRD` has made sure of when it succeeds.
use jupyter_operator.Common.{true, eq_iff, List, [], ◌∷◌, ◌≡◌, arith, ◌⊎◌, ◌↔◌}
use jupyter_operator.Controller.Crd.{Condition, established}

abbrev pub IsEstablished : Condition → Type 0
IsEstablished cond = (cond.type ≡ "Established") × (cond.status ≡ "True")

abbrev pub SomeEstablished : List Condition → Type 0
SomeEstablished [] = ⊥
SomeEstablished (cond ∷ conds) = IsEstablished cond ⊎ SomeEstablished conds

-- The loop finds a condition "Established" with status "True" exactly when there is one.
pub established_iff : (conds : List Condition) → (established conds ≡ true) ↔ SomeEstablished conds
unfolding established
established_iff [] = (λ h. cc, λ h. absurd h)
established_iff (cond ∷ conds) = (
  λ h.
      ground (
        arith,
        eq_iff cond.type "Established",
        eq_iff cond.status "True",
        (established_iff conds).0,
      ),
  λ h.
      ground (
        arith,
        eq_iff cond.type "Established",
        eq_iff cond.status "True",
        (established_iff conds).1,
      ),
)
