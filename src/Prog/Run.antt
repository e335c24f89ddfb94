-- ===== src/Prog/Run.antt =====
-- Running one program from start to end, with nothing in between.
use jupyter_operator.Common.{◌≡◌, refl}
use jupyter_operator.Prog.{Outcome, value, panics, with_value, Prog, ret, crash, act, ◌>>=◌}

module _ {W : Type 0} where
  abbrev pub run : {A : Type 0} → Prog W A → W → Outcome A × W
  run (ret a) w = (value a, w)
  run (crash reason) w = (panics reason, w)
  run (act k u) w = run (k w) (u w)

  -- The rest of a run, once its first part has an outcome.
  abbrev pub continue : {A B : Type 0} → Outcome A × W → (A → Prog W B) → Outcome B × W
  continue (value a, w) f = run (f a) w
  continue (panics reason, w) f = (panics reason, w)

  pub run-bind :
      {A B : Type 0} (m : Prog W A) (f : A → Prog W B) (w : W)
      → run (m >>= f) w ≡ continue (run m w) f
  run-bind (ret a) f w = refl
  run-bind (crash reason) f w = refl
  run-bind (act k u) f w = run-bind (k w) f (u w)

pub with_value-eq-value {ℓ κ} :
    {A : Type ℓ} {B : Type κ} (o : Outcome A) (f : A → B) {b : B}
    → with_value o f ≡ value b
    → (a : A) × (o ≡ value a) × (value (f a) ≡ value b)
with_value-eq-value (value a) f e = (a, refl, e)
with_value-eq-value (panics reason) f e = cc
