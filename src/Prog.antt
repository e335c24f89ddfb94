-- ===== src/Prog.antt =====
-- Go code with effects, as trees of atomic steps.
--
-- `W` is all that the code shares with the world: the API server, the informers' caches, the clock.
-- One `act` is one call into it, so two goroutines interleave between their `act`s. `crash` is a
-- panic of the process.
pub mod Run
pub mod Holds
pub mod Parallel
use jupyter_operator.Common.{String, Bool, true, false, Option, none, some, List, [], ◌∷◌, ℕ, suc}

-- A pure Go expression that may panic.
pub data Outcome {ℓ} (A : Type ℓ) : Type ℓ where
  value : A → Outcome A
  panics : String → Outcome A

-- What the rest of a function does with a calculated object, unless the calculation panics.
abbrev pub with_value {ℓ κ} : {A : Type ℓ} {B : Type κ} → Outcome A → (A → B) → Outcome B
with_value (value a) f = value (f a)
with_value (panics reason) f = panics reason

pub data Prog (W A : Type 0) : Type 0 where
  ret : A → Prog W A
  crash : String → Prog W A
  act : (W → Prog W A) → (W → W) → Prog W A

module _ {W : Type 0} where
  -- One call: its result and the world after it.
  abbrev pub call : {A : Type 0} → (W → A × W) → Prog W A
  call f = act (λ w. ret (f w).0) (λ w. (f w).1)

  -- A call that only reads.
  abbrev pub read : {A : Type 0} → (W → A) → Prog W A
  read f = act (λ w. ret (f w)) (λ w. w)

  abbrev pub lift : {A : Type 0} → Outcome A → Prog W A
  lift (value a) = ret a
  lift (panics reason) = crash reason

  infixl 5 ◌>>=◌ ◌>>◌
  abbrev pub ◌>>=◌ : {A B : Type 0} → Prog W A → (A → Prog W B) → Prog W B
  ret a >>= f = f a
  crash reason >>= f = crash reason
  act k u >>= f = act (λ w. k w >>= f) u

  abbrev pub ◌>>◌ : {A B : Type 0} → Prog W A → Prog W B → Prog W B
  m >> n = m >>= λ _. n
