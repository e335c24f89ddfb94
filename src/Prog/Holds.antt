-- ===== src/Prog/Holds.antt =====
-- What every execution of a program meets, whatever else changes the world between its steps.
--
-- `Holds G C Q p`: each step of `p` changes the world as the guarantee `G` allows, `p` panics only
-- where `C`, and what it returns satisfies `Q`. The world before each step is any world at all, so
-- such a statement is kept by interleaving with other goroutines.
use jupyter_operator.Common.{ℕ, suc, Bool, true, false, List, [], ◌∷◌, if◌then◌else◌}
use jupyter_operator.Prog.{Outcome, value, panics, Prog, ret, crash, act, ◌>>=◌}
use jupyter_operator.Prog.Run.{run}
use jupyter_operator.Prog.Parallel.{Schedule, later, par, par_all}

-- No statement about a result.
abbrev pub Anything : {A : Type 0} → A → Type 0
Anything a = Unit {0}

module _ {W : Type 0} (G : W → W → Type 0) (C : Type 0) where
  abbrev pub Holds : {A : Type 0} → (A → Type 0) → Prog W A → Type 0
  Holds Q (ret a) = Q a
  Holds Q (crash reason) = C
  Holds Q (act k u) = (w : W) → G w (u w) × Holds Q (k w)

  pub Holds-bind :
      {A B : Type 0} (Q : A → Type 0) (R : B → Type 0) (m : Prog W A) (f : A → Prog W B)
      → Holds Q m
      → ((a : A) → Q a → Holds R (f a))
      → Holds R (m >>= f)
  Holds-bind Q R (ret a) f h k = k a h
  Holds-bind Q R (crash reason) f h k = h
  Holds-bind Q R (act next u) f h k = λ w. ((h w).0, Holds-bind Q R (next w) f (h w).1 k)

  pub Holds-weaken :
      {A : Type 0} (Q R : A → Type 0) (m : Prog W A) → Holds Q m → ((a : A) → Q a → R a) → Holds R m
  Holds-weaken Q R (ret a) h k = k a h
  Holds-weaken Q R (crash reason) h k = h
  Holds-weaken Q R (act next u) h k = λ w. ((h w).0, Holds-weaken Q R (next w) (h w).1 k)

  Holds-if :
      {A : Type 0} (Q : A → Type 0) (b : Bool) (p q : Prog W A)
      → Holds Q p
      → Holds Q q
      → Holds Q (if b then p else q)
  Holds-if Q true p q h k = h
  Holds-if Q false p q h k = k

  module _ {A B : Type 0} (Q : A → Type 0) (R : B → Type 0) where
    -- Two goroutines, under any schedule.
    pub Holds-par :
        (s : Schedule) (p : Prog W A) (q : Prog W B)
        → Holds Q p
        → Holds R q
        → Holds (λ ab. Q ab.0 × R ab.1) (par s p q)
    unfolding par
    Holds-par s (ret a) (ret b) h k = (h, k)
    Holds-par s (ret a) (crash reason) h k = k
    Holds-par s (ret a) (act l v) h k = λ w. ((k w).0, Holds-par s (ret a) (l w) h (k w).1)
    Holds-par s (crash reason) (ret b) h k = h
    Holds-par s (crash reason) (crash other) h k = Holds-if _ (s 0) (crash _) (crash _) h k
    Holds-par s (crash reason) (act l v) h k =
        Holds-if _ (s 0) (crash reason) (act (λ w. par (later s) (crash reason) (l w)) v) h
          (λ w. ((k w).0, Holds-par (later s) (crash reason) (l w) h (k w).1))
    Holds-par s (act next u) (ret b) h k = λ w. ((h w).0, Holds-par s (next w) (ret b) (h w).1 k)
    Holds-par s (act next u) (crash reason) h k =
        Holds-if _ (s 0) (act (λ w. par (later s) (next w) (crash reason)) u) (crash reason)
          (λ w. ((h w).0, Holds-par (later s) (next w) (crash reason) (h w).1 k)) k
    Holds-par s (act next u) (act l v) h k =
        Holds-if _ (s 0) (act (λ w. par (later s) (next w) (act l v)) u)
          (act (λ w. par (later s) (act next u) (l w)) v)
          (λ w. ((h w).0, Holds-par (later s) (next w) (act l v) (h w).1 k))
          (λ w. ((k w).0, Holds-par (later s) (act next u) (l w) h (k w).1))

  -- A statement about each program of a list, and about each result.
  abbrev pub Each : {A : Type 0} → List (A → Type 0) → List (Prog W A) → Type 0
  Each [] [] = Unit
  Each (Q ∷ Qs) (p ∷ ps) = Holds Q p × Each Qs ps
  Each [] (p ∷ ps) = ⊥
  Each (Q ∷ Qs) [] = ⊥

  abbrev pub Results : {A : Type 0} → List (A → Type 0) → List A → Type 0
  Results [] [] = Unit
  Results (Q ∷ Qs) (a ∷ rest) = Q a × Results Qs rest
  Results [] (a ∷ rest) = ⊥
  Results (Q ∷ Qs) [] = ⊥

  -- Any number of goroutines, under any schedules.
  pub Holds-par_all :
      {A : Type 0} (Qs : List (A → Type 0)) (s : ℕ → Schedule) (ps : List (Prog W A))
      → Each Qs ps
      → Holds (Results Qs) (par_all s ps)
  unfolding par_all
  Holds-par_all [] s [] h = tt
  Holds-par_all (Q ∷ Qs) s (p ∷ ps) (h, hs) =
      Holds-bind _ _ (par (s 0) p (par_all (λ i. s (suc i)) ps)) _
        (Holds-par Q (Results Qs) (s 0) p (par_all (λ i. s (suc i)) ps) h
          (Holds-par_all Qs (λ i. s (suc i)) ps hs))
        (λ ab both. both)
  Holds-par_all [] s (p ∷ ps) h = absurd h
  Holds-par_all (Q ∷ Qs) s [] h = absurd h

-- With nothing in between, what holds of every execution holds of the run.
module _ {W A : Type 0} (G : W → W → Type 0) (C : Type 0) (Q : A → Type 0) where
  abbrev pub Outcomes : Outcome A → Type 0
  Outcomes (value a) = Q a
  Outcomes (panics reason) = C

  pub Holds-run : (p : Prog W A) (w : W) → Holds G C Q p → Outcomes (run p w).0
  Holds-run (ret a) w h = h
  Holds-run (crash reason) w h = h
  Holds-run (act k u) w h = Holds-run (k w) (u w) (h w).1

-- A run changes the world as the guarantee allows.
pub Holds-run-related :
    {W A : Type 0} (G : W → W → Type 0) (C : Type 0) (Q : A → Type 0)
    → ((w : W) → G w w)
    → ((a b d : W) → G a b → G b d → G a d)
    → (p : Prog W A) (w : W) → Holds G C Q p
    → G w (run p w).1
Holds-run-related G C Q same chain (ret a) w h = same w
Holds-run-related G C Q same chain (crash reason) w h = same w
Holds-run-related G C Q same chain (act k u) w h =
    chain w (u w) (run (k w) (u w)).1 (h w).0
      (Holds-run-related G C Q same chain (k w) (u w) (h w).1)
