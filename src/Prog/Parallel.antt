-- ===== src/Prog/Parallel.antt =====
-- Goroutines: every interleaving of the atomic steps of several programs.
--
-- A schedule says for each step which side moves. A theorem for every schedule is one for every
-- interleaving. The result comes when both sides have returned, as after `wg.Wait()`; a panic of
-- one side ends the process.
use jupyter_operator.Common.{ℕ, suc, Bool, List, [], ◌∷◌, if◌then◌else◌}
use jupyter_operator.Prog.{Prog, ret, crash, act, ◌>>=◌}

abbrev pub Schedule : Type 0
Schedule = ℕ → Bool

abbrev pub later : Schedule → Schedule
later s i = s (suc i)

module _ {W A B : Type 0} where
  unfoldable pub par : Schedule → Prog W A → Prog W B → Prog W (A × B)
  par s (ret a) (ret b) = ret (a, b)
  par s (ret a) (crash reason) = crash reason
  par s (ret a) (act l v) = act (λ w. par s (ret a) (l w)) v
  par s (crash reason) (ret b) = crash reason
  par s (crash reason) (crash other) = if s 0 then crash reason else crash other
  par s (crash reason) (act l v) =
      if s 0 then crash reason else act (λ w. par (later s) (crash reason) (l w)) v
  par s (act k u) (ret b) = act (λ w. par s (k w) (ret b)) u
  par s (act k u) (crash reason) =
      if s 0 then act (λ w. par (later s) (k w) (crash reason)) u else crash reason
  par s (act k u) (act l v) =
      if s 0
      then act (λ w. par (later s) (k w) (act l v)) u
      else act (λ w. par (later s) (act k u) (l w)) v

module _ {W A : Type 0} where
  -- One schedule for each goroutine against those after it.
  unfoldable pub par_all : (ℕ → Schedule) → List (Prog W A) → Prog W (List A)
  par_all s [] = ret []
  par_all s (p ∷ ps) = do (a, rest) ← par (s 0) p (par_all (λ i. s (suc i)) ps); ret (a ∷ rest)
