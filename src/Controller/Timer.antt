-- ===== src/Controller/Timer.antt =====
-- `stopableTimer` of pkg/controller/controller.go: a channel that is closed after a duration or once
-- `stop` is closed, as the steps of its goroutine and of the rest of the program.
pub mod Laws
use jupyter_operator.Common.{Bool, true, false, ◌≡◌}

-- Where the goroutine is: at its `select`, about to run the deferred `close(c)`, or at its end.
pub data Stage : Type 0 where
  selecting returning ended : Stage

-- `elapsed`: the timer's channel has its value. `armed`: the timer was not stopped. `stopped`: `stop` is
-- closed. `closed`: so is `c`.
pub record Timer : Type 0 where
  pub elapsed : Bool
  pub armed : Bool
  pub stopped : Bool
  pub stage : Stage
  pub closed : Bool

-- After `stopableTimer` has returned.
abbrev pub started : Timer
started = record {
  elapsed = false;
  armed = true;
  stopped = false;
  stage = selecting;
  closed = false;
}

-- The steps of the goroutine.
pub data OwnStep : Timer → Timer → Type 0 where
  -- `case <-t.C: return`
  take_timer :
      (t : Timer)
      → t.stage ≡ selecting
      → t.elapsed ≡ true
      → OwnStep t (record t { stage = returning })
  -- `case <-stop: t.Stop(); return`
  take_stop :
      (t : Timer)
      → t.stage ≡ selecting
      → t.stopped ≡ true
      → OwnStep t (record t { armed = false; stage = returning })
  -- `defer close(c)`
  close : (t : Timer) → t.stage ≡ returning → OwnStep t (record t { stage = ended; closed = true })

-- The duration passes, `stop` is closed, or the goroutine moves.
pub data Step : Timer → Timer → Type 0 where
  fire : (t : Timer) → t.armed ≡ true → Step t (record t { elapsed = true })
  stop : (t : Timer) → Step t (record t { stopped = true })
  own : {t u : Timer} → OwnStep t u → Step t u

pub data Reach (s : Timer) : Timer → Type 0 where
  here : Reach s s
  next : {t u : Timer} → Reach s t → Step t u → Reach s u

-- Steps of the goroutine alone.
pub data OwnSteps (s : Timer) : Timer → Type 0 where
  done : OwnSteps s s
  more : {t u : Timer} → OwnSteps s t → OwnStep t u → OwnSteps s u
