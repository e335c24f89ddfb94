-- ===== src/Controller/Timer/Laws.antt =====
-- When the channel of `stopableTimer` of pkg/controller/controller.go is closed.
use mathlib.Core.Path.{subst}
use jupyter_operator.Common.{
  true, false, ◌||◌, ◌≡◌, refl, sym, ◌∙◌, ◌↔◌, inl, inr, Bool-cases, arith,
}
use jupyter_operator.Controller.Timer.{
  Stage, selecting, returning, ended, Timer, started, OwnStep, take_timer, take_stop, close, Step,
  fire, stop, own, Reach, here, next, OwnSteps, done, more,
}

-- What is so at each stage: `c` is closed at the end only, and the goroutine has left its `select` only
-- for a reason.
abbrev AtStage : Stage → Timer → Type 0
AtStage selecting t = t.closed ≡ false
AtStage returning t = (t.closed ≡ false) × ((t.elapsed || t.stopped) ≡ true)
AtStage ended t = (t.closed ≡ true) × ((t.elapsed || t.stopped) ≡ true)

IsSound : Timer → Type 0
IsSound t = AtStage t.stage t

OwnStep-IsSound : {t u : Timer} → OwnStep t u → IsSound t → IsSound u
unfolding IsSound
OwnStep-IsSound (take_timer t at e) h = (subst (λ s. AtStage s t) at h, rw e refl)
OwnStep-IsSound (take_stop t at e) h = (subst (λ s. AtStage s t) at h, ground arith)
OwnStep-IsSound (close t at) h = (refl, (subst (λ s. AtStage s t) at h).1)

-- What the duration and `stop` add to a reason leaves it one.
later-AtStage :
    (s : Stage) (t u : Timer)
    → u.closed ≡ t.closed
    → ((t.elapsed || t.stopped) ≡ true → (u.elapsed || u.stopped) ≡ true)
    → AtStage s t
    → AtStage s u
later-AtStage selecting t u same reason h = same ∙ h
later-AtStage returning t u same reason (h, k) = (same ∙ h, reason k)
later-AtStage ended t u same reason (h, k) = (same ∙ h, reason k)

Step-IsSound : {t u : Timer} → Step t u → IsSound t → IsSound u
unfolding IsSound
Step-IsSound (fire t at) h =
    later-AtStage t.stage t (record t { elapsed = true }) refl (λ e. refl) h
Step-IsSound (stop t) h =
    later-AtStage t.stage t (record t { stopped = true }) refl (λ e. ground arith) h
Step-IsSound (own step) h = OwnStep-IsSound step h

Reach-IsSound : {t : Timer} → Reach started t → IsSound t
unfolding IsSound
Reach-IsSound here = refl
Reach-IsSound (next r step) = Step-IsSound step (Reach-IsSound r)

OwnSteps-IsSound : {t u : Timer} → OwnSteps t u → IsSound t → IsSound u
OwnSteps-IsSound done h = h
OwnSteps-IsSound (more steps step) h = OwnStep-IsSound step (OwnSteps-IsSound steps h)

-- The goroutine changes neither the time nor `stop`.
OwnStep-reason : {t u : Timer} → OwnStep t u → (u.elapsed || u.stopped) ≡ (t.elapsed || t.stopped)
OwnStep-reason (take_timer t at e) = refl
OwnStep-reason (take_stop t at e) = refl
OwnStep-reason (close t at) = refl

OwnSteps-reason : {t u : Timer} → OwnSteps t u → (u.elapsed || u.stopped) ≡ (t.elapsed || t.stopped)
OwnSteps-reason done = refl
OwnSteps-reason (more steps step) = OwnStep-reason step ∙ OwnSteps-reason steps

closed_reason :
    (s : Stage) (t : Timer) → AtStage s t → t.closed ≡ true → (t.elapsed || t.stopped) ≡ true
closed_reason selecting t h e = cc
closed_reason returning t (h, k) e = k
closed_reason ended t (h, k) e = k

-- The goroutine can close the channel by itself.
abbrev pub CanClose : Timer → Type 0
CanClose t = (u : Timer) × OwnSteps t u × (u.closed ≡ true)

after_select : {t : Timer} (u : Timer) → OwnStep t u → u.stage ≡ returning → CanClose t
after_select u step at =
    (record u { stage = ended; closed = true }, more (more done step) (close u at), refl)

closes :
    (s : Stage) (t : Timer)
    → t.stage ≡ s
    → AtStage s t
    → (t.elapsed || t.stopped) ≡ true
    → CanClose t
closes selecting t at h reason = elim (Bool-cases t.elapsed) [
  | inl elapsed ↦ after_select (record t { stage = returning }) (take_timer t at elapsed) refl
  | inr waiting ↦
      after_select (record t { armed = false; stage = returning }) (take_stop t at (ground arith))
        refl
]
closes returning t at h reason =
    (record t { stage = ended; closed = true }, more done (close t at), refl)
closes ended t at (h, k) reason = (t, done, h)

-- However the duration, `stop` and the goroutine have moved since `stopableTimer` returned: the goroutine
-- can close the channel, without waiting for anything else, exactly when the duration has passed or
-- `stop` has been closed, so `wait.PollUntil` is neither stopped early nor left to wait. A channel that
-- is closed already counts as one that can be.
pub CanClose-iff : (t : Timer) → Reach started t → ((t.elapsed || t.stopped) ≡ true) ↔ CanClose t
unfolding IsSound
CanClose-iff t r = (
  closes t.stage t refl (Reach-IsSound r),
  λ (u, steps, shut).
      sym (OwnSteps-reason steps)
      ∙ closed_reason u.stage u (OwnSteps-IsSound steps (Reach-IsSound r)) shut,
)
