-- ===== src/K8sutil/Retry.antt =====
-- How pkg/k8sutil waits: an attempt that `retry.Retry` of github.com/squat/retry makes again and
-- again, and the loop over the messages that it sends.
use jupyter_operator.Common.{ℕ, Bool, Option, none, List, [], ◌∷◌, if◌then◌else◌}
use jupyter_operator.Prog.{Prog, ret, ◌>>=◌}
use jupyter_operator.Kube.{Error}

pub record Message : Type 0 where
  pub done : Bool
  pub error : Option Error

-- `retry interval timeout attempt`, both in seconds: all the messages until the channel is closed.
abbrev pub Retry : Type 0 → Type 0
Retry W = ℕ → ℕ → Prog W (Option Error) → Prog W (List Message)

-- `for message := range messages { … }` and the `return nil` below it.
unfoldable pub outcome_of : List Message → Option Error
outcome_of [] = none
outcome_of (message ∷ messages) = if message.done then message.error else outcome_of messages

-- Both waits of the package: every five seconds, for a minute.
abbrev pub wait_for : {W : Type 0} → Retry W → Prog W (Option Error) → Prog W (Option Error)
wait_for retry attempt = do messages ← retry 5 60 attempt; ret (outcome_of messages)
