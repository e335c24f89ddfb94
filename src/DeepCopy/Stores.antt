-- ===== src/DeepCopy/Stores.antt =====
-- The memory of one Go type: a pointer is an address, and `new` gives an address never used before.
use jupyter_operator.Common.{ℕ, ◌+◌, Option, none, some, nat_eq, if◌then◌else◌}

module _ (A : Type 0) where
  -- `next` is the first address that is not in use.
  pub record Store : Type 0 where
    pub cells : ℕ → A
    pub next : ℕ

module _ {A : Type 0} where
  -- `*p = x`
  unfoldable pub put : ℕ → A → Store A → Store A
  put a x s = record s { cells = λ b. if nat_eq b a then x else s.cells b }

  -- `new(T)`, whose zero value is given.
  unfoldable pub new : A → Store A → ℕ × Store A
  unfolding put
  new zero s = (s.next, record (put s.next zero s) { next = s.next + 1 })

  -- `if *in != nil { *out = new(T); **out = **in }`, where `*out` was nil if `*in` is. `blank` gives the
  -- zero value that the new cell has before the assignment.
  unfoldable pub copy_pointer : (A → A) → Option ℕ → Store A → Option ℕ × Store A
  unfolding new put
  copy_pointer blank none s = (none, s)
  copy_pointer blank (some a) s =
      let (b, t) = new (blank (s.cells a)) s in (some b, put b (t.cells a) t)

  -- What a pointer points to.
  abbrev pub view : Store A → Option ℕ → Option A
  view s none = none
  view s (some a) = some (s.cells a)
