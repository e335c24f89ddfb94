-- ===== src/DeepCopy/Growth.antt =====
-- One pointer copied by pkg/apis/jupyter/v1/zz_generated.deepcopy.go: what is known of its store.
use jupyter_operator.Common.{ℕ, ◌≤◌, ◌<◌, Option, none, some, ◌≡◌, refl, ap, ◌∙◌, arith}
use jupyter_operator.DeepCopy.Stores.{Store, put, new, copy_pointer, view}

module _ {A : Type 0} where
  -- Nothing that was in use has changed.
  pub record Grows (s t : Store A) : Type 0 where
    pub more : s.next ≤ t.next
    pub kept : (a : ℕ) → a < s.next → t.cells a ≡ s.cells a

  pub Grows-refl : (s : Store A) → Grows s s
  Grows-refl s = record { more = omega arith; kept = λ a h. refl }

  pub Grows-trans : (s t u : Store A) → Grows s t → Grows t u → Grows s u
  Grows-trans s t u g h = record {
    more = omega (arith, g.more, h.more);
    kept = λ a lt. h.kept a (omega (arith, g.more)) ∙ g.kept a lt;
  }

  -- A pointer is nil or in use.
  abbrev pub Known : Store A → Option ℕ → Type 0
  Known s none = Unit
  Known s (some a) = a < s.next

  -- A pointer is nil, or in use after `t` and not before `s`.
  abbrev pub Fresh : Store A → Store A → Option ℕ → Type 0
  Fresh s t none = Unit
  Fresh s t (some a) = (s.next ≤ a) × (a < t.next)

  pub view-Grows : (s t : Store A) (p : Option ℕ) → Grows s t → Known s p → view t p ≡ view s p
  view-Grows s t none g h = refl
  view-Grows s t (some a) g h = ap some (g.kept a h)

  pub put-Grows : (s t : Store A) (a : ℕ) (x : A) → Grows s t → s.next ≤ a → Grows s (put a x t)
  unfolding put
  put-Grows s t a x g h = record { more = g.more; kept = λ b lt. ground (arith, g.kept b lt) }

  pub new-Grows : (zero : A) (s : Store A) → Grows s (new zero s).1
  unfolding new put
  new-Grows zero s = record { more = omega arith; kept = λ b lt. ground arith }

  pub copy_pointer-Grows :
      (blank : A → A) (p : Option ℕ) (s : Store A) → Grows s (copy_pointer blank p s).1
  unfolding copy_pointer
  copy_pointer-Grows blank none s = Grows-refl s
  copy_pointer-Grows blank (some a) s =
      put-Grows s (new (blank (s.cells a)) s).1 s.next _ (new-Grows (blank (s.cells a)) s)
        (omega arith)

  -- `q` is a copy of `p`: a new pointer to the same value.
  pub record Copied (s t : Store A) (p q : Option ℕ) : Type 0 where
    pub fresh : Fresh s t q
    pub same : view t q ≡ view s p

  Fresh-Grows : (s t u : Store A) (q : Option ℕ) → Grows t u → Fresh s t q → Fresh s u q
  Fresh-Grows s t u none g h = tt
  Fresh-Grows s t u (some a) g h = (h.0, omega (arith, g.more))

  pub Fresh-Known : (s t : Store A) (q : Option ℕ) → Fresh s t q → Known t q
  Fresh-Known s t none h = tt
  Fresh-Known s t (some a) h = h.1

  pub Copied-Grows :
      (s t u : Store A) (p q : Option ℕ) → Copied s t p q → Grows t u → Copied s u p q
  Copied-Grows s t u p q c g = record {
    fresh = Fresh-Grows s t u q g c.fresh;
    same = view-Grows t u q g (Fresh-Known s t q c.fresh) ∙ c.same;
  }

  -- The copy of a pointer known at `s`, made later at `t`.
  pub copy_pointer-Copied :
      (blank : A → A) (s t : Store A) (p : Option ℕ)
      → Grows s t
      → Known s p
      → Copied s (copy_pointer blank p t).1 p (copy_pointer blank p t).0
  unfolding copy_pointer new put
  copy_pointer-Copied blank s t none g h = record { fresh = tt; same = refl }
  copy_pointer-Copied blank s t (some a) g h = record {
    fresh = (g.more, omega arith);
    same = ap some (ground (arith, g.kept a h));
  }

  pub Known-Grows : (s t : Store A) (p : Option ℕ) → Grows s t → Known s p → Known t p
  Known-Grows s t none g h = tt
  Known-Grows s t (some a) g h = omega (arith, g.more)

  Fresh-since : (r s t : Store A) (q : Option ℕ) → Grows r s → Fresh s t q → Fresh r t q
  Fresh-since r s t none g h = tt
  Fresh-since r s t (some a) g h = (omega (arith, g.more), h.1)

  -- A copy of a pointer that was known before `s` already.
  pub Copied-since :
      (r s t : Store A) (p q : Option ℕ) → Grows r s → Known r p → Copied s t p q → Copied r t p q
  Copied-since r s t p q g k c = record {
    fresh = Fresh-since r s t q g c.fresh;
    same = c.same ∙ view-Grows r s p g k;
  }
