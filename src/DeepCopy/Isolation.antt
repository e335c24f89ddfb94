-- ===== src/DeepCopy/Isolation.antt =====
-- No write to a deep copy of a notebook is seen through the notebook: what
-- pkg/controller/controller.go relies on where it copies the notebook of the informer's cache.
use mathlib.Core.Path.{subst}
use jupyter_operator.Common.{ℕ, ◌≤◌, Option, none, some, List, [], ◌∷◌, ◌≡◌, sym, ap, ◌∙◌, arith}
use jupyter_operator.Kube.{ObjectMeta}
use jupyter_operator.DeepCopy.{SpecCell, NotebookCell, Pointees, Memory, view_notebook, deep_copy}
use jupyter_operator.DeepCopy.Stores.{Store, put, new}
use jupyter_operator.DeepCopy.Growth.{Grows, Grows-trans, put-Grows, new-Grows, Fresh}
use jupyter_operator.DeepCopy.Copies.{
  GrowsPointees, CopiedSpec, KnownNotebook, view_at, view_spec-Grows, IsCopy, put_self,
  deep_copy-IsCopy,
}
use jupyter_operator.DeepCopy.Writes.{
  TextField, flavor, host, password, account, tls, get_field, set_field, Write, write_text,
  point_text, write_ingress, write_packages, set_status, set_meta, put_through, put_texts, write,
  write_all,
}

-- A pointer that is nil or was not in use in `s`.
abbrev Above : {A : Type 0} → Store A → Option ℕ → Type 0
Above s none = Unit
Above s (some a) = s.next ≤ a

-- The pointers of a spec are none of those that were in use.
record Apart (p : Pointees) (s : SpecCell) : Type 0 where
  texts : (f : TextField) → Above p.texts (get_field f s)
  ingress : Above p.backends s.ingress
  packages : Above p.arrays s.packages

-- Since `m` all writes were to the notebook at `b` and to what it points to.
record Isolated (m : Memory) (b : ℕ) (m' : Memory) : Type 0 where
  apart : Apart m.pointees (m'.notebooks.cells b).spec
  own : m.notebooks.next ≤ b
  pointees : GrowsPointees m.pointees m'.pointees
  notebooks : Grows m.notebooks m'.notebooks

put_through-Grows :
    {A : Type 0} (s t : Store A) (p : Option ℕ) (x : A)
    → Grows s t
    → Above s p
    → Grows s (put_through p x t)
put_through-Grows s t none x g h = g
put_through-Grows s t (some a) x g h = put-Grows s t a x g h

get_field-set_field :
    (p : Pointees) (f g : TextField) (q : Option ℕ) (s : SpecCell)
    → Above p.texts q
    → Above p.texts (get_field g s)
    → Above p.texts (get_field g (set_field f q s))
get_field-set_field p f g q s h k = ground arith

Apart-set_field :
    (p : Pointees) (f : TextField) (q : Option ℕ) (s : SpecCell)
    → Above p.texts q
    → Apart p s
    → Apart p (set_field f q s)
Apart-set_field p f q s h a = record {
  texts = λ g. get_field-set_field p f g q s h (a.texts g);
  ingress = a.ingress;
  packages = a.packages;
}

-- Storing a notebook at `b` whose pointers are apart.
put-Isolated :
    (m m' : Memory) (b : ℕ) (n : NotebookCell)
    → Isolated m b m'
    → Apart m.pointees n.spec
    → Isolated m b (record m' { notebooks = put b n m'.notebooks })
put-Isolated m m' b n h apart = record {
  apart =
      subst (λ (c : NotebookCell). Apart m.pointees c.spec) (sym (put_self b n m'.notebooks)) apart;
  own = h.own;
  pointees = h.pointees;
  notebooks = put-Grows m.notebooks m'.notebooks b n h.notebooks h.own;
}

write-Isolated : (m m' : Memory) (b : ℕ) (w : Write) → Isolated m b m' → Isolated m b (write w b m')
unfolding write
write-Isolated m m' b (write_text f text) h = record {
  apart = h.apart;
  own = h.own;
  pointees = record {
    texts =
        put_through-Grows m.pointees.texts m'.pointees.texts _ text h.pointees.texts
          (h.apart.texts f);
    backends = h.pointees.backends;
    arrays = h.pointees.arrays;
  };
  notebooks = h.notebooks;
}
write-Isolated m m' b (point_text f text) h =
    let texts = m'.pointees.texts in
    let n = m'.notebooks.cells b in
    put-Isolated m (put_texts (new text texts).1 m') b
      (record n { spec = set_field f (some (new text texts).0) n.spec })
      (record {
        apart = h.apart;
        own = h.own;
        pointees = record {
          texts =
              Grows-trans m.pointees.texts texts (new text texts).1 h.pointees.texts
                (new-Grows text texts);
          backends = h.pointees.backends;
          arrays = h.pointees.arrays;
        };
        notebooks = h.notebooks;
      })
      (Apart-set_field m.pointees f _ n.spec (unfold new in h.pointees.texts.more) h.apart)
write-Isolated m m' b (write_ingress backend) h = record {
  apart = h.apart;
  own = h.own;
  pointees = record {
    texts = h.pointees.texts;
    backends =
        put_through-Grows m.pointees.backends m'.pointees.backends _ backend h.pointees.backends
          h.apart.ingress;
    arrays = h.pointees.arrays;
  };
  notebooks = h.notebooks;
}
write-Isolated m m' b (write_packages packages) h = record {
  apart = h.apart;
  own = h.own;
  pointees = record {
    texts = h.pointees.texts;
    backends = h.pointees.backends;
    arrays =
        put_through-Grows m.pointees.arrays m'.pointees.arrays _ packages h.pointees.arrays
          h.apart.packages;
  };
  notebooks = h.notebooks;
}
write-Isolated m m' b (set_status status) h =
    put-Isolated m m' b (record (m'.notebooks.cells b) { status = status }) h h.apart
write-Isolated m m' b (set_meta meta) h =
    put-Isolated m m' b (record (m'.notebooks.cells b) { meta = meta }) h h.apart

write_all-Isolated :
    (m m' : Memory) (b : ℕ) (ws : List Write) → Isolated m b m' → Isolated m b (write_all ws b m')
unfolding write_all
write_all-Isolated m m' b [] h = h
write_all-Isolated m m' b (w ∷ ws) h =
    write_all-Isolated m (write w b m') b ws (write-Isolated m m' b w h)

view-Isolated :
    (m m' : Memory) (a b : ℕ) → KnownNotebook m a → Isolated m b m' → view_at m' a ≡ view_at m a
view-Isolated m m' a b known h =
    ap (view_notebook m'.pointees) (h.notebooks.kept a known.in_use) ∙ (λ i. record (view_at m a) {
      spec =
          view_spec-Grows m.pointees m'.pointees (m.notebooks.cells a).spec h.pointees known.spec i;
    })

Fresh-Above : {A : Type 0} (s t : Store A) (p : Option ℕ) → Fresh s t p → Above s p
Fresh-Above s t none h = tt
Fresh-Above s t (some a) h = h.0

IsCopy-texts :
    (p q : Pointees) (s c : SpecCell)
    → CopiedSpec p q s c
    → (f : TextField) → Above p.texts (get_field f c)
IsCopy-texts p q s c h flavor = Fresh-Above p.texts q.texts _ h.flavor.fresh
IsCopy-texts p q s c h host = Fresh-Above p.texts q.texts _ h.host.fresh
IsCopy-texts p q s c h password = Fresh-Above p.texts q.texts _ h.password.fresh
IsCopy-texts p q s c h account = Fresh-Above p.texts q.texts _ h.account.fresh
IsCopy-texts p q s c h tls = Fresh-Above p.texts q.texts _ h.tls.fresh

IsCopy-Isolated : (m m' : Memory) (a b : ℕ) → IsCopy m m' a b → Isolated m b m'
IsCopy-Isolated m m' a b h = record {
  apart = record {
    texts = IsCopy-texts m.pointees m'.pointees _ (m'.notebooks.cells b).spec h.spec;
    ingress = Fresh-Above m.pointees.backends m'.pointees.backends _ h.spec.ingress.fresh;
    packages = Fresh-Above m.pointees.arrays m'.pointees.arrays _ h.spec.packages.fresh;
  };
  own = h.fresh;
  pointees = h.spec.grows;
  notebooks = h.kept;
}

-- Any writes to the copy, one after the other: the fields of the notebook that `DeepCopy` returned are
-- assigned, also with pointers to new texts, and its texts, its backend and its packages are written
-- through its pointers. The original notebook reads as it did before the copy was made. This supposes
-- that the vendored copy of the metadata is equal to it.
pub write_all-deep_copy :
    (copy_meta : ObjectMeta → ObjectMeta)
    → ((o : ObjectMeta) → copy_meta o ≡ o)
    → (m : Memory) (a : ℕ) (ws : List Write) → KnownNotebook m a
    → (b : ℕ) × (m' : Memory) × (deep_copy copy_meta (some a) m ≡ (some b, m'))
      × (view_at m' b ≡ view_at m a)
      × (view_at (write_all ws b m') a ≡ view_at m a)
write_all-deep_copy copy_meta copies m a ws known =
    let (b, m', copied, h) = deep_copy-IsCopy copy_meta copies m a known in
    (
      b,
      m',
      copied,
      h.same,
      view-Isolated m (write_all ws b m') a b known
          (write_all-Isolated m m' b ws (IsCopy-Isolated m m' a b h)),
    )
