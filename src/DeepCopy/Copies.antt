-- ===== src/DeepCopy/Copies.antt =====
-- A deep copy of a notebook reads as the notebook did, and shares no memory with it.
use mathlib.Core.Path.{subst}
use jupyter_operator.Common.{ℕ, ◌≤◌, ◌<◌, some, ◌≡◌, refl, sym, ap, ◌∙◌, arith}
use jupyter_operator.Kube.{ObjectMeta}
use jupyter_operator.Types.{Notebook}
use jupyter_operator.DeepCopy.{
  SpecCell, NotebookCell, Pointees, Memory, no_packages, view_spec, view_notebook, blank_text,
  blank_backend, blank_array, copy_spec_into, copy_into, deep_copy, blank_notebook,
}
use jupyter_operator.DeepCopy.Stores.{Store, put, new, copy_pointer}
use jupyter_operator.DeepCopy.Growth.{
  Grows, Grows-refl, Grows-trans, Known, view-Grows, put-Grows, new-Grows, copy_pointer-Grows,
  Copied, Copied-Grows, copy_pointer-Copied,
}

-- Every pointer of a spec is nil or in use.
pub record KnownSpec (p : Pointees) (s : SpecCell) : Type 0 where
  pub flavor : Known p.texts s.flavor
  pub host : Known p.texts s.host
  pub ingress : Known p.backends s.ingress
  pub packages : Known p.arrays s.packages
  pub password : Known p.texts s.password
  pub account : Known p.texts s.service_account_name
  pub tls : Known p.texts s.tls

pub record GrowsPointees (p q : Pointees) : Type 0 where
  pub texts : Grows p.texts q.texts
  pub backends : Grows p.backends q.backends
  pub arrays : Grows p.arrays q.arrays

-- Every pointer of `c` is a new pointer to what the same pointer of `s` pointed to, and what was in
-- use is as it was.
pub record CopiedSpec (p q : Pointees) (s c : SpecCell) : Type 0 where
  pub grows : GrowsPointees p q
  pub flavor : Copied p.texts q.texts s.flavor c.flavor
  pub same_gpu : c.gpu ≡ s.gpu
  pub host : Copied p.texts q.texts s.host c.host
  pub ingress : Copied p.backends q.backends s.ingress c.ingress
  pub packages : Copied p.arrays q.arrays s.packages c.packages
  pub password : Copied p.texts q.texts s.password c.password
  pub account : Copied p.texts q.texts s.service_account_name c.service_account_name
  pub tls : Copied p.texts q.texts s.tls c.tls

module _ (p : Pointees) (s : SpecCell) (known : KnownSpec p s) where
  pub copy_spec_into-CopiedSpec : CopiedSpec p (copy_spec_into s p).1 s (copy_spec_into s p).0
  unfolding copy_spec_into
  copy_spec_into-CopiedSpec =
      let blank = blank_text in
      let t0 = p.texts in
      let (c1, t1) = copy_pointer blank s.flavor t0 in
      let (c2, t2) = copy_pointer blank s.host t1 in
      let (c3, t3) = copy_pointer blank s.password t2 in
      let (c4, t4) = copy_pointer blank s.service_account_name t3 in
      let (c5, t5) = copy_pointer blank s.tls t4 in
      let g1 = copy_pointer-Grows blank s.flavor t0 in
      let s2 = copy_pointer-Grows blank s.host t1 in
      let s3 = copy_pointer-Grows blank s.password t2 in
      let s4 = copy_pointer-Grows blank s.service_account_name t3 in
      let s5 = copy_pointer-Grows blank s.tls t4 in
      let g2 = Grows-trans t0 t1 t2 g1 s2 in
      let g3 = Grows-trans t0 t2 t3 g2 s3 in
      let g4 = Grows-trans t0 t3 t4 g3 s4 in
      let r4 = Grows-trans t3 t4 t5 s4 s5 in
      let r3 = Grows-trans t2 t3 t5 s3 r4 in
      let r2 = Grows-trans t1 t2 t5 s2 r3 in
      record {
        grows = record {
          texts = Grows-trans t0 t1 t5 g1 r2;
          backends = copy_pointer-Grows blank_backend s.ingress p.backends;
          arrays = copy_pointer-Grows blank_array s.packages p.arrays;
        };
        flavor =
            Copied-Grows t0 t1 t5 s.flavor c1
              (copy_pointer-Copied blank t0 t0 s.flavor (Grows-refl t0) known.flavor) r2;
        same_gpu = refl;
        host =
            Copied-Grows t0 t2 t5 s.host c2 (copy_pointer-Copied blank t0 t1 s.host g1 known.host)
              r3;
        ingress =
            copy_pointer-Copied blank_backend p.backends p.backends s.ingress
              (Grows-refl p.backends) known.ingress;
        packages =
            copy_pointer-Copied blank_array p.arrays p.arrays s.packages (Grows-refl p.arrays)
              known.packages;
        password =
            Copied-Grows t0 t3 t5 s.password c3
              (copy_pointer-Copied blank t0 t2 s.password g2 known.password) r4;
        account =
            Copied-Grows t0 t4 t5 s.service_account_name c4
              (copy_pointer-Copied blank t0 t3 s.service_account_name g3 known.account) s5;
        tls = copy_pointer-Copied blank t0 t4 s.tls g4 known.tls;
      }

pub CopiedSpec-same :
    (p q : Pointees) (s c : SpecCell) → CopiedSpec p q s c → view_spec q c ≡ view_spec p s
CopiedSpec-same p q s c h = λ i. record {
  flavor = h.flavor.same i;
  gpu = h.same_gpu i;
  host = h.host.same i;
  ingress = h.ingress.same i;
  packages = no_packages (h.packages.same i);
  password = h.password.same i;
  service_account_name = h.account.same i;
  tls = h.tls.same i;
}

-- What is known reads the same in a memory that has grown.
pub view_spec-Grows :
    (p q : Pointees) (s : SpecCell)
    → GrowsPointees p q
    → KnownSpec p s
    → view_spec q s ≡ view_spec p s
view_spec-Grows p q s g k = λ i. record {
  flavor = view-Grows p.texts q.texts s.flavor g.texts k.flavor i;
  gpu = s.gpu;
  host = view-Grows p.texts q.texts s.host g.texts k.host i;
  ingress = view-Grows p.backends q.backends s.ingress g.backends k.ingress i;
  packages = no_packages (view-Grows p.arrays q.arrays s.packages g.arrays k.packages i);
  password = view-Grows p.texts q.texts s.password g.texts k.password i;
  service_account_name = view-Grows p.texts q.texts s.service_account_name g.texts k.account i;
  tls = view-Grows p.texts q.texts s.tls g.texts k.tls i;
}

-- A pointer to a notebook that is in use, as are its own pointers.
pub record KnownNotebook (m : Memory) (a : ℕ) : Type 0 where
  pub in_use : a < m.notebooks.next
  pub spec : KnownSpec m.pointees (m.notebooks.cells a).spec

abbrev pub view_at : Memory → ℕ → Notebook
view_at m a = view_notebook m.pointees (m.notebooks.cells a)

-- The notebook at `b` in `m'` is a copy of the one at `a` in `m`.
pub record IsCopy (m m' : Memory) (a b : ℕ) : Type 0 where
  -- It is a new object that reads as the notebook did.
  pub fresh : m.notebooks.next ≤ b
  pub same : view_at m' b ≡ view_at m a
  -- Each of its pointers is new.
  pub spec :
      CopiedSpec m.pointees m'.pointees (m.notebooks.cells a).spec (m'.notebooks.cells b).spec
  -- No notebook that was in use has changed.
  pub kept : Grows m.notebooks m'.notebooks

pub put_self : {A : Type 0} (a : ℕ) (x : A) (s : Store A) → (put a x s).cells a ≡ x
unfolding put
put_self a x s = ground arith

module _ (copy_meta : ObjectMeta → ObjectMeta) (copies : (o : ObjectMeta) → copy_meta o ≡ o) where
  copy_into-same :
      (n : NotebookCell) (p : Pointees)
      → KnownSpec p n.spec
      → view_notebook (copy_into copy_meta n p).1 (copy_into copy_meta n p).0 ≡ view_notebook p n
  unfolding copy_into
  copy_into-same n p known = λ i. record {
    api_version = n.api_version;
    kind = n.kind;
    meta = copies n.meta i;
    spec =
        CopiedSpec-same p (copy_spec_into n.spec p).1 n.spec (copy_spec_into n.spec p).0
          (copy_spec_into-CopiedSpec p n.spec known) i;
    status = n.status;
  }

  -- The deep copy of a notebook in use is a new object that reads the same, each of whose pointers is
  -- new, and nothing that was in use has changed. This supposes that the vendored copy of the metadata
  -- is equal to it.
  pub deep_copy-IsCopy :
      (m : Memory) (a : ℕ)
      → KnownNotebook m a
      → (b : ℕ) × (m' : Memory) × (deep_copy copy_meta (some a) m ≡ (some b, m')) × IsCopy m m' a b
  unfolding deep_copy
  deep_copy-IsCopy m a known =
      let n = m.notebooks.cells a in
      let (b, notebooks) = new blank_notebook m.notebooks in
      let (copy, pointees) = copy_into copy_meta n m.pointees in
      let m' = record m { notebooks = put b copy notebooks; pointees = pointees } in
      (
        b,
        m',
        refl,
        record {
          fresh = unfold new in omega arith;
          same =
              ap (view_notebook pointees) (put_self b copy notebooks)
              ∙ copy_into-same n m.pointees known.spec;
          spec =
              subst (λ (c : NotebookCell). CopiedSpec m.pointees pointees n.spec c.spec)
                (sym (put_self b copy notebooks))
                (unfold copy_into in copy_spec_into-CopiedSpec m.pointees n.spec known.spec);
          kept =
              put-Grows m.notebooks notebooks b copy (new-Grows blank_notebook m.notebooks)
                (unfold new in omega arith);
        },
      )
