-- ===== src/DeepCopy/Lists.antt =====
-- A deep copy of a list of notebooks: pkg/apis/jupyter/v1/zz_generated.deepcopy.go.
use jupyter_operator.Common.{ℕ, ◌≤◌, ◌<◌, Option, none, some, List, [], ◌∷◌, map, All, ◌≡◌}
use jupyter_operator.Types.{Notebook}
use jupyter_operator.DeepCopy.{NotebookCell, Pointees, Memory, view_notebook}
use jupyter_operator.DeepCopy.Growth.{Grows, Fresh}
use jupyter_operator.DeepCopy.Copies.{KnownSpec, GrowsPointees, CopiedSpec}

abbrev KnownItems : Pointees → List NotebookCell → Type 0
KnownItems p ns = All (λ (n : NotebookCell). KnownSpec p n.spec) ns

-- One by one, a copy of each notebook: its pointers are new, to the same values, and it is the same
-- notebook otherwise.
abbrev pub CopiedItems : Pointees → Pointees → List NotebookCell → List NotebookCell → Type 0
CopiedItems p q [] [] = Unit
CopiedItems p q (n ∷ ns) (c ∷ cs) =
    CopiedSpec p q n.spec c.spec × (c ≡ record n { spec = c.spec }) × CopiedItems p q ns cs
CopiedItems p q [] (c ∷ cs) = ⊥
CopiedItems p q (n ∷ ns) [] = ⊥

abbrev view_items : Pointees → List NotebookCell → List Notebook
view_items p ns = map (view_notebook p) ns

-- The slice of a list is nil, or in use with all that its items point to.
abbrev KnownSlice : Memory → Option ℕ → Type 0
KnownSlice m none = Unit
KnownSlice m (some a) = (a < m.items.next) × KnownItems m.pointees (m.items.cells a)

-- The items of a list, `none` for a nil slice.
abbrev pub view_slice : Memory → Option ℕ → Option (List Notebook)
view_slice m none = none
view_slice m (some a) = some (view_items m.pointees (m.items.cells a))

-- The items of one slice are copies of those of the other, with new pointers.
abbrev pub CopiedSlice : Memory → Memory → Option ℕ → Option ℕ → Type 0
CopiedSlice m m' none none = Unit
CopiedSlice m m' (some a) (some b) =
    CopiedItems m.pointees m'.pointees (m.items.cells a) (m'.items.cells b)
CopiedSlice m m' none (some b) = ⊥
CopiedSlice m m' (some a) none = ⊥

-- `q` is a new slice whose items read as those of `p` did, and nothing that was in use has changed.
pub record SliceCopied (m m' : Memory) (p q : Option ℕ) : Type 0 where
  pub pointees : GrowsPointees m.pointees m'.pointees
  pub items : Grows m.items m'.items
  pub fresh : Fresh m.items m'.items q
  pub same : view_slice m' q ≡ view_slice m p
  pub copied : CopiedSlice m m' p q

-- The list at `b` in `m'` is a copy of the one at `a` in `m`.
pub record ListCopied (m m' : Memory) (a b : ℕ) : Type 0 where
  pub fresh : m.lists.next ≤ b
  pub lists : Grows m.lists m'.lists
  pub same_head : m'.lists.cells b ≡ record (m.lists.cells a) { items = (m'.lists.cells b).items }
  pub slice : SliceCopied m m' (m.lists.cells a).items (m'.lists.cells b).items
