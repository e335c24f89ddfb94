-- ===== src/DeepCopy.antt =====
-- pkg/apis/jupyter/v1/zz_generated.deepcopy.go: the deep copies, in a memory with pointers.
--
-- `NotebookCell` is `Notebook` as it lies in memory, with an address for each pointer. The memory of
-- each Go type is a store of its own. `ObjectMeta` is a value here, and its `DeepCopyInto`, which is
-- vendored, is the parameter `copy_meta`.
pub mod Stores
pub mod Growth
pub mod Copies
pub mod Writes
pub mod Isolation
pub mod Specs
pub mod Lists
use jupyter_operator.Common.{pos, ℕ, String, Bool, false, Option, none, some, List, [], ◌∷◌, map}
use jupyter_operator.Kube.{ObjectMeta, empty_meta, int}
use jupyter_operator.Kube.Objects.{IngressBackend}
use jupyter_operator.Types.{Notebook, NotebookSpec, NotebookStatus}
use jupyter_operator.DeepCopy.Stores.{Store, put, new, copy_pointer, view}

-- A slice of packages is nil or has an array of its length.
pub record SpecCell : Type 0 where
  pub flavor : Option ℕ
  pub gpu : Bool
  pub host : Option ℕ
  pub ingress : Option ℕ
  pub packages : Option ℕ
  pub password : Option ℕ
  pub service_account_name : Option ℕ
  pub tls : Option ℕ

pub record NotebookCell : Type 0 where
  pub api_version : String
  pub kind : String
  pub meta : ObjectMeta
  pub spec : SpecCell
  pub status : NotebookStatus

-- `metav1.ListMeta` is a value.
pub record ListCell : Type 0 where
  pub api_version : String
  pub kind : String
  pub resource_version : String
  pub continue : String
  pub items : Option ℕ

-- What a spec points to.
pub record Pointees : Type 0 where
  pub texts : Store String
  pub backends : Store IngressBackend
  pub arrays : Store (List String)

pub record Memory : Type 0 where
  pub pointees : Pointees
  pub specs : Store SpecCell
  pub statuses : Store NotebookStatus
  pub notebooks : Store NotebookCell
  pub items : Store (List NotebookCell)
  pub lists : Store ListCell

abbrev pub no_packages : Option (List String) → List String
no_packages none = []
no_packages (some packages) = packages

-- The notebook that a cell stands for.
abbrev pub view_spec : Pointees → SpecCell → NotebookSpec
view_spec p s = record {
  flavor = view p.texts s.flavor;
  gpu = s.gpu;
  host = view p.texts s.host;
  ingress = view p.backends s.ingress;
  packages = no_packages (view p.arrays s.packages);
  password = view p.texts s.password;
  service_account_name = view p.texts s.service_account_name;
  tls = view p.texts s.tls;
}

abbrev pub view_notebook : Pointees → NotebookCell → Notebook
view_notebook p n = record {
  api_version = n.api_version;
  kind = n.kind;
  meta = n.meta;
  spec = view_spec p n.spec;
  status = n.status;
}

-- The zero values of `new` and of `make`.
abbrev pub blank_text : String → String
blank_text s = ""

abbrev pub blank_backend : IngressBackend → IngressBackend
blank_backend b = record { service_name = ""; service_port = int 0 }

abbrev pub blank_array : List String → List String
blank_array packages = map (λ s. "") packages

abbrev pub blank_spec : SpecCell
blank_spec = record {
  flavor = none;
  gpu = false;
  host = none;
  ingress = none;
  packages = none;
  password = none;
  service_account_name = none;
  tls = none;
}

abbrev pub blank_status : NotebookStatus
blank_status = record { observed_generation = pos 0; phase = "" }

abbrev pub blank_notebook : NotebookCell
blank_notebook = record {
  api_version = "";
  kind = "";
  meta = empty_meta;
  spec = blank_spec;
  status = blank_status;
}

abbrev pub blank_list : ListCell
blank_list = record {
  api_version = "";
  kind = "";
  resource_version = "";
  continue = "";
  items = none;
}

-- `(in *NotebookSpec) DeepCopyInto(out)`: `*out` and what it points to, from `*in`.
unfoldable pub copy_spec_into : SpecCell → Pointees → SpecCell × Pointees
copy_spec_into s p =
    let (flavor, texts1) = copy_pointer blank_text s.flavor p.texts in
    let (host, texts2) = copy_pointer blank_text s.host texts1 in
    let (ingress, backends) = copy_pointer blank_backend s.ingress p.backends in
    let (packages, arrays) = copy_pointer blank_array s.packages p.arrays in
    let (password, texts3) = copy_pointer blank_text s.password texts2 in
    let (account, texts4) = copy_pointer blank_text s.service_account_name texts3 in
    let (tls, texts5) = copy_pointer blank_text s.tls texts4 in
    (
      record s {
        flavor = flavor;
        host = host;
        ingress = ingress;
        packages = packages;
        password = password;
        service_account_name = account;
        tls = tls;
      },
      record { texts = texts5; backends = backends; arrays = arrays },
    )

-- `runtime.Object`: the interface holds the pointer.
pub data RuntimeObject : Type 0 where
  notebook : ℕ → RuntimeObject
  notebook_list : ℕ → RuntimeObject

-- `if c != nil { return c }; return nil`
abbrev pub as_object : (ℕ → RuntimeObject) → Option ℕ → Option RuntimeObject
as_object f none = none
as_object f (some a) = some (f a)

module _ (copy_meta : ObjectMeta → ObjectMeta) where
  -- `(in *Notebook) DeepCopyInto(out)`
  unfoldable pub copy_into : NotebookCell → Pointees → NotebookCell × Pointees
  copy_into n p =
      let (spec, pointees) = copy_spec_into n.spec p in
      (record n { meta = copy_meta n.meta; spec = spec; status = n.status }, pointees)

  -- `(in *Notebook) DeepCopy()`
  unfoldable pub deep_copy : Option ℕ → Memory → Option ℕ × Memory
  unfolding copy_into
  deep_copy none m = (none, m)
  deep_copy (some a) m =
      let (out, notebooks) = new blank_notebook m.notebooks in
      let (copy, pointees) = copy_into (m.notebooks.cells a) m.pointees in
      (some out, record m { notebooks = put out copy notebooks; pointees = pointees })

  -- The loop over `Items`.
  unfoldable pub copy_items : List NotebookCell → Pointees → List NotebookCell × Pointees
  copy_items [] p = ([], p)
  copy_items (n ∷ rest) p =
      let (copy, p1) = copy_into n p in let (copies, p2) = copy_items rest p1 in (copy ∷ copies, p2)

  -- `if in.Items != nil { ... }`
  unfoldable pub copy_slice : Option ℕ → Memory → Option ℕ × Memory
  copy_slice none m = (none, m)
  copy_slice (some a) m =
      let (out, items) = new (map (λ n. blank_notebook) (m.items.cells a)) m.items in
      let (copies, pointees) = copy_items (m.items.cells a) m.pointees in
      (some out, record m { items = put out copies items; pointees = pointees })

  -- `(in *NotebookList) DeepCopyInto(out)`
  unfoldable pub copy_list_into : ListCell → Memory → ListCell × Memory
  copy_list_into l m = let (items, m1) = copy_slice l.items m in (record l { items = items }, m1)

  -- `(in *NotebookList) DeepCopy()`
  unfoldable pub deep_copy_list : Option ℕ → Memory → Option ℕ × Memory
  deep_copy_list none m = (none, m)
  deep_copy_list (some a) m =
      let (out, lists) = new blank_list m.lists in
      let (copy, m1) = copy_list_into (m.lists.cells a) m in
      (some out, record m1 { lists = put out copy lists })

  -- `(in *Notebook) DeepCopyObject()`
  unfoldable pub deep_copy_object : Option ℕ → Memory → Option RuntimeObject × Memory
  deep_copy_object a m = let (c, m1) = deep_copy a m in (as_object notebook c, m1)

  -- `(in *NotebookList) DeepCopyObject()`
  unfoldable pub deep_copy_list_object : Option ℕ → Memory → Option RuntimeObject × Memory
  deep_copy_list_object a m = let (c, m1) = deep_copy_list a m in (as_object notebook_list c, m1)

-- `(in *NotebookSpec) DeepCopy()`
unfoldable pub deep_copy_spec : Option ℕ → Memory → Option ℕ × Memory
deep_copy_spec none m = (none, m)
deep_copy_spec (some a) m =
    let (out, specs) = new blank_spec m.specs in
    let (copy, pointees) = copy_spec_into (m.specs.cells a) m.pointees in
    (some out, record m { specs = put out copy specs; pointees = pointees })

-- `(in *NotebookStatus) DeepCopy()`, whose `DeepCopyInto` is the assignment of the value.
unfoldable pub deep_copy_status : Option ℕ → Memory → Option ℕ × Memory
deep_copy_status none m = (none, m)
deep_copy_status (some a) m =
    let (out, statuses) = new blank_status m.statuses in
    (some out, record m { statuses = put out (m.statuses.cells a) statuses })
