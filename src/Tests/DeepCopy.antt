-- ===== src/Tests/DeepCopy.antt =====
-- Examples for pkg/apis/jupyter/v1/zz_generated.deepcopy.go.
use jupyter_operator.Common.{pos, ℕ, none, some, List, [], ◌∷◌, ◌≡◌, refl, arith}
use jupyter_operator.Kube.{ObjectMeta, int}
use jupyter_operator.DeepCopy.{
  NotebookCell, Memory, deep_copy, deep_copy_list, deep_copy_object, deep_copy_status,
  deep_copy_spec, deep_copy_list_object, notebook_list, copy_into, copy_spec_into, copy_list_into,
  copy_slice, copy_items, blank_spec, blank_status, blank_notebook, blank_list,
}
use jupyter_operator.DeepCopy.Stores.{Store, put, new, copy_pointer}
use jupyter_operator.DeepCopy.Copies.{KnownSpec, KnownNotebook, view_at}
use jupyter_operator.DeepCopy.Writes.{
  Write, host, tls, write_text, point_text, set_status, write_all,
}
use jupyter_operator.DeepCopy.Isolation.{write_all-deep_copy}
use jupyter_operator.Tests.World.{demo_meta}

abbrev empty_store : {A : Type 0} → A → Store A
empty_store x = record { cells = λ a. x; next = 0 }

abbrev holding : {A : Type 0} → A → Store A
holding x = record { cells = λ a. x; next = 1 }

-- A notebook with a host and with packages.
abbrev demo_cell : NotebookCell
demo_cell = record blank_notebook {
  meta = demo_meta "default" "demo";
  spec = record blank_spec { host = some 0; packages = some 0 };
}

abbrev demo_memory : Memory
demo_memory = record {
  pointees = record {
    texts = holding "example.com";
    backends = empty_store (record { service_name = ""; service_port = int 0 });
    arrays = holding ("numpy" ∷ []);
  };
  specs = empty_store blank_spec;
  statuses = empty_store blank_status;
  notebooks = holding demo_cell;
  items = holding (demo_cell ∷ []);
  lists = holding (record blank_list { items = some 0 });
}

abbrev same_meta : ObjectMeta → ObjectMeta
same_meta o = o

demo-KnownSpec : KnownSpec demo_memory.pointees demo_cell.spec
demo-KnownSpec = record {
  flavor = tt;
  host = omega arith;
  ingress = tt;
  packages = omega arith;
  password = tt;
  account = tt;
  tls = tt;
}

demo-KnownNotebook : KnownNotebook demo_memory 0
demo-KnownNotebook = record { in_use = omega arith; spec = demo-KnownSpec }

-- The host is written through the pointer of the copy, its TLS strategy is set, and its phase.
abbrev demo_writes : List Write
demo_writes =
    write_text host "other.com"
    ∷ point_text tls "none"
    ∷ set_status (record { observed_generation = pos 0; phase = "Running" })
    ∷ []

write_all-deep_copy_example :
    (b : ℕ) × (m' : Memory) × (deep_copy same_meta (some 0) demo_memory ≡ (some b, m'))
    × (view_at m' b ≡ view_at demo_memory 0)
    × (view_at (write_all demo_writes b m') 0 ≡ view_at demo_memory 0)
write_all-deep_copy_example =
    write_all-deep_copy same_meta (λ o. refl) demo_memory 0 demo_writes demo-KnownNotebook

-- A nil pointer has no copy and is no object.
no_copy : deep_copy_object same_meta none demo_memory ≡ (none, demo_memory)
unfolding deep_copy_object deep_copy
no_copy = refl

-- The copy is at the next address, and its host is a new text.
copied_host :
    (view_at (deep_copy same_meta (some 0) demo_memory).1 1).spec.host ≡ some "example.com"
unfolding deep_copy copy_into copy_spec_into copy_pointer new put
copied_host = refl

copied_status : (deep_copy_status (some 0) demo_memory).0 ≡ some 0
unfolding deep_copy_status new put
copied_status = refl

copied_spec : (deep_copy_spec (some 0) demo_memory).1.pointees.texts.next ≡ 1
unfolding deep_copy_spec copy_spec_into copy_pointer new put
copied_spec = refl

copied_list : (deep_copy_list_object same_meta (some 0) demo_memory).0 ≡ some (notebook_list 1)
unfolding deep_copy_list_object deep_copy_list copy_list_into copy_slice copy_items new put
copied_list = refl
