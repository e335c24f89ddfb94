-- ===== src/DeepCopy/Writes.antt =====
-- What a holder of a `*Notebook` may do to it: assign its fields, and write through its pointers.
-- The code does this to the copies that zz_generated.deepcopy.go makes: `SetDefaults` and the phase of
-- pkg/controller/controller.go.
use jupyter_operator.Common.{ℕ, String, Option, none, some, List, [], ◌∷◌}
use jupyter_operator.Kube.{ObjectMeta}
use jupyter_operator.Kube.Objects.{IngressBackend}
use jupyter_operator.Types.{NotebookStatus}
use jupyter_operator.DeepCopy.{SpecCell, Memory}
use jupyter_operator.DeepCopy.Stores.{Store, put, new}

-- The five pointers to a text.
pub data TextField : Type 0 where
  flavor host password account tls : TextField

abbrev pub get_field : TextField → SpecCell → Option ℕ
get_field flavor s = s.flavor
get_field host s = s.host
get_field password s = s.password
get_field account s = s.service_account_name
get_field tls s = s.tls

-- One field gets a value, the others keep theirs.
abbrev pub assigned : TextField → TextField → Option ℕ → SpecCell → Option ℕ
assigned flavor flavor q s = q
assigned host host q s = q
assigned password password q s = q
assigned account account q s = q
assigned tls tls q s = q
assigned f g q s = get_field g s

abbrev pub set_field : TextField → Option ℕ → SpecCell → SpecCell
set_field f q s = record s {
  flavor = assigned f flavor q s;
  host = assigned f host q s;
  password = assigned f password q s;
  service_account_name = assigned f account q s;
  tls = assigned f tls q s;
}

pub data Write : Type 0 where
  -- `*n.Spec.F = text`
  write_text : TextField → String → Write
  -- `n.Spec.F = &text`, with a new variable.
  point_text : TextField → String → Write
  -- `*n.Spec.Ingress = backend`
  write_ingress : IngressBackend → Write
  -- `copy(n.Spec.Packages, packages)`
  write_packages : List String → Write
  -- `n.Status = status`
  set_status : NotebookStatus → Write
  -- `n.ObjectMeta = meta`
  set_meta : ObjectMeta → Write

-- A write through a pointer that is not nil.
abbrev pub put_through : {A : Type 0} → Option ℕ → A → Store A → Store A
put_through none x s = s
put_through (some a) x s = put a x s

abbrev pub put_texts : Store String → Memory → Memory
put_texts texts m = record m { pointees = record m.pointees { texts = texts } }

-- One write to the notebook at `b`.
unfoldable pub write : Write → ℕ → Memory → Memory
write (write_text f text) b m =
    put_texts (put_through (get_field f (m.notebooks.cells b).spec) text m.pointees.texts) m
write (point_text f text) b m =
    let n = m.notebooks.cells b in
    let (a, texts) = new text m.pointees.texts in
    record (put_texts texts m) {
      notebooks = put b (record n { spec = set_field f (some a) n.spec }) m.notebooks;
    }
write (write_ingress backend) b m = record m {
  pointees = record m.pointees {
    backends = put_through (m.notebooks.cells b).spec.ingress backend m.pointees.backends;
  };
}
write (write_packages packages) b m = record m {
  pointees = record m.pointees {
    arrays = put_through (m.notebooks.cells b).spec.packages packages m.pointees.arrays;
  };
}
write (set_status status) b m = record m {
  notebooks = put b (record (m.notebooks.cells b) { status = status }) m.notebooks;
}
write (set_meta meta) b m = record m {
  notebooks = put b (record (m.notebooks.cells b) { meta = meta }) m.notebooks;
}

unfoldable pub write_all : List Write → ℕ → Memory → Memory
write_all [] b m = m
write_all (w ∷ ws) b m = write_all ws b (write w b m)
