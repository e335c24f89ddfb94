-- ===== src/Controller/Handlers.antt =====
-- The event handlers of pkg/controller/handlers.go, with `enqueue` and `resolveOwnerRef` of
-- pkg/controller/controller.go.
pub mod Laws
use mathlib.Core.Bool.{beq}
use jupyter_operator.Common.{
  String, Bool, true, false, not, ◌==◌, ◌&&◌, is_some, Option, none, some, if◌then◌else◌,
}
use jupyter_operator.Prog.{Prog, ret, act, read, ◌>>=◌, ◌>>◌}
use jupyter_operator.Kube.{Result, ok, err, ObjectMeta, OwnerReference}
use jupyter_operator.Types.{notebook_kind, Notebook}
use jupyter_operator.Controller.{Controller}

-- The dynamic type of an `interface{}` that an informer hands over. `unknown` is one that is neither,
-- such as `cache.DeletedFinalStateUnknown`.
pub data Object : Type 0 where
  notebook : Notebook → Object
  owned : ObjectMeta → Object
  unknown : Object

-- `obj.(*jupyterv1.Notebook)`
abbrev pub as_notebook : Object → Option Notebook
as_notebook (notebook n) = some n
as_notebook (owned o) = none
as_notebook unknown = none

-- `obj.(metav1.Object)`
abbrev pub as_meta : Object → Option ObjectMeta
as_meta (notebook n) = some n.meta
as_meta (owned o) = some o
as_meta unknown = none

unfoldable pub same_flag : Option Bool → Option Bool → Bool
same_flag none none = true
same_flag (some a) (some b) = beq a b
same_flag none (some b) = false
same_flag (some a) none = false

-- reflect.DeepEqual of two `*metav1.OwnerReference`
unfoldable pub same_owner : Option OwnerReference → Option OwnerReference → Bool
unfolding same_flag
same_owner none none = true
same_owner (some r) (some q) =
    r.api_version == q.api_version
    && r.kind == q.kind
    && r.name == q.name
    && r.uid == q.uid
    && same_flag r.block_owner_deletion q.block_owner_deletion
    && same_flag r.controller q.controller
same_owner none (some q) = false
same_owner (some r) none = false

module _ {W Certificate PrivateKey : Type 0} (c : Controller W Certificate PrivateKey) where
  unfoldable pub add_key : Result String → Prog W (Unit {0})
  add_key (err e) = ret tt
  add_key (ok key) = act (λ _. ret tt) (c.queue.add key)

  unfoldable pub enqueue : Notebook → Prog W (Unit {0})
  enqueue n = add_key (c.vendor.notebook_key n)

  -- The end of `resolveOwnerRef`: the notebook of that name is the owner if it has its UID.
  unfoldable pub same_uid : OwnerReference → Result Notebook → Prog W (Option Notebook)
  same_uid r (err e) = ret none
  same_uid r (ok n) = if not (n.meta.uid == r.uid) then ret none else ret (some n)

  unfoldable pub resolve_owner_ref : String → Option OwnerReference → Prog W (Option Notebook)
  resolve_owner_ref namespace none = ret none
  resolve_owner_ref namespace (some r) =
      if not (r.kind == notebook_kind)
      then ret none
      else read (c.notebook_lister.get namespace r.name) >>= same_uid r

  -- `if n := c.resolveOwnerRef(…); n != nil { c.enqueue(n) }`
  unfoldable pub enqueue_found : Option Notebook → Prog W (Unit {0})
  enqueue_found none = ret tt
  enqueue_found (some n) = enqueue n

  unfoldable pub enqueue_owner : String → Option OwnerReference → Prog W (Unit {0})
  enqueue_owner namespace r = resolve_owner_ref namespace r >>= enqueue_found

  unfoldable pub on_add_notebook : Object → Prog W (Unit {0})
  on_add_notebook obj = elim (as_notebook obj) [ none ↦ ret tt | some n ↦ enqueue n ]

  unfoldable pub on_update_notebook : Object → Object → Prog W (Unit {0})
  on_update_notebook old cur = elim (as_notebook old) [
    | none ↦ ret tt
    | some old_notebook ↦ elim (as_notebook cur) [ none ↦ ret tt | some n ↦ enqueue n ]
  ]

  unfoldable pub on_delete_notebook : Object → Prog W (Unit {0})
  on_delete_notebook obj = elim (as_notebook obj) [ none ↦ ret tt | some n ↦ enqueue n ]

  unfoldable pub on_delete_object : Object → Prog W (Unit {0})
  on_delete_object obj = elim (as_meta obj) [
    | none ↦ ret tt
    | some o ↦ elim (c.vendor.controller_of o) [
      | none ↦ ret tt
      | some r ↦ enqueue_owner o.namespace (some r)
    ]
  ]

  unfoldable pub on_add_object : Object → Prog W (Unit {0})
  on_add_object obj = elim (as_meta obj) [
    | none ↦ ret tt
    | some o ↦
        if is_some o.deletion_timestamp
        then on_delete_object obj
        else elim (c.vendor.controller_of o) [
          | none ↦ ret tt
          | some r ↦ enqueue_owner o.namespace (some r)
        ]
  ]

  -- `if ownerRefChanged && oldOwnerRef != nil { … }`
  unfoldable pub enqueue_old_owner : ObjectMeta → ObjectMeta → Prog W (Unit {0})
  enqueue_old_owner old cur =
      if not (same_owner (c.vendor.controller_of old) (c.vendor.controller_of cur))
        && is_some (c.vendor.controller_of old)
      then enqueue_owner old.namespace (c.vendor.controller_of old)
      else ret tt

  unfoldable pub on_update_object : Object → Object → Prog W (Unit {0})
  on_update_object old cur = elim (as_meta old) [
    | none ↦ ret tt
    | some old_object ↦ elim (as_meta cur) [
      | none ↦ ret tt
      | some cur_object ↦
          if old_object.resource_version == cur_object.resource_version
          then ret tt
          else enqueue_old_owner old_object cur_object
            >> enqueue_owner cur_object.namespace (c.vendor.controller_of cur_object)
    ]
  ]
