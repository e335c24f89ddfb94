-- ===== src/K8sutil/Upsert/Laws.antt =====
-- The laws of `upsert`.
use mathlib.Core.Bool.{false≢true}
use jupyter_operator.Common.{
  String, true, false, none, some, ◌≡◌, refl, arith, Bool-cases, inl, inr, ap, ◌↔◌, ◌==◌, Option,
  eq_iff, lookup,
}
use jupyter_operator.Prog.{value}
use jupyter_operator.Prog.Run.{run}
use jupyter_operator.Prog.Holds.{Anything, Holds}
use jupyter_operator.Kube.{Error, Result, ok, err, is_not_found, ObjectMeta}
use jupyter_operator.Kube.Resource.{Client, Lister, Propagation}
use jupyter_operator.K8sutil.{is_managed_by_operator, not_managed_error}
use jupyter_operator.K8sutil.Upsert.{Kind, settle, upsert}

some_injective : {A : Type 0} {a b : A} → some a ≡ some b → a ≡ b
some_injective e = cc

-- The label of the objects that the operator manages, as its users see it.
abbrev pub IsMarked : ObjectMeta → Type 0
IsMarked m = lookup "managed-by" m.labels ≡ some "jupyter-operator"

-- The test of a label that may be missing.
marked_iff :
    (found : Option String)
    → (elim found [ some value' ↦ value' == "jupyter-operator" | none ↦ false ] ≡ true)
      ↔ (found ≡ some "jupyter-operator")
marked_iff none = (λ h. absurd (false≢true h), λ h. cc)
marked_iff (some value') = (
  λ h. ap some ((eq_iff value' "jupyter-operator").0 h),
  λ h. (eq_iff value' "jupyter-operator").1 (some_injective h),
)

-- `IsManagedByOperator` tests for that label and its value.
pub is_managed_by_operator_iff :
    (m : ObjectMeta) → (is_managed_by_operator m.labels ≡ true) ↔ IsMarked m
unfolding is_managed_by_operator
is_managed_by_operator_iff m = marked_iff (lookup "managed-by" m.labels)

pub is_managed_by_operator-false :
    (m : ObjectMeta) → ¬ IsMarked m → is_managed_by_operator m.labels ≡ false
is_managed_by_operator-false m h = elim (Bool-cases (is_managed_by_operator m.labels)) [
  | inl managed ↦ absurd (h ((is_managed_by_operator_iff m).0 managed))
  | inr unmanaged ↦ unmanaged
]

-- The guarantee `G` allows what a client does to the object called `name`.
pub record Permits {W Obj : Type 0} (G : W → W → Type 0) (c : Client W Obj) (name_of : Obj → String)
    (name : String) : Type 0 where
  pub create_ok : (o : Obj) → name_of o ≡ name → (w : W) → G w (c.create o w).1
  pub update_ok : (o : Obj) → name_of o ≡ name → (w : W) → G w (c.update o w).1
  pub delete_ok : (p : Propagation) (w : W) → G w (c.delete name p w).1

module _ {W Obj : Type 0} (k : Kind Obj) (c : Client W Obj) (l : Lister W Obj) (x : Obj) where
  module _ (w : W) where
    abbrev answer : Result Obj
    answer = l.get (k.meta_of x).namespace (k.meta_of x).name w

    pub upsert_creates :
        (e : Error)
        → l.get (k.meta_of x).namespace (k.meta_of x).name w ≡ err e
        → is_not_found e ≡ true
        → run (upsert k c l x) w ≡ (value (c.create x w).0, (c.create x w).1)
    unfolding upsert settle
    upsert_creates e missing h = ground arith

    pub upsert_fails :
        (e : Error)
        → l.get (k.meta_of x).namespace (k.meta_of x).name w ≡ err e
        → is_not_found e ≡ false
        → run (upsert k c l x) w ≡ (value (some e), w)
    unfolding upsert settle
    upsert_fails e failed h = ground arith

    pub upsert_refuses :
        (s : Obj)
        → l.get (k.meta_of x).namespace (k.meta_of x).name w ≡ ok s
        → is_managed_by_operator (k.meta_of s).labels ≡ false
        → run (upsert k c l x) w ≡ (value (some (not_managed_error k.type_name)), w)
    unfolding upsert settle
    upsert_refuses s found h = ground arith

    pub upsert_updates :
        (s : Obj)
        → l.get (k.meta_of x).namespace (k.meta_of x).name w ≡ ok s
        → is_managed_by_operator (k.meta_of s).labels ≡ true
        → run (upsert k c l x) w
          ≡ (value (c.update (k.merge s x) w).0, (c.update (k.merge s x) w).1)
    unfolding upsert settle
    upsert_updates s found h = ground arith

module _ {W Obj : Type 0} (k : Kind Obj) (c : Client W Obj) (l : Lister W Obj) where
  module _ (G : W → W → Type 0) (C : Type 0) where
    settle-Holds :
        (x : Obj)
        → Permits G c (λ o. (k.meta_of o).name) (k.meta_of x).name
        → ((s : Obj) → (k.meta_of (k.merge s x)).name ≡ (k.meta_of x).name)
        → (found : Result Obj) → Holds G C Anything (settle k c l x found)
    unfolding settle
    settle-Holds x permits same (err e) = elim (Bool-cases (is_not_found e)) [
      | inl missing ↦ rw missing (λ w. (permits.create_ok x refl w, tt))
      | inr failed ↦ rw failed tt
    ]
    settle-Holds x permits same (ok s) =
        elim (Bool-cases (is_managed_by_operator (k.meta_of s).labels)) [
          | inl managed ↦ rw managed (λ w. (permits.update_ok (k.merge s x) (same s) w, tt))
          | inr foreign ↦ rw foreign tt
        ]

    -- Whatever else happens, `upsert` writes only to the object of the desired one's name.
    pub upsert-Holds :
        (x : Obj)
        → ((w : W) → G w w)
        → Permits G c (λ o. (k.meta_of o).name) (k.meta_of x).name
        → ((s : Obj) → (k.meta_of (k.merge s x)).name ≡ (k.meta_of x).name)
        → Holds G C Anything (upsert k c l x)
    unfolding upsert
    upsert-Holds x reads permits same = λ w.
        (reads w, settle-Holds x permits same (l.get (k.meta_of x).namespace (k.meta_of x).name w))
