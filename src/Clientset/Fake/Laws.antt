-- ===== src/Clientset/Fake/Laws.antt =====
-- What the client for tests returns: pkg/clientset/versioned/typed/jupyter/v1/fake/fake_notebook.go.
use mathlib.Core.List.{append_assoc, append-nil}
use jupyter_operator.Common.{
  String, Option, none, some, List, [], ◌∷◌, ◌++◌, ◌≡◌, refl, sym, ap, if◌then◌else◌, arith,
}
use jupyter_operator.Kube.{Error}
use jupyter_operator.Prog.{Outcome, value, panics}
use jupyter_operator.Prog.Run.{run}
use jupyter_operator.Types.{Notebook}
use jupyter_operator.Clientset.{Vendored}
use jupyter_operator.Clientset.Fake.{
  Selection, TrackedObject, a_notebook, a_list, another, list_kind, Tracker, list_action,
  notebooks_resource, notebooks_gvk, label_or_everything, append_matching, selected, as_list,
  fake_list,
}

-- The notebooks of a list whose labels a selector matches, in their order.
abbrev pub matching : {V : Vendored} (S : Selection V) → S.Selector → List Notebook → List Notebook
matching S label [] = []
matching S label (n ∷ rest) =
    let others = matching S label rest in
    if S.matches label n.meta.labels then n ∷ others else others

-- What `List` returns for an answer of the tracker.
abbrev pub listed :
    {V : Vendored} (S : Selection V)
    → S.Selector
    → Option (TrackedObject V) × Option Error
    → Outcome (Option V.NotebookList × Option Error)
listed S label (none, e) = value (none, e)
listed S label (some (a_list l), e) =
    value (some (S.make_list (S.list_meta l) (matching S label (S.items l))), e)
listed S label (some _, e) = panics "interface conversion"

append_matching-matching :
    {V : Vendored} (S : Selection V) (label : S.Selector) (list items : List Notebook)
    → append_matching S label list items ≡ list ++ matching S label items
unfolding append_matching
append_matching-matching S label list [] = sym (append-nil list)
append_matching-matching S label list (n ∷ rest) = ground (
  arith,
  append_matching-matching S label (list ++ n ∷ []) rest,
  append_matching-matching S label list rest,
  append_assoc list (n ∷ []) (matching S label rest),
)

module _ {V : Vendored} (S : Selection V) {W : Type 0} (fake : Tracker V W) (ns : String) where
  listed-run :
      (opts : V.ListOptions) (answer : Option (TrackedObject V) × Option Error) (w : W)
      → run (as_list S opts answer) w
        ≡ (listed S (label_or_everything S (S.label_of opts)) answer, w)
  unfolding selected
  listed-run opts (none, e) w = refl
  listed-run opts (some (a_list l), e) w =
      ap (λ items. (value (some (S.make_list (S.list_meta l) items), e), w))
        (append_matching-matching S (label_or_everything S (S.label_of opts)) [] (S.items l))
  listed-run opts (some (a_notebook n), e) w = refl
  listed-run opts (some another, e) w = refl

  -- `List` of the client for tests asks the tracker once, for the notebooks of its namespace. It returns
  -- no list where the answer is nil; of a list, with its metadata, the notebooks that the label selector
  -- of the options matches, in their order, and all of them where there is no selector; and it panics on
  -- an answer of another type. The error is that of the tracker.
  pub fake_list_lem :
      (opts : V.ListOptions) (w : W)
      → run (fake_list fake ns S opts) w ≡ (
        listed S
            (label_or_everything S (S.label_of opts))
            (fake.invokes (list_action notebooks_resource notebooks_gvk ns opts) list_kind w).0,
        (fake.invokes (list_action notebooks_resource notebooks_gvk ns opts) list_kind w).1,
      )
  unfolding fake_list
  fake_list_lem opts w = listed-run opts _ _
