-- ===== src/Listers/Laws.antt =====
-- What the lister answers.
use mathlib.Core.Path.{ap}
use mathlib.Core.List.{append-nil, append_assoc}
use jupyter_operator.Common.{
  String, true, concat, Option, none, some, List, [], ◌∷◌, ◌++◌, ◌≡◌, refl, sym, ◌∙◌,
}
use jupyter_operator.Kube.{Error, Result, ok, err, is_not_found}
use jupyter_operator.Types.{Notebook}
use jupyter_operator.Listers.{
  Indexer, append_each, found_or_not, list_notebooks, list_in_namespace, get_notebook,
}

append_each_lem : (ret ms : List Notebook) → append_each ret ms ≡ ret ++ ms
unfolding append_each
append_each_lem ret [] = sym (append-nil ret)
append_each_lem ret (m ∷ ms) = append_each_lem (ret ++ m ∷ []) ms ∙ append_assoc ret (m ∷ []) ms

-- The answer of `Get` for an answer of the index: the notebook, a not-found error for none, and the
-- index's own error.
abbrev pub Answers : Result (Option Notebook) → Result Notebook → Type 0
Answers (ok (some n)) answer = answer ≡ ok n
Answers (ok none) answer = (e : Error) × (answer ≡ err e) × (is_not_found e ≡ true)
Answers (err e) answer = answer ≡ err e

found_or_not-Answers :
    (name : String) (found : Result (Option Notebook)) → Answers found (found_or_not name found)
unfolding found_or_not
found_or_not-Answers name (ok (some n)) = refl
found_or_not-Answers name (ok none) = (_, refl, refl)
found_or_not-Answers name (err e) = refl

module _ {W Selector : Type 0} (indexer : Indexer W Selector) where
  -- The lister returns what the index has: both lists in the order of the index, with the error of the
  -- index, and for a namespace and a name the notebook under the key "namespace/name", an error that
  -- `IsNotFound` recognises if there is none, and the index's own error otherwise.
  pub lister_lem :
      (selector : Selector) (namespace name : String) (w : W)
      → (list_notebooks indexer selector w ≡ indexer.list_all selector w)
        × (list_in_namespace indexer namespace selector w
            ≡ indexer.list_all_by_namespace namespace selector w)
        × Answers
            (indexer.get_by_key (concat namespace (concat "/" name)) w)
            (get_notebook indexer namespace name w)
  unfolding list_notebooks list_in_namespace get_notebook
  lister_lem selector namespace name w = (
    ap (λ ms. (ms, (indexer.list_all selector w).1))
        (append_each_lem [] (indexer.list_all selector w).0),
    ap (λ ms. (ms, (indexer.list_all_by_namespace namespace selector w).1))
        (append_each_lem [] (indexer.list_all_by_namespace namespace selector w).0),
    found_or_not-Answers (indexer.not_found_message name)
        (indexer.get_by_key (concat namespace (concat "/" name)) w),
  )
