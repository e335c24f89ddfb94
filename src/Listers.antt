-- ===== src/Listers.antt =====
-- pkg/listers/jupyter/v1/notebook.go: the lister of notebooks over an informer's index.
pub mod Laws
use jupyter_operator.Common.{String, concat, Option, none, some, List, [], ◌∷◌, ◌++◌}
use jupyter_operator.Kube.{Error, not_found, Result, ok, err}
use jupyter_operator.Kube.Resource.{Lister}
use jupyter_operator.Types.{Notebook}

-- `cache.Indexer`, with `cache.ListAll` and `cache.ListAllByNamespace`: all the notebooks that they
-- pass to their last argument, in order, and their error. A selector of labels is of type `Selector`.
pub record Indexer (W Selector : Type 0) : Type 0 where
  pub get_by_key : String → W → Result (Option Notebook)
  -- the message of `errors.NewNotFound(v1.Resource("notebook"), name)`
  pub not_found_message : String → String
  pub list_all : Selector → W → List Notebook × Option Error
  pub list_all_by_namespace : String → Selector → W → List Notebook × Option Error

-- The error of errors.NewNotFound with its message.
abbrev pub not_found_error : String → Error
not_found_error message = record { reason = not_found; text = message }

-- The calls of `func(m interface{}) { ret = append(ret, m.(*v1.Notebook)) }`.
unfoldable pub append_each : List Notebook → List Notebook → List Notebook
append_each ret [] = ret
append_each ret (m ∷ ms) = append_each (ret ++ m ∷ []) ms

-- What follows the lookup in the index.
unfoldable pub found_or_not : String → Result (Option Notebook) → Result Notebook
found_or_not message (err e) = err e
found_or_not message (ok none) = err (not_found_error message)
found_or_not message (ok (some n)) = ok n

module _ {W Selector : Type 0} (indexer : Indexer W Selector) where
  unfoldable pub list_notebooks : Selector → W → List Notebook × Option Error
  unfolding append_each
  list_notebooks selector w =
      (append_each [] (indexer.list_all selector w).0, (indexer.list_all selector w).1)

  unfoldable pub list_in_namespace : String → Selector → W → List Notebook × Option Error
  unfolding append_each
  list_in_namespace namespace selector w = (
    append_each [] (indexer.list_all_by_namespace namespace selector w).0,
    (indexer.list_all_by_namespace namespace selector w).1,
  )

  unfoldable pub get_notebook : String → String → W → Result Notebook
  unfolding found_or_not
  get_notebook namespace name w =
      found_or_not (indexer.not_found_message name)
        (indexer.get_by_key (concat namespace (concat "/" name)) w)

  abbrev pub new_notebook_lister : Lister W Notebook
  new_notebook_lister = record { get = λ namespace name w. get_notebook namespace name w }
