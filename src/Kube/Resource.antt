-- ===== src/Kube/Resource.antt =====
-- The clients and listers of one kind of object, as the code calls them. What they do is the API
-- server's and the informer's: each call is one atomic step on the shared world.
use jupyter_operator.Common.{String, Option}
use jupyter_operator.Kube.{Error, Result}

-- `metav1.DeleteOptions`, of which the code sets the propagation policy only.
pub data Propagation : Type 0 where
  unset foreground : Propagation

-- A namespaced client. The objects that `create` and `update` return are ignored by the code.
pub record Client (W Obj : Type 0) : Type 0 where
  pub create : Obj → W → Option Error × W
  pub update : Obj → W → Option Error × W
  pub delete : String → Propagation → W → Option Error × W

-- `lister.Xs(namespace).Get(name)`.
pub record Lister (W Obj : Type 0) : Type 0 where
  pub get : String → String → W → Result Obj
