-- ===== src/OpenApi/Closed.antt =====
-- The table of pkg/apis/jupyter/v1/openapi_generated.go as a whole.
use jupyter_operator.Common.{
  String, Bool, true, false, ◌&&◌, ◌||◌, some, List, [], ◌∷◌, ◌++◌, ◌≡◌, refl, ◌==◌, lookup, eq_iff,
  arith,
}
use jupyter_operator.OpenApi.Schema.{
  Schema, primitive, ref, array, map_of, merged, Definition, TimeSchemas,
}
use jupyter_operator.OpenApi.Meta.FromGroupVersionKind.{micro_time_schema}
use jupyter_operator.OpenApi.Meta.FromPreconditions.{time_schema}
use jupyter_operator.OpenApi.Table.{get_open_api_definitions}

-- The names that a schema refers to.
abbrev pub references : Schema → List String
references (primitive type format) = []
references (ref name) = name ∷ []
references (array items) = references items
references (map_of values) = references values
references (merged key strategy schema) = references schema

abbrev pub property_references : List (String × Schema) → List String
property_references [] = []
property_references ((name, schema) ∷ rest) = references schema ++ property_references rest

abbrev pub every {ℓ} : {A : Type ℓ} → (A → Bool) → List A → Bool
every test [] = true
every test (x ∷ xs) = test x && every test xs

abbrev pub member : String → List String → Bool
member name [] = false
member name (x ∷ xs) = x == name || member name xs

abbrev pub keys {ℓ} : {A : Type ℓ} → List (String × A) → List String
keys [] = []
keys ((key, x) ∷ rest) = key ∷ keys rest

-- The types of other packages, for which the table has no definition.
abbrev pub outside : List String
outside =
    "k8s.io/api/extensions/v1beta1.IngressBackend" ∷ "k8s.io/apimachinery/pkg/api/resource.Quantity"
    ∷ "k8s.io/apimachinery/pkg/util/intstr.IntOrString"
    ∷ "k8s.io/apimachinery/pkg/runtime.RawExtension" ∷ "k8s.io/apimachinery/pkg/runtime.Object" ∷ []

-- Its references are to definitions of the table or of other packages, its dependencies are what it
-- refers to, and what it requires is a property.
pub record IsClosed (names : List String) (d : Definition) : Type 0 where
  pub resolved :
      every (λ r. member r names || member r outside) (property_references d.properties) ≡ true
  pub dependencies_used :
      every (λ r. member r (property_references d.properties)) d.dependencies ≡ true
  pub dependencies_complete :
      every (λ r. member r d.dependencies) (property_references d.properties) ≡ true
  pub required_declared : every (λ r. member r (keys d.properties)) d.required ≡ true

is_closed : List String → Definition → Bool
is_closed names d =
    every (λ r. member r names || member r outside) (property_references d.properties)
    && every (λ r. member r (property_references d.properties)) d.dependencies
    && every (λ r. member r d.dependencies) (property_references d.properties)
    && every (λ r. member r (keys d.properties)) d.required

is_closed-IsClosed :
    (names : List String) (d : Definition) → is_closed names d ≡ true → IsClosed names d
unfolding is_closed
is_closed-IsClosed names d h = record {
  resolved = ground arith;
  dependencies_used = ground arith;
  dependencies_complete = ground arith;
  required_declared = ground arith;
}

all_closed :
    (times : TimeSchemas)
    → every
        (λ e. is_closed (keys (get_open_api_definitions times)) e.1)
        (get_open_api_definitions times)
      ≡ true
unfolding is_closed get_open_api_definitions micro_time_schema time_schema
all_closed times = refl

-- A test that every entry of a table passes is passed by what is found under a name.
pub every-lookup :
    {A : Type 0} (test : String × A → Bool) (table : List (String × A)) (name : String) (x : A)
    → every test table ≡ true
    → lookup name table ≡ some x
    → test (name, x) ≡ true
unfolding lookup
every-lookup test [] name x h e = cc
every-lookup test ((key, y) ∷ rest) name x h e =
    ground (arith, eq_iff key name, every-lookup test rest name x)

-- Every definition of the table is closed: each reference in it, at any depth of its properties, names a
-- definition of the table or one of five types of other packages; its dependencies are exactly the names
-- that it refers to; and each key that it requires is one of its properties.
pub lookup-IsClosed :
    (times : TimeSchemas) (name : String) (d : Definition)
    → lookup name (get_open_api_definitions times) ≡ some d
    → IsClosed (keys (get_open_api_definitions times)) d
lookup-IsClosed times name d e = is_closed-IsClosed _ d (
    every-lookup
      (λ (e : String × Definition). is_closed (keys (get_open_api_definitions times)) e.1) _ name d
      (all_closed times) e)
