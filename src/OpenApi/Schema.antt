-- ===== src/OpenApi/Schema.antt =====
-- The schemas that pkg/apis/jupyter/v1/openapi_generated.go is written in: what it sets of the types of
-- go-openapi and kube-openapi, without the descriptions.
use jupyter_operator.Common.{String, Option, List, [], ◌∷◌, concat}

-- `ref` is `ref(name)`, the reference to another definition. `merged` has the extensions
-- `x-kubernetes-patch-merge-key` and `x-kubernetes-patch-strategy`.
pub data Schema : Type 0 where
  -- `Type` and `Format`
  primitive : String → String → Schema
  ref : String → Schema
  -- `Items`
  array : Schema → Schema
  -- `AdditionalProperties`, allowed
  map_of : Schema → Schema
  merged : Option String → String → Schema → Schema

abbrev pub text : Schema
text = primitive "string" ""

abbrev pub bytes : Schema
bytes = primitive "string" "byte"

abbrev pub boolean : Schema
boolean = primitive "boolean" ""

abbrev pub int32 : Schema
int32 = primitive "integer" "int32"

abbrev pub int64 : Schema
int64 = primitive "integer" "int64"

-- `common.OpenAPIDefinition`
pub record Definition : Type 0 where
  pub type : List String
  pub format : String
  pub properties : List (String × Schema)
  pub required : List String
  pub dependencies : List String

abbrev pub object : List (String × Schema) → List String → List String → Definition
object properties required dependencies = record {
  type = "object" ∷ [];
  format = "";
  properties = properties;
  required = required;
  dependencies = dependencies;
}

-- The results of the methods `OpenAPISchemaType` and `OpenAPISchemaFormat` of the vendored times.
pub record TimeSchemas : Type 0 where
  pub time_type : List String
  pub time_format : String
  pub micro_time_type : List String
  pub micro_time_format : String

-- The names of definitions, by package.
abbrev pub core : String → String
core name = concat "k8s.io/api/core/v1." name

abbrev pub meta : String → String
meta name = concat "k8s.io/apimachinery/pkg/apis/meta/v1." name

abbrev pub jupyter : String → String
jupyter name = concat "github.com/squat/jupyter-operator/pkg/apis/jupyter/v1." name
