-- ===== src/OpenApi/Conforms.antt =====
-- What a definition of pkg/apis/jupyter/v1/openapi_generated.go says of a JSON value, when each
-- reference is replaced by the definition of that name, and by the empty schema where there is none.
-- The CRD is made in this way.
pub mod Notebooks
use jupyter_operator.Common.{
  ℕ, zero, suc, String, Bool, true, false, ◌&&◌, Option, none, some, List, [], ◌∷◌, ◌==◌, lookup,
  is_some,
}
use jupyter_operator.Types.Json
use jupyter_operator.Types.Json.{Json, Items, nil, cons, Fields, end, field, get}
use jupyter_operator.OpenApi.Schema.{Schema, primitive, ref, array, map_of, merged, Definition}
use jupyter_operator.OpenApi.Closed.{every, member}

abbrev pub type_name : Json → String
type_name Json.null = "null"
type_name (Json.boolean b) = "boolean"
type_name (Json.number n) = "integer"
type_name (Json.text s) = "string"
type_name (Json.array items) = "array"
type_name (Json.object fields) = "object"

abbrev pub every_item : (Json → Bool) → Items → Bool
every_item test nil = true
every_item test (cons j rest) = test j && every_item test rest

abbrev pub every_value : (Json → Bool) → Fields → Bool
every_value test end = true
every_value test (field key j rest) = test j && every_value test rest

abbrev pub items_conform : (Json → Bool) → Json → Bool
items_conform test (Json.array items) = every_item test items
items_conform test j = false

abbrev pub values_conform : (Json → Bool) → Json → Bool
values_conform test (Json.object fields) = every_value test fields
values_conform test j = false

-- A key that is missing conforms to its schema.
abbrev pub if_present : (Json → Bool) → Option Json → Bool
if_present test none = true
if_present test (some j) = test j

module _ (test : Schema → Json → Bool) (d : Definition) where
  -- `required` and `properties`; other keys are allowed.
  abbrev pub keys_conform : (String → Option Json) → Bool
  keys_conform at =
      every (λ key. is_some (at key)) d.required
      && every (λ (property : String × Schema). if_present (test property.1) (at property.0))
          d.properties

  -- They say something of objects only.
  abbrev pub object_conforms : Json → Bool
  object_conforms (Json.object fields) = keys_conform (get fields)
  object_conforms j = true

  abbrev pub definition_conforms : Json → Bool
  definition_conforms j = member (type_name j) d.type && object_conforms j

abbrev pub resolved_conforms : (Schema → Json → Bool) → Option Definition → Json → Bool
resolved_conforms test none j = true
resolved_conforms test (some d) j = definition_conforms test d j

-- The fuel bounds the depth of references.
unfoldable pub conforms : List (String × Definition) → ℕ → Schema → Json → Bool
unfolding lookup get
conforms table fuel (primitive type format) j = type_name j == type
conforms table zero (ref name) j = false
conforms table (suc fuel) (ref name) j =
    resolved_conforms (conforms table fuel) (lookup name table) j
conforms table fuel (array items) j = items_conform (conforms table fuel items) j
conforms table fuel (map_of values) j = values_conform (conforms table fuel values) j
conforms table fuel (merged key strategy schema) j = conforms table fuel schema j
