-- ===== src/Types/Json.antt =====
-- JSON values, and the rules of encoding/json that pkg/apis/jupyter/v1/types.go uses with its tags.
use mathlib.Core.Path.{fun_ext}
use jupyter_operator.Common.{
  ℤ, pos, negsuc, zero, suc, String, Bool, Option, none, some, List, [], ◌∷◌, ◌≡◌, refl, ◌==◌,
  arith, if◌then◌else◌,
}

mutual
  pub data Json : Type 0 where
    null : Json
    boolean : Bool → Json
    number : ℤ → Json
    text : String → Json
    array : Items → Json
    object : Fields → Json

  pub data Items : Type 0 where
    nil : Items
    cons : Json → Items → Items

  pub data Fields : Type 0 where
    end : Fields
    field : String → Json → Fields → Fields

-- What an object has under a key.
unfoldable pub get : Fields → String → Option Json
get end key = none
get (field k j rest) key = let later = get rest key in if k == key then some j else later

-- A struct as an object: its fields in order, without those that `omitempty` drops.
unfoldable pub fields_of : List (String × Option Json) → Fields
fields_of [] = end
fields_of ((key, none) ∷ rest) = fields_of rest
fields_of ((key, some j) ∷ rest) = field key j (fields_of rest)

-- A pointer with `omitempty`.
abbrev pub optional {ℓ} : {A : Type ℓ} → (A → Json) → Option A → Option Json
optional encode none = none
optional encode (some a) = some (encode a)

-- A string, a number and a slice of strings with `omitempty`.
abbrev pub non_empty_text : String → Option Json
non_empty_text s = if s == "" then none else some (text s)

abbrev pub non_zero : ℤ → Option Json
non_zero (pos zero) = none
non_zero (pos (suc n)) = some (number (pos (suc n)))
non_zero (negsuc n) = some (number (negsuc n))

abbrev pub texts : List String → Items
texts [] = nil
texts (s ∷ rest) = cons (text s) (texts rest)

abbrev pub non_empty_texts : List String → Option Json
non_empty_texts [] = none
non_empty_texts (s ∷ rest) = some (array (texts (s ∷ rest)))

-- Decoding a field: `none` is an error. A missing key and `null` leave the zero value.
abbrev pub as_value : {A : Type 0} → A → (Json → Option A) → Option Json → Option A
as_value zero_value decode none = some zero_value
as_value zero_value decode (some null) = some zero_value
as_value zero_value decode (some j) = decode j

-- A pointer to a new variable, unless its value was refused.
abbrev pub new_pointer : {A : Type 0} → Option A → Option (Option A)
new_pointer none = none
new_pointer (some a) = some (some a)

abbrev pub pointer_to : {A : Type 0} → (Json → Option A) → Option Json → Option (Option A)
pointer_to decode none = some none
pointer_to decode (some null) = some none
pointer_to decode (some j) = new_pointer (decode j)

abbrev pub to_text : Json → Option String
to_text (text s) = some s
to_text _ = none

abbrev pub to_boolean : Json → Option Bool
to_boolean (boolean b) = some b
to_boolean _ = none

abbrev pub to_number : Json → Option ℤ
to_number (number n) = some n
to_number _ = none

abbrev pub prepend : Option String → Option (List String) → Option (List String)
prepend (some s) (some rest) = some (s ∷ rest)
prepend _ _ = none

abbrev pub to_list : Items → Option (List String)
to_list nil = some []
to_list (cons j rest) = prepend (as_value "" to_text (some j)) (to_list rest)

abbrev pub to_texts : Json → Option (List String)
to_texts (array items) = to_list items
to_texts _ = none

-- What `get` finds among the fields of a struct.
abbrev pub first : Option Json → Option Json → Option Json
first none later = later
first (some j) later = some j

abbrev pub find : List (String × Option Json) → String → Option Json
find [] key = none
find ((k, j) ∷ rest) key = let later = find rest key in if k == key then first j later else later

get-fields_of_at :
    (fields : List (String × Option Json)) (key : String)
    → get (fields_of fields) key ≡ find fields key
unfolding get fields_of
get-fields_of_at [] key = refl
get-fields_of_at ((k, none) ∷ rest) key = ground (arith, get-fields_of_at rest key)
get-fields_of_at ((k, some j) ∷ rest) key = ground (arith, get-fields_of_at rest key)

pub get-fields_of : (fields : List (String × Option Json)) → get (fields_of fields) ≡ find fields
get-fields_of fields = fun_ext (get-fields_of_at fields)
