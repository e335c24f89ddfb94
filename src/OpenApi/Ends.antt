-- ===== src/OpenApi/Ends.antt =====
-- How long a chain of the references of pkg/apis/jupyter/v1/openapi_generated.go can be.
use jupyter_operator.Common.{
  ℕ, zero, suc, String, Bool, true, false, Option, none, some, List, [], ◌∷◌, ◌≡◌, refl, lookup,
  eq_iff, arith, inl, inr, Option-cases, length, ◌≤◌,
}
use jupyter_operator.OpenApi.Schema.{Definition, TimeSchemas}
use jupyter_operator.OpenApi.Meta.FromGroupVersionKind.{micro_time_schema}
use jupyter_operator.OpenApi.Meta.FromPreconditions.{time_schema}
use jupyter_operator.OpenApi.Table.{get_open_api_definitions}
use jupyter_operator.OpenApi.Closed.{property_references, every, member, every-lookup}

-- What the definition of a name refers to: nothing, if there is none.
abbrev pub references_of : Option Definition → List String
references_of none = []
references_of (some d) = property_references d.properties

module _ (table : List (String × Definition)) where
  -- The first name is one that the definition of the second refers to.
  abbrev pub Refers : String → String → Type 0
  Refers r name = member r (references_of (lookup name table)) ≡ true

  -- Chains of references from a name have fewer names than the fuel.
  ends : ℕ → String → Bool
  unfolding lookup
  ends zero name = false
  ends (suc fuel) name = every (ends fuel) (references_of (lookup name table))

  every-member :
      (test : String → Bool) (names : List String) (r : String)
      → every test names ≡ true
      → member r names ≡ true
      → test r ≡ true
  every-member test [] r h m = cc
  every-member test (x ∷ xs) r h m = ground (arith, eq_iff x r, every-member test xs r)

all_end :
    (times : TimeSchemas)
    → every (λ e. ends (get_open_api_definitions times) 12 e.0) (get_open_api_definitions times)
      ≡ true
unfolding ends get_open_api_definitions micro_time_schema time_schema
all_end times = refl

-- One name after the other, each referred to by the definition of the one before.
abbrev pub IsChain : List (String × Definition) → List String → Type 0
IsChain table [] = Unit
IsChain table (name ∷ []) = Unit
IsChain table (name ∷ next ∷ rest) = Refers table next name × IsChain table (next ∷ rest)

length-le-fuel :
    (table : List (String × Definition)) (fuel : ℕ) (name : String) (rest : List String)
    → ends table fuel name ≡ true
    → IsChain table (name ∷ rest)
    → length (name ∷ rest) ≤ fuel
unfolding ends
length-le-fuel table zero name rest h chain = cc
length-le-fuel table (suc fuel) name [] h chain = omega arith
length-le-fuel table (suc fuel) name (next ∷ rest) h (refers, chain) =
    let below =
      every-member table (ends table fuel) (references_of (lookup name table)) next h refers in
    omega (arith, length-le-fuel table fuel next rest below chain)

module _ (times : TimeSchemas) where
  ends_lem : (name : String) → ends (get_open_api_definitions times) 12 name ≡ true
  unfolding ends
  ends_lem name = elim (Option-cases (lookup name (get_open_api_definitions times))) [
    | inl missing ↦ rw missing refl
    | inr (d, found) ↦
        every-lookup (λ (e : String × Definition). ends (get_open_api_definitions times) 12 e.0)
          (get_open_api_definitions times) name d (all_end times) found
  ]

  -- No chain of references has more than 12 names.
  pub chain_bounded :
      (names : List String) → IsChain (get_open_api_definitions times) names → length names ≤ 12
  chain_bounded [] chain = omega arith
  chain_bounded (name ∷ rest) chain =
      length-le-fuel (get_open_api_definitions times) 12 name rest (ends_lem name) chain
