-- ===== src/ChartInspector/Laws.antt =====
-- What is asked of the chart inspector, and what is made of its answer.
use composition_dynamic_cont.Common.{
  String, Option, none, some, List, [], ◌∷◌, ◌++◌, ◌≡◌, ◌≢◌, ◌↔◌, refl, ◌==◌, string_eq,
  if◌then◌else◌, arith, eq_iff, map, ◌∙◌, inl, inr,
}
use mathlib.Core.List.{append_assoc, append-nil}
use composition_dynamic_cont.Common.Dict.{Dict, lookup, lookup-insert}
use composition_dynamic_cont.Common.Effect.{
  Error, Outcome, Outcome-cases, ok, err, panic, wrap_error,
}
use composition_dynamic_cont.ChartInspector.{
  Resource, Parameters, Http, validate, set_query_if_not_empty, build_query, collect,
  list_resources,
}

-- The six fields that a request needs.
abbrev pub IsComplete : Parameters → Type 0
IsComplete p =
    (p.composition_name ≢ "")
    × (p.composition_namespace ≢ "")
    × (p.composition_version ≢ "")
    × (p.composition_resource ≢ "")
    × (p.composition_definition_name ≢ "")
    × (p.composition_definition_namespace ≢ "")

-- Validation passes exactly if the six required fields are there.
pub validate_iff : (p : Parameters) → (validate p ≡ ok tt) ↔ IsComplete p
unfolding validate
validate_iff p = ground (
  arith,
  eq_iff p.composition_name "",
  eq_iff p.composition_namespace "",
  eq_iff p.composition_version "",
  eq_iff p.composition_resource "",
  eq_iff p.composition_definition_name "",
  eq_iff p.composition_definition_namespace "",
)

validate-ne-panic : (p : Parameters) → validate p ≢ panic
unfolding validate
validate-ne-panic p = ground arith

collect-map-ok : (acc rs : List Resource) → collect acc (map ok rs) ≡ ok (acc ++ rs)
unfolding collect
collect-map-ok acc [] = rw append-nil
collect-map-ok acc (r ∷ rs) = collect-map-ok (acc ++ r ∷ []) rs ∙ rw append_assoc

collect-err :
    (acc rs : List Resource) (e : Error) (more : List (Outcome Resource))
    → collect acc (map ok rs ++ err e ∷ more) ≡ err e
unfolding collect
collect-err acc [] e more = refl
collect-err acc (r ∷ rs) e more = collect-err (acc ++ r ∷ []) rs e more

-- The stream of an array is returned whole and in order; at the first element that does not decode
-- the error is returned, and nothing of what was read.
pub collect_lem :
    (rs : List Resource) (e : Error) (more : List (Outcome Resource))
    → (collect [] (map ok rs) ≡ ok rs) × (collect [] (map ok rs ++ err e ∷ more) ≡ err e)
collect_lem rs e more = (collect-map-ok [] rs, collect-err [] rs e more)

module _ {W : Type 0} (h : Http W) where
  -- A request with a required field missing is refused before anything is sent.
  pub list_resources_refused :
      (server : String) (p : Parameters) (w : W)
      → ¬ IsComplete p
      → (e : Error) × (list_resources h server p w ≡ (err e, w))
  unfolding list_resources
  list_resources_refused server p w incomplete = elim (Outcome-cases (validate p)) [
    | inl (_, valid) ↦ absurd (incomplete ((validate_iff p).0 valid))
    | inr (inl (e, invalid)) ↦ (wrap_error "validating parameters" e, ground arith)
    | inr (inr crashed) ↦ absurd (validate-ne-panic p crashed)
  ]

-- A parameter of the query: absent if the value is empty.
abbrev pub parameter : String → Option String
parameter value = if value == "" then none else some value

-- Parameters set one after another, the last one first.
abbrev set_all : List (String × String) → Dict String
set_all [] = []
set_all ((key, value) ∷ rest) = set_query_if_not_empty key value (set_all rest)

abbrev found_in : String → List (String × String) → Option String
found_in read [] = none
found_in read ((key, value) ∷ rest) =
    if key == read
    then if value == "" then found_in read rest else some value
    else found_in read rest

lookup-set_all :
    (read : String) (ps : List (String × String)) → lookup read (set_all ps) ≡ found_in read ps
unfolding set_query_if_not_empty lookup
lookup-set_all read [] = refl
lookup-set_all read ((key, value) ∷ rest) =
    ground (arith, lookup-set_all read rest, lookup-insert key read value (set_all rest))

abbrev pairs : Parameters → List (String × String)
pairs p =
    ("compositionResource", p.composition_resource)
    ∷ ("compositionVersion", p.composition_version)
    ∷ ("compositionGroup", p.composition_group)
    ∷ ("compositionDefinitionResource", p.composition_definition_resource)
    ∷ ("compositionDefinitionVersion", p.composition_definition_version)
    ∷ ("compositionDefinitionGroup", p.composition_definition_group)
    ∷ ("compositionDefinitionNamespace", p.composition_definition_namespace)
    ∷ ("compositionDefinitionName", p.composition_definition_name)
    ∷ ("compositionNamespace", p.composition_namespace)
    ∷ ("compositionName", p.composition_name)
    ∷ []

-- The query of a request without one: each of the ten parameters stands under its own name, and is
-- absent exactly if its value is empty.
pub build_query_lem :
    (p : Parameters)
    → (lookup "compositionName" (build_query p []) ≡ parameter p.composition_name)
      × (lookup "compositionNamespace" (build_query p []) ≡ parameter p.composition_namespace)
      × (lookup "compositionGroup" (build_query p []) ≡ parameter p.composition_group)
      × (lookup "compositionVersion" (build_query p []) ≡ parameter p.composition_version)
      × (lookup "compositionResource" (build_query p []) ≡ parameter p.composition_resource)
      × (lookup "compositionDefinitionName" (build_query p [])
          ≡ parameter p.composition_definition_name)
      × (lookup "compositionDefinitionNamespace" (build_query p [])
          ≡ parameter p.composition_definition_namespace)
      × (lookup "compositionDefinitionGroup" (build_query p [])
          ≡ parameter p.composition_definition_group)
      × (lookup "compositionDefinitionVersion" (build_query p [])
          ≡ parameter p.composition_definition_version)
      × (lookup "compositionDefinitionResource" (build_query p [])
          ≡ parameter p.composition_definition_resource)
unfolding build_query
build_query_lem p = (
  lookup-set_all "compositionName" (pairs p),
  lookup-set_all "compositionNamespace" (pairs p),
  lookup-set_all "compositionGroup" (pairs p),
  lookup-set_all "compositionVersion" (pairs p),
  lookup-set_all "compositionResource" (pairs p),
  lookup-set_all "compositionDefinitionName" (pairs p),
  lookup-set_all "compositionDefinitionNamespace" (pairs p),
  lookup-set_all "compositionDefinitionGroup" (pairs p),
  lookup-set_all "compositionDefinitionVersion" (pairs p),
  lookup-set_all "compositionDefinitionResource" (pairs p),
)
