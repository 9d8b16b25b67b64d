-- ===== src/ChartInspector.antt =====
-- internal/chartinspector/chartinspector.go: the client of the chart inspector service.
pub mod Laws
pub mod Keeping
mod Tests
use composition_dynamic_cont.Common.{
  ℕ, String, ◌<>◌, Bool, true, false, not, List, [], ◌∷◌, ◌++◌, ◌==◌, string_eq, nat_eq,
  if◌then◌else◌,
}
use composition_dynamic_cont.Common.Dict.{Dict, insert}
use composition_dynamic_cont.Common.Effect.{
  Error, failed, Outcome, ok, err, panic, Act, pure, fail, lift, wrap, ◌>>=◌,
}

pub record Resource : Type 0 where
  pub group : String
  pub version : String
  pub resource : String
  pub name : String
  pub namespace : String

pub record Parameters : Type 0 where
  pub composition_name : String
  pub composition_namespace : String
  pub composition_group : String
  pub composition_version : String
  pub composition_resource : String
  pub composition_definition_name : String
  pub composition_definition_namespace : String
  pub composition_definition_group : String
  pub composition_definition_version : String
  pub composition_definition_resource : String

-- net/url, net/http and encoding/json. A body is read once. `token` tells whether its first token
-- is `[`. `elements` are the results of `Decode` for as long as `More` holds behind that token, and
-- `rest` is the result of one `Decode` into a slice behind any other.
pub record Http (W : Type 0) : Type 1 where
  pub Body : Type 0
  pub join_path : String → String → Outcome String
  pub new_request : String → Outcome (Dict String)
  pub get : String → Dict String → Act W (ℕ × Body)
  pub read_all : Body → Outcome String
  pub decimal : ℕ → String
  pub token : Body → Outcome Bool
  pub elements : Body → List (Outcome Resource)
  pub rest : Body → Outcome (List Resource)

required : String → String → Outcome (Unit {0}) → Outcome (Unit {0})
required value name next = if value == "" then err (failed (name <> " is required")) else next

unfoldable pub validate : Parameters → Outcome (Unit {0})
unfolding required
validate p = required p.composition_name "compositionName" (
    required p.composition_namespace "compositionNamespace" (
      required p.composition_version "compositionVersion" (
        required p.composition_resource "compositionResource" (
          required p.composition_definition_name "compositionDefinitionName" (
            required p.composition_definition_namespace "compositionDefinitionNamespace"
              (ok tt))))))

unfoldable pub set_query_if_not_empty : String → String → Dict String → Dict String
set_query_if_not_empty key value query = if value == "" then query else insert key value query

unfoldable pub build_query : Parameters → Dict String → Dict String
build_query p q₀ =
    let q₁ = set_query_if_not_empty "compositionName" p.composition_name q₀ in
    let q₂ = set_query_if_not_empty "compositionNamespace" p.composition_namespace q₁ in
    let q₃ = set_query_if_not_empty "compositionDefinitionName" p.composition_definition_name q₂ in
    let q₄ =
      set_query_if_not_empty "compositionDefinitionNamespace" p.composition_definition_namespace
        q₃ in
    let q₅ =
      set_query_if_not_empty "compositionDefinitionGroup" p.composition_definition_group q₄ in
    let q₆ =
      set_query_if_not_empty "compositionDefinitionVersion" p.composition_definition_version q₅ in
    let q₇ =
      set_query_if_not_empty "compositionDefinitionResource" p.composition_definition_resource q₆ in
    let q₈ = set_query_if_not_empty "compositionGroup" p.composition_group q₇ in
    let q₉ = set_query_if_not_empty "compositionVersion" p.composition_version q₈ in
    set_query_if_not_empty "compositionResource" p.composition_resource q₉

-- The loop over `dec.More()`.
unfoldable pub collect : List Resource → List (Outcome Resource) → Outcome (List Resource)
collect resources [] = ok resources
collect resources (ok r ∷ more) = collect (resources ++ r ∷ []) more
collect resources (err e ∷ more) = err e
collect resources (panic ∷ more) = panic

module _ {W : Type 0} (h : Http W) where
  decode_body : h.Body → Act W (List Resource)
  decode_body body = do
    array ← wrap "decoding chartinspector response" (lift (h.token body))
    if array
        then wrap "decoding chartinspector element" (lift (collect [] (h.elements body)))
        else wrap "decoding chartinspector response" (lift (h.rest body))

  unexpected : ℕ → h.Body → Act W (List Resource)
  unexpected status body = do
    text ← wrap "reading response body" (lift (h.read_all body))
    fail (
        failed ("unexpected status code: " <> (h.decimal status <> (" - response body: " <> text))))

  -- `Resources` of an inspector with this server.
  unfoldable pub list_resources : String → Parameters → Act W (List Resource)
  unfolding decode_body unexpected
  list_resources server p = do
    _ ← wrap "validating parameters" (lift (validate p))
    u ← wrap "joining server url" (lift (h.join_path server "/resources"))
    query ← wrap "creating request" (lift (h.new_request u))
    (status, body) ← wrap "getting chartinspector" (h.get u (build_query p query))
    if not (status == 200) then unexpected status body else decode_body body
