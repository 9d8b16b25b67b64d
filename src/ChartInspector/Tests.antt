-- ===== src/ChartInspector/Tests.antt =====
-- Runs of the inspector's client.
use composition_dynamic_cont.Common.{
  ℕ, ◌+◌, String, true, none, some, [], ◌∷◌, ◌++◌, ◌≡◌, ◌↔◌, refl, map,
}
use composition_dynamic_cont.Common.Dict.{lookup}
use composition_dynamic_cont.Common.Effect.{Error, failed, ok, err}
use composition_dynamic_cont.ChartInspector.{
  Resource, Parameters, Http, validate, build_query, collect, list_resources,
}
use composition_dynamic_cont.ChartInspector.Laws.{
  IsComplete, validate_iff, collect_lem, list_resources_refused, build_query_lem,
}

abbrev pod : Resource
pod = record { group = ""; version = "v1"; resource = "pods"; name = "p"; namespace = "web" }

-- The namespace of the composition is missing.
abbrev parameters : Parameters
parameters = record {
  composition_name = "site";
  composition_namespace = "";
  composition_group = "composition.krateo.io";
  composition_version = "v1";
  composition_resource = "sites";
  composition_definition_name = "site-definition";
  composition_definition_namespace = "krateo";
  composition_definition_group = "core.krateo.io";
  composition_definition_version = "v1";
  composition_definition_resource = "definitions";
}

-- A service that counts the requests and answers each with one pod.
abbrev http : Http ℕ
http = record {
  Body = String;
  join_path = λ server path. ok server;
  new_request = λ u. ok [];
  get = λ u query n. (ok (200, "[...]"), n + 1);
  read_all = λ body. ok body;
  decimal = λ n. "";
  token = λ body. ok true;
  elements = λ body. ok pod ∷ [];
  rest = λ body. ok [];
}

parameters-Incomplete : ¬ IsComplete parameters
parameters-Incomplete (_, named, _, _, _, _) = absurd (named refl)

validate_iff_example : (validate parameters ≡ ok tt) ↔ IsComplete parameters
validate_iff_example = validate_iff parameters

collect_lem_example :
    (collect [] (map ok (pod ∷ [])) ≡ ok (pod ∷ []))
    × (collect [] (map ok (pod ∷ []) ++ err (failed "eof") ∷ []) ≡ err (failed "eof"))
collect_lem_example = collect_lem (pod ∷ []) (failed "eof") []

list_resources_refused_example :
    (e : Error) × (list_resources http "http://inspector" parameters 7 ≡ (err e, 7))
list_resources_refused_example =
    list_resources_refused http "http://inspector" parameters 7 parameters-Incomplete

build_query_lem_example :
    (lookup "compositionName" (build_query parameters []) ≡ some "site")
    × (lookup "compositionNamespace" (build_query parameters []) ≡ none)
    × (lookup "compositionGroup" (build_query parameters []) ≡ some "composition.krateo.io")
    × (lookup "compositionVersion" (build_query parameters []) ≡ some "v1")
    × (lookup "compositionResource" (build_query parameters []) ≡ some "sites")
    × (lookup "compositionDefinitionName" (build_query parameters []) ≡ some "site-definition")
    × (lookup "compositionDefinitionNamespace" (build_query parameters []) ≡ some "krateo")
    × (lookup "compositionDefinitionGroup" (build_query parameters []) ≡ some "core.krateo.io")
    × (lookup "compositionDefinitionVersion" (build_query parameters []) ≡ some "v1")
    × (lookup "compositionDefinitionResource" (build_query parameters []) ≡ some "definitions")
build_query_lem_example = build_query_lem parameters
