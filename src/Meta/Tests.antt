-- ===== src/Meta/Tests.antt =====
-- Runs of the label and annotation functions.
use composition_dynamic_cont.Common.{
  String, ◌<>◌, true, none, some, [], ◌∷◌, ◌≡◌, refl, arith, ◌≢◌, eq_iff,
}
use composition_dynamic_cont.Common.Dict.{lookup, text_at, insert, erase}
use composition_dynamic_cont.Common.Effect.{ok}
use composition_dynamic_cont.Kube.{Object, Runtime, IsLawful, Condition}
use composition_dynamic_cont.Meta
use composition_dynamic_cont.Meta.{
  Rand, Clock, CompositionDefinitionInfo, calculate_release_name, get_release_name,
  set_release_name, set_composition_definition_labels, is_gracefully_paused,
  get_gracefully_paused_time, set_gracefully_paused_time, gracefully_paused_key,
  gracefully_paused_time_key, release_name_label,
}
use composition_dynamic_cont.Meta.Laws.{
  calculate_release_name_stable, get_release_name-set_release_name, set_release_name_final,
  set_composition_definition_labels_lem, get_gracefully_paused_time-set_gracefully_paused_time,
}

abbrev composition : Object
composition = record {
  gvk = record { group = "composition.krateo.io"; version = "v1"; kind = "Site" };
  api_version = "composition.krateo.io/v1";
  name = "site";
  namespace = "apps";
  uid = "0123456789abcdef";
  labels = ("app", "web") ∷ [];
  annotations = (gracefully_paused_key, "true") ∷ [];
  status = none;
  conditions = [];
}

abbrev rand : Rand
rand = record { safe_encode_string = λ s. "x" <> s; string_8 = "qwertyui" }

abbrev clock : Clock
clock = record { Time = String; format = λ t. t; parse = λ s. some s; now = "2024-01-01T00:00:00Z" }

abbrev condition : String → Condition
condition reason = record { type = "Ready"; status = "True"; reason = reason; message = "" }

abbrev runtime : Runtime
runtime = record {
  add_annotation = λ k v o. record o { annotations = insert k v o.annotations };
  remove_annotation = λ k o. record o { annotations = erase k o.annotations };
  nested_string = λ o k. ok "";
  set_nested_field = λ v k o. ok o;
  get_condition = λ o type reason. none;
  set_conditions = λ c o. ok (record o { conditions = c ∷ [] });
  available = condition "Available";
  unavailable = condition "Unavailable";
  type_ready = "Ready";
}

runtime-IsLawful : IsLawful runtime
runtime-IsLawful = record {
  add_annotation_lem = λ k v o. refl;
  remove_annotation_lem = λ k o. refl;
}

calculate_release_name_stable_example :
    (calculate_release_name rand composition true ≡ ok "site-x01234567")
    × (calculate_release_name (record rand { string_8 = "other" }) composition true
        ≡ calculate_release_name rand composition true)
calculate_release_name_stable_example =
    calculate_release_name_stable rand "other" composition (omega arith)

set_composition_definition_labels_lem_example :
    let o' = set_composition_definition_labels composition (record {
      namespace = "krateo";
      name = "site-definition";
      gvr = record { group = "core.krateo.io"; version = "v1"; resource = "definitions" };
    }) in
    (text_at Meta.composition_definition_name_label o'.labels ≡ "site-definition")
    × (text_at Meta.composition_definition_namespace_label o'.labels ≡ "krateo")
    × (text_at Meta.composition_definition_group_label o'.labels ≡ "core.krateo.io")
    × (text_at Meta.composition_definition_version_label o'.labels ≡ "v1")
    × (text_at Meta.composition_definition_resource_label o'.labels ≡ "definitions")
    × (get_release_name o' ≡ get_release_name composition)
set_composition_definition_labels_lem_example =
    set_composition_definition_labels_lem composition (record {
      namespace = "krateo";
      name = "site-definition";
      gvr = record { group = "core.krateo.io"; version = "v1"; resource = "definitions" };
    })

get_gracefully_paused_time-set_gracefully_paused_time_example :
    (get_gracefully_paused_time clock
        (set_gracefully_paused_time clock runtime composition "2024-01-01T00:00:00Z")
      ≡ some "2024-01-01T00:00:00Z")
    × (is_gracefully_paused
          (set_gracefully_paused_time clock runtime composition "2024-01-01T00:00:00Z")
        ≡ is_gracefully_paused composition)
    × (get_gracefully_paused_time clock
          (runtime.remove_annotation gracefully_paused_time_key composition)
        ≡ none)
get_gracefully_paused_time-set_gracefully_paused_time_example =
    get_gracefully_paused_time-set_gracefully_paused_time clock runtime runtime-IsLawful composition
      "2024-01-01T00:00:00Z" refl

app-ne-release_name : "app" ≢ release_name_label
app-ne-release_name = ground (arith, eq_iff "app" release_name_label)

get_release_name-set_release_name_example :
    (get_release_name (set_release_name composition "site-1") ≡ "site-1")
    × (lookup "app" (set_release_name composition "site-1").labels ≡ some "web")
    × ((set_release_name composition "site-1").name ≡ "site")
    × ((set_release_name composition "site-1").namespace ≡ "apps")
unfolding lookup
get_release_name-set_release_name_example =
    get_release_name-set_release_name composition "site-1" "app" app-ne-release_name

set_release_name_final_example :
    set_release_name (set_release_name composition "site-1") "site-2"
    ≡ set_release_name composition "site-1"
set_release_name_final_example = set_release_name_final composition "site-1" "site-2"
