-- ===== src/Archive/Dynamic/Tests.antt =====
-- Runs of the dynamic getter. The world does not change.
use composition_dynamic_cont.Common.{
  String, false, Option, none, some, List, [], ◌∷◌, ◌≡◌, ◌≢◌, refl, ◌⊎◌, arith, eq_iff, ◌==◌,
  string_eq, if◌then◌else◌,
}
use composition_dynamic_cont.Common.Dict.{lookup}
use composition_dynamic_cont.Common.Text.{split_slash}
use composition_dynamic_cont.Common.Effect.{failed, Outcome, ok, err}
use composition_dynamic_cont.Kube.{Object, GroupVersionResource}
use composition_dynamic_cont.Meta.{
  CompositionDefinitionInfo, set_composition_definition_labels, composition_version_label,
}
use composition_dynamic_cont.Archive.{Info}
use composition_dynamic_cont.Archive.Dynamic.{
  Cluster, labelled_info, choose_definition, find_matching, get_chart_version_kind, dynamic_get,
  labelled_definition, search_composition_definition, read_definition, password_of,
}
use composition_dynamic_cont.Archive.Dynamic.Laws
use composition_dynamic_cont.Archive.Dynamic.Laws.{
  labelled_info-set_composition_definition_labels, choose_definition-IsFor, dynamic_get-IsComplete,
}

abbrev site : Object
site = record {
  gvk = record { group = "g"; version = "v1"; kind = "Site" };
  api_version = "g/v1";
  name = "site";
  namespace = "apps";
  uid = "";
  labels = (composition_version_label, "v1") ∷ [];
  annotations = [];
  status = none;
  conditions = [];
}

abbrev definitions : GroupVersionResource
definitions = record { group = "core"; version = "v1"; resource = "definitions" }

-- An object is the text of its kind; every field but the kind and the API version is missing or "x".
abbrev field_of : String → List String → Outcome (Option String)
field_of d (_ ∷ part ∷ _) =
    if part == "apiVersion"
    then ok (some "g/v1")
    else if part == "kind"
    then ok (some d)
    else ok (some "x")
field_of d _ = ok none

-- Two definitions, the second of which is for the composition.
abbrev both : List String
both = "Shop" ∷ "Site" ∷ []

abbrev cluster : Cluster (Unit {0})
cluster = record {
  Unstructured = String;
  get = λ g ns name w. (err (failed "refused"), w);
  list = λ g w. (ok ("Shop" ∷ "Site" ∷ []), w);
  gvk_to_gvr = λ gvk w. (ok definitions, w);
  gvk = λ d. record { group = "core"; version = "v1"; kind = "Definition" };
  name = λ d. d;
  namespace = λ d. "krateo";
  nested_string = field_of;
  nested_string_map = λ d path. ok none;
  nested_bool = λ d path. ok none;
  secret_data = λ d. ok [];
  decode_base64 = λ s. ok s;
  show_gvr = λ g. "";
  decimal = λ n. "";
}

abbrev info : CompositionDefinitionInfo
info = record { namespace = "krateo"; name = "site"; gvr = definitions }

ne_empty : (s : String) → (s == "") ≡ false → s ≢ ""
ne_empty s h = ground (arith, eq_iff s "")

labelled_info-set_composition_definition_labels_example :
    labelled_info (set_composition_definition_labels site info) ≡ some info
labelled_info-set_composition_definition_labels_example =
    labelled_info-set_composition_definition_labels site info (ne_empty "site" refl)
      (ne_empty "krateo" refl) (ne_empty "core" refl) (ne_empty "v1" refl)
      (ne_empty "definitions" refl)

chosen : choose_definition cluster definitions site both tt ≡ (ok "Site", tt)
unfolding choose_definition find_matching get_chart_version_kind split_slash lookup
chosen = refl

choose_definition-IsFor_example : Laws.IsFor cluster site "Site" ⊎ (both ≡ "Site" ∷ [])
choose_definition-IsFor_example =
    choose_definition-IsFor cluster definitions site both "Site" tt tt chosen

abbrev found : Info
found = record {
  url = "x";
  version = "x";
  repo = "x";
  auth = some (record { username = "x"; password = "" });
  insecure_skip_tls_verify = false;
  composition_definition_info =
      some (record { namespace = "krateo"; name = "Site"; gvr = definitions });
}

got : dynamic_get cluster site tt ≡ (ok found, tt)
unfolding dynamic_get labelled_definition labelled_info search_composition_definition
    choose_definition find_matching get_chart_version_kind split_slash lookup read_definition
    password_of
got = refl

dynamic_get-IsComplete_example : Laws.IsComplete cluster found
dynamic_get-IsComplete_example = dynamic_get-IsComplete cluster site found tt tt got
