-- ===== src/Meta.antt =====
-- pkg/meta/meta.go: labels and annotations of a composition.
pub mod Laws
mod Tests
use Prim.Native.String.{len, slice}
use composition_dynamic_cont.Common.{
  ℕ, String, ◌<>◌, Bool, true, false, ◌&&◌, Option, none, some, ◌==◌, string_eq, if◌then◌else◌, ltb,
}
use composition_dynamic_cont.Common.Dict.{lookup, insert, text_at}
use composition_dynamic_cont.Common.Effect.{Outcome, ok, panic}
use composition_dynamic_cont.Kube.{Object, GroupVersionResource, Runtime}

abbrev pub composition_definition_name_label : String
composition_definition_name_label = "krateo.io/composition-definition-name"

abbrev pub composition_definition_namespace_label : String
composition_definition_namespace_label = "krateo.io/composition-definition-namespace"

abbrev pub composition_definition_group_label : String
composition_definition_group_label = "krateo.io/composition-definition-group"

abbrev pub composition_definition_version_label : String
composition_definition_version_label = "krateo.io/composition-definition-version"

abbrev pub composition_definition_resource_label : String
composition_definition_resource_label = "krateo.io/composition-definition-resource"

abbrev pub composition_version_label : String
composition_version_label = "krateo.io/composition-version"

abbrev pub release_name_label : String
release_name_label = "krateo.io/release-name"

abbrev pub gracefully_paused_key : String
gracefully_paused_key = "krateo.io/gracefully-paused"

abbrev pub gracefully_paused_time_key : String
gracefully_paused_time_key = "krateo.io/gracefully-paused-time"

-- `rand.SafeEncodeString` and one draw of `rand.String(8)`, of apimachinery.
pub record Rand : Type 0 where
  pub safe_encode_string : String → String
  pub string_8 : String

-- Go slices bytes, and panics past the end. A UID is ASCII.
unfoldable pub calculate_release_name : Rand → Object → Bool → Outcome String
calculate_release_name r o false = ok o.name
calculate_release_name r o true =
    if o.uid == ""
    then ok (o.name <> ("-" <> r.safe_encode_string r.string_8))
    else if ltb (len o.uid) 8
    then panic
    else ok (o.name <> ("-" <> r.safe_encode_string (slice o.uid 0 8)))

unfoldable pub get_release_name : Object → String
get_release_name o = text_at release_name_label o.labels

unfoldable pub set_release_name : Object → String → Object
set_release_name o name = elim (lookup release_name_label o.labels) [
  | none ↦ record o { labels = insert release_name_label name o.labels }
  | some _ ↦ o
]

pub record CompositionDefinitionInfo : Type 0 where
  pub namespace : String
  pub name : String
  pub gvr : GroupVersionResource

unfoldable pub set_composition_definition_labels : Object → CompositionDefinitionInfo → Object
set_composition_definition_labels o info = record o {
  labels = insert composition_definition_resource_label info.gvr.resource (
      insert composition_definition_version_label info.gvr.version (
        insert composition_definition_group_label info.gvr.group (
          insert composition_definition_namespace_label info.namespace
            (insert composition_definition_name_label info.name o.labels))));
}

unfoldable pub is_gracefully_paused : Object → Bool
is_gracefully_paused o = text_at gracefully_paused_key o.annotations == "true"

-- `time.Time` with `Format(time.RFC3339)` and `time.Parse(time.RFC3339, _)`.
pub record Clock : Type 1 where
  pub Time : Type 0
  pub format : Time → String
  pub parse : String → Option Time
  pub now : Time

module _ (c : Clock) where
  unfoldable pub set_gracefully_paused_time : Runtime → Object → c.Time → Object
  set_gracefully_paused_time r o t = r.add_annotation gracefully_paused_time_key (c.format t) o

  unfoldable pub get_gracefully_paused_time : Object → Option c.Time
  get_gracefully_paused_time o = elim (lookup gracefully_paused_time_key o.annotations) [
    | none ↦ none
    | some t ↦ c.parse t
  ]
