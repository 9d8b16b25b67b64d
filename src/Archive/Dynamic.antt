-- ===== src/Archive/Dynamic.antt =====
-- internal/tools/archive/getter.go: the getter that looks for the composition definition.
pub mod Laws
mod Tests
use composition_dynamic_cont.Common.{
  ℕ, String, ◌<>◌, Bool, true, false, not, ◌&&◌, Option, none, some, List, [], ◌∷◌, inl, inr, ◌==◌,
  string_eq, if◌then◌else◌, length,
}
use composition_dynamic_cont.Common.Dict.{Dict, lookup, text_at}
use composition_dynamic_cont.Common.Text.{split_slash}
use composition_dynamic_cont.Common.Effect.{
  Error, failed, Outcome, Act, pure, fail, crash, lift, wrap, wrap_around, attempt, ◌>>=◌,
}
use composition_dynamic_cont.Kube.{GroupVersionKind, GroupVersionResource, Object}
use composition_dynamic_cont.Meta.{
  CompositionDefinitionInfo, composition_definition_name_label,
  composition_definition_namespace_label, composition_definition_group_label,
  composition_definition_version_label, composition_definition_resource_label,
  composition_version_label,
}
use composition_dynamic_cont.Archive.{Auth, Info}

-- The dynamic client, the pluralizer and the functions of apimachinery and the Go library that read
-- an object: a missing field is `none`. `secret_data` is the data of a secret, where `none` is no text.
pub record Cluster (W : Type 0) : Type 1 where
  pub Unstructured : Type 0
  pub get : GroupVersionResource → String → String → Act W Unstructured
  pub list : GroupVersionResource → Act W (List Unstructured)
  pub gvk_to_gvr : GroupVersionKind → Act W GroupVersionResource
  pub gvk : Unstructured → GroupVersionKind
  pub name : Unstructured → String
  pub namespace : Unstructured → String
  pub nested_string : Unstructured → List String → Outcome (Option String)
  pub nested_string_map : Unstructured → List String → Outcome (Option (Dict String))
  pub nested_bool : Unstructured → List String → Outcome (Option Bool)
  pub secret_data : Unstructured → Outcome (Dict (Option String))
  pub decode_base64 : String → Outcome String
  pub show_gvr : GroupVersionResource → String
  pub decimal : ℕ → String

abbrev pub secrets_gvr : GroupVersionResource
secrets_gvr = record { group = ""; version = "v1"; resource = "secrets" }

abbrev pub definitions_gvr : GroupVersionResource
definitions_gvr = record {
  group = "core.krateo.io";
  version = "v1alpha1";
  resource = "compositiondefinitions";
}

-- The definition that the labels name, if all five are there.
unfoldable pub labelled_info : Object → Option CompositionDefinitionInfo
labelled_info o =
    let group = text_at composition_definition_group_label o.labels in
    let version = text_at composition_definition_version_label o.labels in
    let resource = text_at composition_definition_resource_label o.labels in
    let name = text_at composition_definition_name_label o.labels in
    let namespace = text_at composition_definition_namespace_label o.labels in
    if not (group == "")
      && (not (resource == "")
          && (not (version == "") && (not (name == "") && not (namespace == ""))))
    then some (record {
      namespace = namespace;
      name = name;
      gvr = record { group = group; version = version; resource = resource };
    })
    else none

abbrev pub or_zero : {A : Type 0} → A → Option A → A
or_zero zero none = zero
or_zero zero (some a) = a

module _ {W : Type 0} (c : Cluster W) where
  present : {A : Type 0} → String → Option A → Act W A
  present message none = fail (failed message)
  present message (some a) = pure a

  -- `status.apiVersion` has two parts.
  version_of : List String → Act W String
  version_of (group ∷ version ∷ []) = pure version
  version_of _ = fail (failed "invalid format for 'status.apiVersion'")

  unfoldable pub get_chart_version_kind : c.Unstructured → Act W (String × String)
  unfolding present version_of
  get_chart_version_kind el = do
    found ←
        wrap "failed to resolve 'status.apiVersion'"
          (lift (c.nested_string el ("status" ∷ "apiVersion" ∷ [])))
    api_version ← present "missing 'status.apiVersion'" found
    version ← version_of (split_slash api_version)
    named ←
        wrap "failed to resolve 'status.kind'" (lift (c.nested_string el ("status" ∷ "kind" ∷ [])))
    kind ← present "missing 'status.kind'" named
    pure (version, kind)

  -- The definition is for this version and kind of composition.
  abbrev pub matches : Object → String → String → Bool
  matches o version kind =
      version == text_at composition_version_label o.labels && kind == o.gvk.kind

  unfoldable pub check_labelled :
      Object → CompositionDefinitionInfo → c.Unstructured → Act W (Option c.Unstructured)
  check_labelled o info d = do
    (version, kind) ←
        wrap
          ("error getting chart version and kind from composition definition '"
            <> (info.name <> ("' in namespace '" <> (info.namespace <> "'"))))
          (get_chart_version_kind d)
    if matches o version kind then pure (some d) else pure none

  -- The definition that the labels name; a lookup that fails finds none.
  unfoldable pub labelled_definition : Object → Act W (Option c.Unstructured)
  labelled_definition o = elim (labelled_info o) [
    | none ↦ pure none
    | some info ↦ do
      found ← attempt (c.get info.gvr info.namespace info.name)
      elim found [ inl d ↦ check_labelled o info d | inr _ ↦ pure none ]
  ]

  -- The loop over the definitions; one that cannot be read is passed over.
  unfoldable pub find_matching : Object → List c.Unstructured → Act W (Option c.Unstructured)
  find_matching o [] = pure none
  find_matching o (el ∷ more) = do
    found ← attempt (get_chart_version_kind el)
    elim found [
      | inl (version, kind) ↦
          if matches o version kind then pure (some el) else find_matching o more
      | inr _ ↦ find_matching o more
    ]

  -- A single definition is taken as it is.
  unfoldable pub choose_definition :
      GroupVersionResource → Object → List c.Unstructured → Act W c.Unstructured
  choose_definition gvr o [] = fail (
      failed
        ("no definition found for '" <> (c.show_gvr gvr <> ("' in namespace: " <> o.namespace))))
  choose_definition gvr o (el ∷ []) = pure el
  choose_definition gvr o (el ∷ next ∷ more) = do
    found ← find_matching o (el ∷ next ∷ more)
    elim found [
      | some d ↦ pure d
      | none ↦ fail (
          failed (
            "too many definitions ["
            <> (c.decimal (length (el ∷ next ∷ more))
                <> ("] found for '" <> (c.show_gvr gvr <> ("' in namespace: " <> o.namespace))))))
    ]

  unfoldable pub search_composition_definition :
      GroupVersionResource → Object → Act W c.Unstructured
  search_composition_definition gvr o = do all ← c.list definitions_gvr; choose_definition gvr o all

  -- A key that is missing, or whose value is no text, fails the type assertion.
  secret_text : Option (Option String) → Act W String
  secret_text (some (some s)) = pure s
  secret_text _ = crash

  unfoldable pub get_secret : String → String → String → Act W String
  unfolding secret_text
  get_secret name namespace key = do
    secret ← c.get secrets_gvr namespace name
    values ← lift (c.secret_data secret)
    text ← secret_text (lookup key values)
    wrap "failed to decode secret key" (lift (c.decode_base64 text))

  unfoldable pub password_of : Option (Dict String) → Act W String
  password_of none = pure ""
  password_of (some r) = get_secret (text_at "name" r) (text_at "namespace" r) (text_at "key" r)

  -- What the definition says of the chart.
  unfoldable pub read_definition : GroupVersionResource → Object → c.Unstructured → Act W Info
  unfolding present
  read_definition gvr o d = do
    found ← lift (c.nested_string d ("spec" ∷ "chart" ∷ "url" ∷ []))
    url ←
        present
          ("missing 'status.packageUrl' in definition for '"
            <> (c.show_gvr gvr <> ("' in namespace: " <> o.namespace)))
          found
    version ← lift (c.nested_string d ("spec" ∷ "chart" ∷ "version" ∷ []))
    repo ← lift (c.nested_string d ("spec" ∷ "chart" ∷ "repo" ∷ []))
    username ← lift (c.nested_string d ("spec" ∷ "chart" ∷ "credentials" ∷ "username" ∷ []))
    ref ← lift (c.nested_string_map d ("spec" ∷ "chart" ∷ "credentials" ∷ "passwordRef" ∷ []))
    password ← password_of ref
    insecure ← lift (c.nested_bool d ("spec" ∷ "chart" ∷ "insecureSkipTLSverify" ∷ []))
    definition_gvr ←
        wrap "converting GVK to GVR for composition definition" (c.gvk_to_gvr (c.gvk d))
    pure (record {
      url = url;
      version = or_zero "" version;
      repo = or_zero "" repo;
      auth = some (record { username = or_zero "" username; password = password });
      insecure_skip_tls_verify = or_zero false insecure;
      composition_definition_info =
          some (record { namespace = c.namespace d; name = c.name d; gvr = definition_gvr });
    })

  -- `dynamicGetter.Get` of an object that is not nil.
  unfoldable pub dynamic_get : Object → Act W Info
  dynamic_get o = do
    gvr ←
        wrap
          ("error getting GVR for Kind: '"
            <> (o.gvk.kind
                <> ("', Group: '" <> (o.gvk.group <> (", Version: '" <> (o.gvk.version <> "'"))))))
          (c.gvk_to_gvr o.gvk)
    labelled ← labelled_definition o
    d ← elim labelled [
      | some d ↦ pure d
      | none ↦
          wrap ("error searching for composition definition in namespace '" <> (o.namespace <> "'"))
            (search_composition_definition gvr o)
    ]
    read_definition gvr o d
