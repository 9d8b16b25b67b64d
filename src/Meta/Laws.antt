-- ===== src/Meta/Laws.antt =====
-- What the labels and annotations of pkg/meta/meta.go hold after each operation.
use Prim.Native.String.{len, slice}
use composition_dynamic_cont.Common.{
  ◌≤◌, String, ◌<>◌, true, Option, none, some, ◌≡◌, ◌≢◌, ap, ◌==◌, string_eq, if◌then◌else◌, arith,
  eq_iff, eq_refl,
}
use composition_dynamic_cont.Common.Dict.{
  lookup, text_at, lookup-insert, lookup-erase, text_at-insert,
}
use composition_dynamic_cont.Common.Effect.{ok}
use composition_dynamic_cont.Kube.{Object, Runtime, IsLawful}
use composition_dynamic_cont.Meta.{
  composition_definition_name_label, composition_definition_namespace_label,
  composition_definition_group_label, composition_definition_version_label,
  composition_definition_resource_label, release_name_label, gracefully_paused_time_key,
  gracefully_paused_key, Rand, calculate_release_name, get_release_name, set_release_name,
  CompositionDefinitionInfo, set_composition_definition_labels, is_gracefully_paused, Clock,
  set_gracefully_paused_time, get_gracefully_paused_time,
}

-- The label, or the given name where there is none.
abbrev pub label_or : Object → String → String
label_or o name = elim (lookup release_name_label o.labels) [ none ↦ name | some old ↦ old ]

-- Setting the release name keeps a name that is there, and otherwise the given name is read back.
-- Every other label keeps its value, and so do the object's name and namespace.
pub get_release_name-set_release_name :
    (o : Object) (name k : String)
    → k ≢ release_name_label
    → (get_release_name (set_release_name o name) ≡ label_or o name)
      × (lookup k (set_release_name o name).labels ≡ lookup k o.labels)
      × ((set_release_name o name).name ≡ o.name)
      × ((set_release_name o name).namespace ≡ o.namespace)
unfolding get_release_name set_release_name
get_release_name-set_release_name o name k other = ground (
  arith,
  eq_iff release_name_label k,
  eq_refl release_name_label,
  lookup-insert release_name_label release_name_label name o.labels,
  lookup-insert release_name_label k name o.labels,
)

-- A release name once set is final: a later call with any other name changes nothing.
pub set_release_name_final :
    (o : Object) (name later : String)
    → set_release_name (set_release_name o name) later ≡ set_release_name o name
unfolding set_release_name
set_release_name_final o name later = ground (
  arith,
  eq_refl release_name_label,
  lookup-insert release_name_label release_name_label name o.labels,
)

abbrev or_empty : Option String → String
or_empty o = elim o [ none ↦ "" | some v ↦ v ]

-- What each label holds after the labels of the composition definition are set.
pub lookup-set_composition_definition_labels :
    (o : Object) (info : CompositionDefinitionInfo) (k : String)
    → lookup k (set_composition_definition_labels o info).labels ≡ (
        if composition_definition_resource_label == k
        then some info.gvr.resource
        else if composition_definition_version_label == k
        then some info.gvr.version
        else if composition_definition_group_label == k
        then some info.gvr.group
        else if composition_definition_namespace_label == k
        then some info.namespace
        else if composition_definition_name_label == k
        then some info.name
        else lookup k o.labels)
unfolding set_composition_definition_labels
lookup-set_composition_definition_labels o info k = simp lookup-insert

-- The five labels of the composition definition are read back as they were set, whatever stood
-- there before, and the release name stays.
pub set_composition_definition_labels_lem :
    (o : Object) (info : CompositionDefinitionInfo)
    → let o' = set_composition_definition_labels o info in
      (text_at composition_definition_name_label o'.labels ≡ info.name)
      × (text_at composition_definition_namespace_label o'.labels ≡ info.namespace)
      × (text_at composition_definition_group_label o'.labels ≡ info.gvr.group)
      × (text_at composition_definition_version_label o'.labels ≡ info.gvr.version)
      × (text_at composition_definition_resource_label o'.labels ≡ info.gvr.resource)
      × (get_release_name o' ≡ get_release_name o)
unfolding get_release_name
set_composition_definition_labels_lem o info =
    let at = lookup-set_composition_definition_labels o info in
    (
      ap or_empty (at composition_definition_name_label),
      ap or_empty (at composition_definition_namespace_label),
      ap or_empty (at composition_definition_group_label),
      ap or_empty (at composition_definition_version_label),
      ap or_empty (at composition_definition_resource_label),
      ap or_empty (at release_name_label),
    )

ne-empty_of_len : (s : String) → 8 ≤ len s → s ≢ ""
ne-empty_of_len s h e = omega (arith, ap len e)

-- With safe names on, a UID of eight bytes or more makes the release name a function of the
-- object's name and the first eight bytes of its UID: the random draw has no part in it, so a
-- second reconciliation computes the same name.
pub calculate_release_name_stable :
    (r : Rand) (draw : String) (o : Object)
    → 8 ≤ len o.uid
    → (calculate_release_name r o true
        ≡ ok (o.name <> ("-" <> r.safe_encode_string (slice o.uid 0 8))))
      × (calculate_release_name (record r { string_8 = draw }) o true
          ≡ calculate_release_name r o true)
unfolding calculate_release_name
calculate_release_name_stable r draw o h = (
  ground (arith, eq_iff o.uid "", ne-empty_of_len o.uid h),
  ground (arith, eq_iff o.uid "", ne-empty_of_len o.uid h),
)

module _ (c : Clock) (r : Runtime) (L : IsLawful r) where
  -- The time of a graceful pause is read back, if its text parses to it, and whether the
  -- object is marked as paused is unchanged. Removing the annotation removes the time.
  pub get_gracefully_paused_time-set_gracefully_paused_time :
      (o : Object) (t : c.Time)
      → c.parse (c.format t) ≡ some t
      → (get_gracefully_paused_time c (set_gracefully_paused_time c r o t) ≡ some t)
        × (is_gracefully_paused (set_gracefully_paused_time c r o t) ≡ is_gracefully_paused o)
        × (get_gracefully_paused_time c (r.remove_annotation gracefully_paused_time_key o) ≡ none)
  unfolding get_gracefully_paused_time set_gracefully_paused_time is_gracefully_paused
  get_gracefully_paused_time-set_gracefully_paused_time o t h = (
    rw (L.add_annotation_lem gracefully_paused_time_key (c.format t) o) (
        rw
          (
            lookup-insert gracefully_paused_time_key gracefully_paused_time_key (c.format t)
                o.annotations,
            get_gracefully_paused_time,
          )
          h),
    rw (L.add_annotation_lem gracefully_paused_time_key (c.format t) o) (
        rw (
          text_at-insert gracefully_paused_time_key gracefully_paused_key (c.format t)
            o.annotations)),
    rw (L.remove_annotation_lem gracefully_paused_time_key o) (
        rw (
          lookup-erase gracefully_paused_time_key gracefully_paused_time_key o.annotations,
          get_gracefully_paused_time,
        )),
  )
