-- ===== src/Composition/Support/Paths.antt =====
-- The paths of `status.managed`, and what the tracer makes of such a path.
use text.Mathlib.TextLemmas.{append_assoc, append-nil}
use composition_dynamic_cont.Common.{
  String, ◌<>◌, true, false, some, List, [], ◌∷◌, ◌++◌, ◌≡◌, ◌≢◌, ap, ◌∙◌, ◌==◌, string_eq,
  if◌then◌else◌, arith, eq_iff, All, ltb, length, Bool-cases, inl, inr,
}
use composition_dynamic_cont.Common.Text.{NoSlash, join_path, split_slash, split_slash-join_path}
use composition_dynamic_cont.Kube.{GroupVersionResource}
use composition_dynamic_cont.Tracer.{Resource, Tracer, traced, round_trip}
use composition_dynamic_cont.Composition.Support.{build_path}

-- The pieces of the path of a resource, as the API server documents them.
abbrev pub api_pieces : GroupVersionResource → String → String → List String
api_pieces gvr namespace name =
    (if gvr.group == "" then "api" ∷ gvr.version ∷ [] else "apis" ∷ gvr.group ∷ gvr.version ∷ [])
    ++ (if namespace == "" then [] else "namespaces" ∷ namespace ∷ [])
    ++ gvr.resource ∷ name ∷ []

api_prefix : (x : String) → "/api/" <> x ≡ "/" <> ("api" <> ("/" <> x))
api_prefix x = append_assoc "/api" "/" x ∙ append_assoc "/" "api" ("/" <> x)

apis_prefix : (x : String) → "/apis/" <> x ≡ "/" <> ("apis" <> ("/" <> x))
apis_prefix x = append_assoc "/apis" "/" x ∙ append_assoc "/" "apis" ("/" <> x)

namespaces_prefix : (x : String) → "/namespaces/" <> x ≡ "/" <> ("namespaces" <> ("/" <> x))
namespaces_prefix x = append_assoc "/namespaces" "/" x ∙ append_assoc "/" "namespaces" ("/" <> x)

ruleset path_laws = (api_prefix, apis_prefix, namespaces_prefix, append_assoc, append-nil)

-- The path is the pieces that the API server documents for the group, the scope and the name,
-- each behind a slash.
pub build_path-join_path :
    (gvr : GroupVersionResource) (namespace name : String)
    → build_path gvr namespace name ≡ join_path (api_pieces gvr namespace name)
unfolding build_path join_path
build_path-join_path gvr namespace name = elim (Bool-cases (gvr.group == "")) [
  | inl g ↦ elim (Bool-cases (namespace == "")) [
    | inl n ↦ rw (g, n) (simp path_laws)
    | inr n ↦ rw (g, n) (simp path_laws)
  ]
  | inr g ↦ elim (Bool-cases (namespace == "")) [
    | inl n ↦ rw (g, n) (simp path_laws)
    | inr n ↦ rw (g, n) (simp path_laws)
  ]
]

-- The tracer's entry for a resource of `status.managed`.
abbrev pub entry : GroupVersionResource → String → String → Resource
entry gvr namespace name = record {
  group = gvr.group;
  version = gvr.version;
  resource = gvr.resource;
  name = name;
  namespace = namespace;
}

abbrev pub IsPlain : GroupVersionResource → String → String → Type 0
IsPlain gvr namespace name =
    NoSlash gvr.group
    × NoSlash gvr.version
    × NoSlash gvr.resource
    × NoSlash namespace
    × NoSlash name

api_pieces-NoSlash :
    (gvr : GroupVersionResource) (namespace name : String)
    → IsPlain gvr namespace name
    → All NoSlash (api_pieces gvr namespace name)
api_pieces-NoSlash gvr namespace name (g, v, r, n, m) = elim (Bool-cases (gvr.group == "")) [
  | inl eg ↦ elim (Bool-cases (namespace == "")) [
    | inl en ↦ rw (eg, en) (omega arith, (v, (r, (m, tt))))
    | inr en ↦ rw (eg, en) (omega arith, (v, (omega arith, (n, (r, (m, tt))))))
  ]
  | inr eg ↦ elim (Bool-cases (namespace == "")) [
    | inl en ↦ rw (eg, en) (omega arith, (g, (v, (r, (m, tt)))))
    | inr en ↦ rw (eg, en) (omega arith, (g, (v, (omega arith, (n, (r, (m, tt)))))))
  ]
]

traced-api_pieces :
    (gvr : GroupVersionResource) (namespace name : String)
    → traced ("" ∷ api_pieces gvr namespace name) ≡ some (entry gvr namespace name)
unfolding traced
traced-api_pieces gvr namespace name = elim (Bool-cases (gvr.group == "")) [
  | inl eg ↦ elim (Bool-cases (namespace == "")) [
    | inl en ↦ rw (eg, en) (ground (arith, (eq_iff gvr.group "").0 eg, (eq_iff namespace "").0 en))
    | inr en ↦ rw (eg, en) (ground (arith, (eq_iff gvr.group "").0 eg))
  ]
  | inr eg ↦ elim (Bool-cases (namespace == "")) [
    | inl en ↦ rw (eg, en) (ground (arith, (eq_iff namespace "").0 en))
    | inr en ↦ rw (eg, en)
  ]
]

lt-length-api_pieces :
    (gvr : GroupVersionResource) (namespace name : String)
    → ltb 2 (length ("" ∷ api_pieces gvr namespace name)) ≡ true
lt-length-api_pieces gvr namespace name = elim (Bool-cases (gvr.group == "")) [
  | inl eg ↦ elim (Bool-cases (namespace == "")) [ inl en ↦ rw (eg, en) | inr en ↦ rw (eg, en) ]
  | inr eg ↦ elim (Bool-cases (namespace == "")) [ inl en ↦ rw (eg, en) | inr en ↦ rw (eg, en) ]
]

-- A request that writes, with a field manager, to the path that `buildpath` gives a managed resource
-- is recorded by the tracer as that resource: its group, version, plural name, namespace and name,
-- for core and named groups and for both scopes, where none of these holds a slash. Nothing else is
-- recorded.
pub round_trip-build_path :
    (t : Tracer) (gvr : GroupVersionResource) (namespace name method manager : String)
    → IsPlain gvr namespace name
    → method ≢ "GET"
    → manager ≢ ""
    → (round_trip t
        (record { method = method; path = build_path gvr namespace name; field_manager = manager })
        false).resources
      ≡ t.resources ++ entry gvr namespace name ∷ []
unfolding round_trip
round_trip-build_path t gvr namespace name method manager plain write named =
    let pieces =
      ap split_slash (build_path-join_path gvr namespace name)
      ∙ split_slash-join_path (api_pieces gvr namespace name)
          (api_pieces-NoSlash gvr namespace name plain) in
    ground (
      arith,
      pieces,
      lt-length-api_pieces gvr namespace name,
      traced-api_pieces gvr namespace name,
      eq_iff method "GET",
      eq_iff manager "",
    )
