-- ===== src/Archive/Dynamic/Laws.antt =====
-- Which definition the getter takes, and what it returns.
use composition_dynamic_cont.Common.{
  String, some, List, [], ◌∷◌, ◌≡◌, ◌≢◌, subst, ◌⊎◌, inl, inr, string_eq, arith, eq_iff, Bool-cases,
  Option-cases,
}
use mathlib.Core.Path.{subst₂}
use composition_dynamic_cont.Common.Text.{split_slash}
use composition_dynamic_cont.Common.Dict.{text_at}
use composition_dynamic_cont.Common.Effect.{Outcome-cases, ok}
use composition_dynamic_cont.Common.Inversion.{run-cases}
use composition_dynamic_cont.Kube.{GroupVersionResource, Object}
use composition_dynamic_cont.Meta.{
  CompositionDefinitionInfo, composition_version_label, set_composition_definition_labels,
}
use composition_dynamic_cont.Meta.Laws.{set_composition_definition_labels_lem}
use composition_dynamic_cont.Archive.{Auth, Info}
use composition_dynamic_cont.Archive.Dynamic.{
  Cluster, or_zero, labelled_info, matches, version_of, present, get_chart_version_kind,
  find_matching, choose_definition, read_definition, dynamic_get, labelled_definition, password_of,
  search_composition_definition,
}

-- The labels that `Observe` sets for a definition are read back by the getter as that definition,
-- if its name, its namespace and its three resource parts are not empty.
pub labelled_info-set_composition_definition_labels :
    (o : Object) (info : CompositionDefinitionInfo)
    → info.name ≢ ""
    → info.namespace ≢ ""
    → info.gvr.group ≢ ""
    → info.gvr.version ≢ ""
    → info.gvr.resource ≢ ""
    → labelled_info (set_composition_definition_labels o info) ≡ some info
unfolding labelled_info
labelled_info-set_composition_definition_labels o info name namespace group version resource =
    let (n, ns, g, v, r, _) = set_composition_definition_labels_lem o info in
    rw (n, ns, g, v, r)
      (ground (
        arith,
        eq_iff info.name "",
        eq_iff info.namespace "",
        eq_iff info.gvr.group "",
        eq_iff info.gvr.version "",
        eq_iff info.gvr.resource "",
      ))

abbrev user_path : List String
user_path = "spec" ∷ "chart" ∷ "credentials" ∷ "username" ∷ []

abbrev ref_path : List String
ref_path = "spec" ∷ "chart" ∷ "credentials" ∷ "passwordRef" ∷ []

abbrev tls_path : List String
tls_path = "spec" ∷ "chart" ∷ "insecureSkipTLSverify" ∷ []

module _ {W : Type 0} (c : Cluster W) where
  -- The status of a definition names this version, behind the group, and this kind.
  abbrev pub Names : c.Unstructured → String → String → Type 0
  Names d version kind =
      (api_version : String) × (group : String) × (c.nested_string d ("status" ∷ "apiVersion" ∷ [])
        ≡ ok (some api_version))
      × (split_slash api_version ≡ group ∷ version ∷ [])
      × (c.nested_string d ("status" ∷ "kind" ∷ []) ≡ ok (some kind))

  version_of-eq-ok :
      (parts : List String) (version : String) (w w' : W)
      → version_of c parts w ≡ (ok version, w')
      → (group : String) × (parts ≡ group ∷ version ∷ [])
  unfolding version_of
  version_of-eq-ok [] version w w' h = absurd (ground arith)
  version_of-eq-ok (group ∷ []) version w w' h = absurd (ground arith)
  version_of-eq-ok (group ∷ v ∷ []) version w w' h = (group, ground arith)
  version_of-eq-ok (group ∷ v ∷ x ∷ more) version w w' h = absurd (ground arith)

  get_chart_version_kind-Names :
      (d : c.Unstructured) (version kind : String) (w w' : W)
      → get_chart_version_kind c d w ≡ (ok (version, kind), w')
      → Names d version kind
  unfolding get_chart_version_kind present
  get_chart_version_kind-Names d version kind w w' h =
      elim (Outcome-cases (c.nested_string d ("status" ∷ "apiVersion" ∷ []))) [
        | inr bad ↦ absurd (ground arith)
        | inl (found, read) ↦ elim (Option-cases found) [
          | inl bad ↦ absurd (ground arith)
          | inr (api_version, is_there) ↦
              elim (run-cases (version_of c (split_slash api_version) w)) [
                | inr bad ↦ absurd (ground arith)
                | inl (v, w₁, split) ↦
                    elim (Outcome-cases (c.nested_string d ("status" ∷ "kind" ∷ []))) [
                      | inr bad ↦ absurd (ground arith)
                      | inl (named, at_kind) ↦ elim (Option-cases named) [
                        | inl bad ↦ absurd (ground arith)
                        | inr (k, is_kind) ↦
                            let same : v ≡ version = ground arith in
                            let (group, parts) =
                              version_of-eq-ok (split_slash api_version) version w w₁
                                (ground (arith, split, same)) in
                            (api_version, group, ground arith, parts, ground arith)
                      ]
                    ]
              ]
        ]
      ]

  -- The status of a definition names the version of the composition's label, and its kind.
  abbrev pub IsFor : Object → c.Unstructured → Type 0
  IsFor o d = Names d (text_at composition_version_label o.labels) o.gvk.kind

  find_matching-IsFor :
      (o : Object) (els : List c.Unstructured) (d : c.Unstructured) (w w' : W)
      → find_matching c o els w ≡ (ok (some d), w')
      → IsFor o d
  unfolding find_matching
  find_matching-IsFor o [] d w w' h = absurd (ground arith)
  find_matching-IsFor o (el ∷ more) d w w' h = elim (run-cases (get_chart_version_kind c el w)) [
    | inl ((version, kind), w₁, read) ↦ elim (Bool-cases (matches c o version kind)) [
      | inl fits ↦
          let here : version ≡ text_at composition_version_label o.labels =
            ground (arith, fits, eq_iff version (text_at composition_version_label o.labels)) in
          let of_kind : kind ≡ o.gvk.kind = ground (arith, fits, eq_iff kind o.gvk.kind) in
          subst (IsFor o) (ground arith) (
            subst₂ (Names el) here of_kind (get_chart_version_kind-Names el version kind w w₁ read))
      | inr other ↦ find_matching-IsFor o more d w₁ w' (ground arith)
    ]
    | inr (inl (e, w₁, failed)) ↦ find_matching-IsFor o more d w₁ w' (ground arith)
    | inr (inr (w₁, crashed)) ↦ absurd (ground arith)
  ]

  -- The status of a definition that the search takes names the version that the composition's label
  -- has and the composition's kind, or it is the
  -- only one there is, which is taken unread, whatever it is for.
  pub choose_definition-IsFor :
      (gvr : GroupVersionResource) (o : Object) (els : List c.Unstructured) (d : c.Unstructured)
      (w w' : W)
      → choose_definition c gvr o els w ≡ (ok d, w')
      → IsFor o d ⊎ (els ≡ d ∷ [])
  unfolding choose_definition
  choose_definition-IsFor gvr o [] d w w' h = absurd (ground arith)
  choose_definition-IsFor gvr o (el ∷ []) d w w' h = inr (ground arith)
  choose_definition-IsFor gvr o (el ∷ next ∷ more) d w w' h =
      elim (run-cases (find_matching c o (el ∷ next ∷ more) w)) [
        | inl (found, w₁, searched) ↦ elim (Option-cases found) [
          | inl bad ↦ absurd (ground arith)
          | inr (d', is_found) ↦
              inl (find_matching-IsFor o (el ∷ next ∷ more) d w w' (ground arith))
        ]
        | inr bad ↦ absurd (ground arith)
      ]

  -- The pointers of the result that the reconciler follows.
  abbrev pub IsComplete : Info → Type 0
  IsComplete info =
      ((auth : Auth) × (info.auth ≡ some auth))
      × ((definition : CompositionDefinitionInfo) × (info.composition_definition_info
            ≡ some definition))

  read_definition-IsComplete :
      (gvr : GroupVersionResource) (o : Object) (d : c.Unstructured) (info : Info) (w w' : W)
      → read_definition c gvr o d w ≡ (ok info, w')
      → IsComplete info
  unfolding read_definition
  read_definition-IsComplete gvr o d info w w' h =
      elim (Outcome-cases (c.nested_string d ("spec" ∷ "chart" ∷ "url" ∷ []))) [
        | inr bad ↦ absurd (ground arith)
        | inl (found, at_url) ↦ elim (Option-cases found) [
          | inl bad ↦ absurd (ground arith)
          | inr (url, is_url) ↦
              elim (Outcome-cases (c.nested_string d ("spec" ∷ "chart" ∷ "version" ∷ []))) [
                | inr bad ↦ absurd (ground arith)
                | inl (version, at_version) ↦
                    elim (Outcome-cases (c.nested_string d ("spec" ∷ "chart" ∷ "repo" ∷ []))) [
                      | inr bad ↦ absurd (ground arith)
                      | inl (repo, at_repo) ↦ elim (Outcome-cases (c.nested_string d user_path)) [
                        | inr bad ↦ absurd (ground arith)
                        | inl (user, at_user) ↦
                            elim (Outcome-cases (c.nested_string_map d ref_path)) [
                              | inr bad ↦ absurd (ground arith)
                              | inl (ref, at_ref) ↦ elim (run-cases (password_of c ref w)) [
                                | inr bad ↦ absurd (ground arith)
                                | inl (password, w₁, got) ↦
                                    elim (Outcome-cases (c.nested_bool d tls_path)) [
                                      | inr bad ↦ absurd (ground arith)
                                      | inl (insecure, at_tls) ↦
                                          elim (run-cases (c.gvk_to_gvr (c.gvk d) w₁)) [
                                            | inr bad ↦ absurd (ground arith)
                                            | inl (g, w₂, mapped) ↦ (
                                              (
                                                record {
                                                  username = or_zero "" user;
                                                  password = password;
                                                },
                                                ground arith,
                                              ),
                                              (
                                                record {
                                                  namespace = c.namespace d;
                                                  name = c.name d;
                                                  gvr = g;
                                                },
                                                ground arith,
                                              ),
                                            )
                                          ]
                                    ]
                              ]
                            ]
                      ]
                    ]
              ]
        ]
      ]

  -- If the dynamic getter returns without an error, neither the credentials nor the composition
  -- definition of its result is nil, so that the reconciler can follow both.
  pub dynamic_get-IsComplete :
      (o : Object) (info : Info) (w w' : W) → dynamic_get c o w ≡ (ok info, w') → IsComplete info
  unfolding dynamic_get
  dynamic_get-IsComplete o info w w' h = elim (run-cases (c.gvk_to_gvr o.gvk w)) [
    | inr bad ↦ absurd (ground arith)
    | inl (gvr, w₁, mapped) ↦ elim (run-cases (labelled_definition c o w₁)) [
      | inr bad ↦ absurd (ground arith)
      | inl (labelled, w₂, looked) ↦ elim (Option-cases labelled) [
        | inr (d, is_there) ↦ read_definition-IsComplete gvr o d info w₂ w' (ground arith)
        | inl is_none ↦ elim (run-cases (search_composition_definition c gvr o w₂)) [
          | inr bad ↦ absurd (ground arith)
          | inl (d, w₃, searched) ↦ read_definition-IsComplete gvr o d info w₃ w' (ground arith)
        ]
      ]
    ]
  ]
