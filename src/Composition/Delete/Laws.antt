-- ===== src/Composition/Delete/Laws.antt =====
-- What `Delete` has reached when it returns without an error.
use composition_dynamic_cont.Common.{
  String, ◌<>◌, false, Option, none, some, ◌≡◌, ap, subst, inl, inr, arith, Option-cases,
}
use composition_dynamic_cont.Common.Dict.{Dict}
use composition_dynamic_cont.Common.Effect.{ok, pure, wrap}
use composition_dynamic_cont.Common.Inversion.{run-cases}
use composition_dynamic_cont.Common.Keeps.{Keeps, Keeps-bind, Keeps-wrap, Keeps-at}
use composition_dynamic_cont.Kube.{GroupVersionResource, Object}
use composition_dynamic_cont.Meta.{
  CompositionDefinitionInfo, get_release_name, gracefully_paused_time_key,
}
use composition_dynamic_cont.ChartInspector
use composition_dynamic_cont.ChartInspector.{Resource, list_resources}
use composition_dynamic_cont.ChartInspector.Keeping.{list_resources-Keeps}
use composition_dynamic_cont.RbacGen.{
  new_rbac_gen, with_base_name, generate, add_resources, empty_policy,
}
use composition_dynamic_cont.Rbac.Installer.{uninstall_rbac}
use composition_dynamic_cont.Rbac.Keeping.{uninstall_rbac-Keeps}
use composition_dynamic_cont.Processor.{Release}
use composition_dynamic_cont.Archive.{Info}
use composition_dynamic_cont.Composition.Env.{Env}
use composition_dynamic_cont.Composition.Steps.{is_paused, generate_rbac, deref, update_cr}
use composition_dynamic_cont.Composition.Delete.{
  remove_rbac, finish_delete, uninstall_release, delete_release, delete_active, delete,
}

module _ {W : Type 0} (env : Env W) (mg : Object) (P : W → Type 0) where
  -- No call but those of the helm client brings the release back.
  pub record StaysAbsent : Type 0 where
    pub looked_up :
        (w w' : W)
        → env.helm.get_release mg.namespace (get_release_name mg) w ≡ (ok none, w')
        → P w'
    pub mapped : Keeps P (env.gvk_to_gvr mg.gvk)
    pub inspected : (u : String) (q : Dict String) → Keeps P (env.http.get u q)
    pub deleted :
        (g : GroupVersionResource) (ns name : String) → Keeps P (env.client.delete g ns name)
    pub written : (o : Object) → Keeps P (env.update o)
    pub told :
        (o : Object) (reason action message : String) (w : W)
        → P w
        → P (env.event o reason action message w)

  module _ (S : StaysAbsent) where
    generate_rbac-Keeps :
        (gvr : GroupVersionResource) (info : CompositionDefinitionInfo)
        → Keeps P (generate_rbac env (get_release_name mg) mg gvr info)
    unfolding generate_rbac generate
    generate_rbac-Keeps gvr info =
        let g = with_base_name (new_rbac_gen env.sa_name env.sa_namespace) (get_release_name mg) in
        let parameters : ChartInspector.Parameters = record {
          composition_name = mg.name;
          composition_namespace = mg.namespace;
          composition_group = gvr.group;
          composition_version = gvr.version;
          composition_resource = gvr.resource;
          composition_definition_name = info.name;
          composition_definition_namespace = info.namespace;
          composition_definition_group = info.gvr.group;
          composition_definition_version = info.gvr.version;
          composition_definition_resource = info.gvr.resource;
        } in
        let inspect = list_resources env.http env.chart_inspector_url parameters in
        Keeps-bind P (wrap "getting resources from chart-inspector" inspect)
          (λ resources. pure (add_resources g mg.namespace (empty_policy g mg.namespace) resources))
          (Keeps-wrap P "getting resources from chart-inspector" inspect
            (list_resources-Keeps P env.http S.inspected env.chart_inspector_url parameters))
          (λ resources w p. p)

    remove_rbac-Absent :
        (pkg : Info) (w w' : W) → P w → remove_rbac env mg pkg w ≡ (ok tt, w') → P w'
    unfolding remove_rbac deref
    remove_rbac-Absent pkg w w' p h = elim (run-cases (env.gvk_to_gvr mg.gvk w)) [
      | inl (gvr, w₁, mapped) ↦ elim (Option-cases pkg.composition_definition_info) [
        | inl bad ↦ absurd (ground arith)
        | inr (info, known) ↦
            elim (run-cases (generate_rbac env (get_release_name mg) mg gvr info w₁)) [
              | inl (rbac, w₂, made) ↦
                  Keeps-at P (uninstall_rbac env.client (some rbac)) w₂ w' (ok tt)
                    (uninstall_rbac-Keeps P env.client S.deleted (some rbac))
                    (Keeps-at P (generate_rbac env (get_release_name mg) mg gvr info) w₁ w₂
                      (ok rbac) (generate_rbac-Keeps gvr info)
                      (Keeps-at P (env.gvk_to_gvr mg.gvk) w w₁ (ok gvr) S.mapped p mapped) made)
                    (ground arith)
              | inr bad ↦ absurd (ground arith)
            ]
      ]
      | inr bad ↦ absurd (ground arith)
    ]

    finish_delete-Absent :
        (pkg : Info) (w w' : W) → P w → finish_delete env mg pkg w ≡ (ok tt, w') → P w'
    unfolding finish_delete update_cr
    finish_delete-Absent pkg w w' p h = elim (run-cases (remove_rbac env mg pkg w)) [
      | inl (_, w₁, done) ↦
          let gone =
            S.told mg "CompositionDeleted" "Delete" ("Deleted composition: " <> mg.name) w₁
              (remove_rbac-Absent pkg w w₁ p done) in
          let unpaused = env.runtime.remove_annotation gracefully_paused_time_key mg in
          let w₂ =
            env.event mg "CompositionDeleted" "Delete" ("Deleted composition: " <> mg.name) w₁ in
          elim (run-cases (env.update unpaused w₂)) [
            | inl (o, w₃, wrote) ↦
                subst P (ground arith)
                  (Keeps-at P (env.update unpaused) w₂ w₃ (ok o) (S.written unpaused) gone wrote)
            | inr bad ↦ absurd (ground arith)
          ]
      | inr bad ↦ absurd (ground arith)
    ]

    uninstall_release-Absent : (w w' : W) → uninstall_release env mg w ≡ (ok tt, w') → P w'
    unfolding uninstall_release
    uninstall_release-Absent w w' h =
        elim (run-cases (env.helm.uninstall mg.namespace (get_release_name mg) w)) [
          | inl (_, w₁, done) ↦
              elim (run-cases (env.helm.get_release mg.namespace (get_release_name mg) w₁)) [
                | inl (rel, w₂, found) ↦ elim (Option-cases rel) [
                  | inl is_none ↦ S.looked_up w₁ w' (ground arith)
                  | inr bad ↦ absurd (ground arith)
                ]
                | inr bad ↦ absurd (ground arith)
              ]
          | inr bad ↦ absurd (ground arith)
        ]

    delete_release-Absent :
        (pkg : Info) (rel : Option Release) (w₀ w w' : W)
        → env.helm.get_release mg.namespace (get_release_name mg) w₀ ≡ (ok rel, w)
        → delete_release env mg pkg rel w ≡ (ok tt, w')
        → P w'
    unfolding delete_release
    delete_release-Absent pkg none w₀ w w' found h =
        let told =
          S.told mg "CompositionDeleted" "Delete"
            ("Release not found, nothing to uninstall: " <> mg.name) w (S.looked_up w₀ w found) in
        subst P (ap (λ r. r.1) h) told
    delete_release-Absent pkg (some rel) w₀ w w' found h =
        elim (run-cases (uninstall_release env mg w)) [
          | inl (_, w₁, done) ↦
              finish_delete-Absent pkg w₁ w' (uninstall_release-Absent w w₁ done) (ground arith)
          | inr bad ↦ absurd (ground arith)
        ]

    -- If a composition is not paused, `Delete` returns without an error only in a world where a lookup
    -- has found no release of its name and everything done since, which is the removal of its RBAC,
    -- an event and an update of the object, has kept that so. `P` is any such property of the world.
    pub delete-Absent : (w w' : W) → is_paused env mg ≡ false → delete env mg w ≡ (ok tt, w') → P w'
    unfolding delete delete_active
    delete-Absent w w' active h = elim (run-cases (env.new_dynamic w)) [
      | inl (_, w₁, connected) ↦ elim (Option-cases env.package_info_getter) [
        | inl bad ↦ absurd (ground arith)
        | inr (getter, given) ↦ elim (run-cases (env.helm.new_client mg.namespace w₁)) [
          | inl (_, w₂, made) ↦ elim (run-cases (getter mg w₂)) [
            | inl (pkg, w₃, got) ↦
                elim (run-cases (env.helm.get_release mg.namespace (get_release_name mg) w₃)) [
                  | inl (rel, w₄, found) ↦
                      delete_release-Absent pkg rel w₃ w₄ w' found (ground arith)
                  | inr bad ↦ absurd (ground arith)
                ]
            | inr bad ↦ absurd (ground arith)
          ]
          | inr bad ↦ absurd (ground arith)
        ]
      ]
      | inr bad ↦ absurd (ground arith)
    ]
