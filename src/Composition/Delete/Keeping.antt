-- ===== src/Composition/Delete/Keeping.antt =====
-- What `Delete` keeps of the world.
use composition_dynamic_cont.Common.{String, ◌<>◌, Option, none, some}
use composition_dynamic_cont.Common.Effect.{failed, Act, pure, fail, wrap, ◌>>=◌}
use composition_dynamic_cont.Common.Preserves.{
  Preserves, Preserves-bind, Preserves-pure, Preserves-fail, Preserves-wrap, Preserves-if,
}
use composition_dynamic_cont.Kube.{GroupVersionResource, Object}
use composition_dynamic_cont.Meta.{get_release_name, gracefully_paused_time_key}
use composition_dynamic_cont.Archive.{Info}
use composition_dynamic_cont.Processor.{Release}
use composition_dynamic_cont.Composition.Env.{Env}
use composition_dynamic_cont.Composition.Steps.{reason_paused, paused_message, is_paused}
use composition_dynamic_cont.Rbac.Keeping.{uninstall_rbac-Keeps}
use composition_dynamic_cont.Composition.Keeping.{
  Quiet, GetterKeeps, deref-Preserves, update_cr-Preserves, told-Preserves,
}
use composition_dynamic_cont.Composition.Releases.{Inspects, generate_rbac-Preserves}
use composition_dynamic_cont.Composition.Delete.{
  remove_rbac, finish_delete, uninstall_release, delete_release, delete_active, delete,
}

module _ {W : Type 0} (env : Env W) (P : W → Type 0) where
  -- The calls that take releases and RBAC objects away.
  pub record Removes : Type 0 where
    pub uninstalled : (ns name : String) → Preserves P (env.helm.uninstall ns name)
    pub deleted :
        (g : GroupVersionResource) (ns name : String) → Preserves P (env.client.delete g ns name)

module _ {W : Type 0} (env : Env W) (P : W → Type 0) (Q : Quiet env P) where
  module _ (inspects : Inspects env P) (removes : Removes env P) where
    remove_rbac-Preserves : (mg : Object) (pkg : Info) → Preserves P (remove_rbac env mg pkg)
    unfolding remove_rbac
    remove_rbac-Preserves mg pkg =
        Preserves-bind (Preserves-wrap "converting GVK to GVR" (Q.mapped mg.gvk)) (λ gvr.
          Preserves-bind (deref-Preserves env P Q pkg.composition_definition_info) (λ info.
            Preserves-bind
              (Preserves-wrap _
                (generate_rbac-Preserves env P inspects (get_release_name mg) mg gvr info))
              (λ generated. Preserves-wrap "uninstalling rbac" record {
                at =
                    uninstall_rbac-Keeps P env.client (λ g ns name. (removes.deleted g ns name).at)
                      (some generated);
              })))

    finish_delete-Preserves : (mg : Object) (pkg : Info) → Preserves P (finish_delete env mg pkg)
    unfolding finish_delete
    finish_delete-Preserves mg pkg = Preserves-bind (remove_rbac-Preserves mg pkg) (λ _.
        Preserves-bind
          (told-Preserves env P Q mg "CompositionDeleted" "Delete"
            ("Deleted composition: " <> mg.name))
          (λ _.
            Preserves-bind
              (update_cr-Preserves env P Q
                (env.runtime.remove_annotation gracefully_paused_time_key mg))
              (λ _. Preserves-pure tt)))

    uninstall_release-Preserves : (mg : Object) → Preserves P (uninstall_release env mg)
    unfolding uninstall_release
    uninstall_release-Preserves mg =
        Preserves-bind
          (Preserves-wrap "uninstalling helm chart"
            (removes.uninstalled mg.namespace (get_release_name mg)))
          (λ _.
            Preserves-bind
              (Preserves-wrap "finding helm release" (Q.found mg.namespace (get_release_name mg)))
              (λ rel.
                elim rel
                  as (λ o. Preserves P (elim o as (λ _. Act W (Unit {0})) [
                    | none ↦ pure tt
                    | some _ ↦ fail (
                        failed (
                          "composition not deleted, release "
                          <> (get_release_name mg <> " still exists")))
                  ])) [ none ↦ Preserves-pure tt | some _ ↦ Preserves-fail _ ]))

    delete_release-Preserves :
        (mg : Object) (pkg : Info) (rel : Option Release)
        → Preserves P (delete_release env mg pkg rel)
    unfolding delete_release
    delete_release-Preserves mg pkg none =
        told-Preserves env P Q mg "CompositionDeleted" "Delete"
          ("Release not found, nothing to uninstall: " <> mg.name)
    delete_release-Preserves mg pkg (some rel) =
        Preserves-bind (uninstall_release-Preserves mg) (λ _. finish_delete-Preserves mg pkg)

    active : Object → (Object → Act W Info) → Act W (Unit {0})
    active mg getter = do
      _ ← wrap "creating helm client" (env.helm.new_client mg.namespace)
      pkg ← wrap "getting package info" (getter mg)
      rel ← wrap "finding helm release" (env.helm.get_release mg.namespace (get_release_name mg))
      delete_release env mg pkg rel

    active-Preserves :
        (mg : Object) (getter : Object → Act W Info)
        → GetterKeeps P (some getter)
        → Preserves P (active mg getter)
    unfolding active
    active-Preserves mg getter k =
        Preserves-bind (Preserves-wrap "creating helm client" (Q.opened mg.namespace)) (λ _.
          Preserves-bind (Preserves-wrap "getting package info" (k mg)) (λ pkg.
            Preserves-bind
              (Preserves-wrap "finding helm release" (Q.found mg.namespace (get_release_name mg)))
              (λ rel. delete_release-Preserves mg pkg rel)))

    delete_active-Preserves : (mg : Object) → Preserves P (delete_active env mg)
    unfolding delete_active active
    delete_active-Preserves mg =
        elim env.package_info_getter
            as (λ g.
              GetterKeeps P g
              → Preserves P (elim g as (λ _. Act W (Unit {0})) [
                | none ↦ fail (failed "helm chart package info getter must be specified")
                | some getter ↦ active mg getter
              ])) [ none ↦ λ _. Preserves-fail _ | some getter ↦ λ k. active-Preserves mg getter k ]
          Q.got

    pub delete-Preserves : (mg : Object) → Preserves P (delete env mg)
    unfolding delete
    delete-Preserves mg =
        Preserves-bind (Preserves-wrap "creating dynamic client" Q.connected) (λ _.
          Preserves-if (is_paused env mg)
            (told-Preserves env P Q mg reason_paused "Delete" paused_message)
            (delete_active-Preserves mg))
