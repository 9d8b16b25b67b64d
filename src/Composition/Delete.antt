-- ===== src/Composition/Delete.antt =====
-- `Delete` of internal/composition/composition.go.
pub mod Laws
pub mod Keeping
use composition_dynamic_cont.Common.{
  ℕ, String, ◌<>◌, Bool, true, false, not, ◌&&◌, ◌||◌, Option, none, some, List, [], ◌∷◌, inl, inr,
  ◌==◌, string_eq, if◌then◌else◌,
}
use composition_dynamic_cont.Common.Effect.{
  Error, failed, wrap_error, error_text, Outcome, ok, err, panic, Act, pure, fail, crash, lift,
  wrap, attempt, ◌>>=◌,
}
use composition_dynamic_cont.Kube.{GroupVersionResource, Object}
use composition_dynamic_cont.Meta.{
  CompositionDefinitionInfo, gracefully_paused_time_key, calculate_release_name, get_release_name,
  set_release_name, set_composition_definition_labels, is_gracefully_paused,
  get_gracefully_paused_time, set_gracefully_paused_time,
}
use composition_dynamic_cont.ChartInspector.{list_resources}
use composition_dynamic_cont.RbacGen
use composition_dynamic_cont.RbacGen.{new_rbac_gen, with_base_name, generate}
use composition_dynamic_cont.Rbac.{Rbac}
use composition_dynamic_cont.Rbac.Installer.{apply_rbac, uninstall_rbac}
use composition_dynamic_cont.Processor.{
  Release, ReleaseStatus, pending_install, pending_upgrade, pending_rollback, settled,
  MinimalMetadata, decode_min_release, compute_release_digest,
}
use composition_dynamic_cont.Archive.{Info}
use composition_dynamic_cont.Composition.Env.{Env, ActionConfig}
use composition_dynamic_cont.Composition.Support.{
  available, reconcile_gracefully_paused_type, StatusManagerOpts, set_status, set_managed_resources,
  populate_managed_resources,
}
use composition_dynamic_cont.Composition.Steps.{
  reason_paused, paused_message, deref, run, call, is_paused, get_package, update_cr, generate_rbac,
  action_config,
}

module _ {W : Type 0} (env : Env W) where
  unfoldable pub remove_rbac : Object → Info → Act W (Unit {0})
  remove_rbac mg pkg = do
    gvr ← wrap "converting GVK to GVR" (env.gvk_to_gvr mg.gvk)
    info ← deref pkg.composition_definition_info
    generated ←
        wrap ("generating RBAC for composition " <> (mg.namespace <> ("/" <> mg.name)))
          (generate_rbac env (get_release_name mg) mg gvr info)
    wrap "uninstalling rbac" (uninstall_rbac env.client (some generated))

  unfoldable pub finish_delete : Object → Info → Act W (Unit {0})
  finish_delete mg pkg = do
    _ ← remove_rbac mg pkg
    _ ← run (env.event mg "CompositionDeleted" "Delete" ("Deleted composition: " <> mg.name))
    _ ← update_cr env (env.runtime.remove_annotation gracefully_paused_time_key mg)
    pure tt

  -- The release is gone, or the deletion stops here.
  unfoldable pub uninstall_release : Object → Act W (Unit {0})
  uninstall_release mg = do
    _ ← wrap "uninstalling helm chart" (env.helm.uninstall mg.namespace (get_release_name mg))
    rel ← wrap "finding helm release" (env.helm.get_release mg.namespace (get_release_name mg))
    elim rel [
      | none ↦ pure tt
      | some _ ↦
          fail (
            failed
              ("composition not deleted, release " <> (get_release_name mg <> " still exists")))
    ]

  unfoldable pub delete_release : Object → Info → Option Release → Act W (Unit {0})
  delete_release mg pkg none = run (
      env.event mg "CompositionDeleted" "Delete"
        ("Release not found, nothing to uninstall: " <> mg.name))
  delete_release mg pkg (some _) = do _ ← uninstall_release mg; finish_delete mg pkg

  -- The getter is tested before the helm client is made, and called after.
  unfoldable pub delete_active : Object → Act W (Unit {0})
  delete_active mg = elim env.package_info_getter [
    | none ↦ fail (failed "helm chart package info getter must be specified")
    | some getter ↦ do
      _ ← wrap "creating helm client" (env.helm.new_client mg.namespace)
      pkg ← wrap "getting package info" (getter mg)
      rel ← wrap "finding helm release" (env.helm.get_release mg.namespace (get_release_name mg))
      delete_release mg pkg rel
  ]

  unfoldable pub delete : Object → Act W (Unit {0})
  delete mg = do
    _ ← wrap "creating dynamic client" env.new_dynamic
    if is_paused env mg
        then run (env.event mg reason_paused "Delete" paused_message)
        else delete_active mg
