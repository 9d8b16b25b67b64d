-- ===== src/Composition/Update.antt =====
-- `Update` of internal/composition/composition.go.
pub mod Laws
pub mod Keeping
use composition_dynamic_cont.Common.{
  ℕ, String, ◌<>◌, Bool, true, false, not, ◌&&◌, ◌||◌, Option, none, some, List, [], ◌∷◌, inl, inr,
  ◌==◌, string_eq, if◌then◌else◌,
}
use composition_dynamic_cont.Common.Effect.{
  Error, failed, wrap_error, error_text, Outcome, ok, err, panic, Act, pure, fail, crash, lift,
  wrap, attempt, ◌>>=◌,
}
use composition_dynamic_cont.Kube.{GroupVersionResource, Object}
use composition_dynamic_cont.Meta.{
  CompositionDefinitionInfo, gracefully_paused_time_key, calculate_release_name, get_release_name,
  set_release_name, set_composition_definition_labels, is_gracefully_paused,
  get_gracefully_paused_time, set_gracefully_paused_time,
}
use composition_dynamic_cont.ChartInspector.{list_resources}
use composition_dynamic_cont.RbacGen
use composition_dynamic_cont.RbacGen.{new_rbac_gen, with_base_name, generate}
use composition_dynamic_cont.Rbac.{Rbac}
use composition_dynamic_cont.Rbac.Installer.{apply_rbac, uninstall_rbac}
use composition_dynamic_cont.Processor.{
  Release, ReleaseStatus, pending_install, pending_upgrade, pending_rollback, settled,
  MinimalMetadata, decode_min_release, compute_release_digest,
}
use composition_dynamic_cont.Archive.{Info}
use composition_dynamic_cont.Composition.Env.{Env, ActionConfig}
use composition_dynamic_cont.Composition.Support.{
  available, reconcile_gracefully_paused_type, StatusManagerOpts, set_status, set_managed_resources,
  populate_managed_resources,
}
use composition_dynamic_cont.Composition.Steps.{
  reason_paused, paused_message, deref, run, call, is_paused, get_package, update_cr, generate_rbac,
  action_config,
}

module _ {W : Type 0} (env : Env W) where
  unfoldable pub mark_paused : Object → Act W Object
  mark_paused stamped = do
    _ ← run (
        env.event stamped reason_paused "Update"
          "Reconciliation paused via the gracefully paused annotation.")
    pure stamped

  -- The pause that the user asks for is stamped with its time; otherwise the stamp is removed.
  unfoldable pub stamp_pause : Object → Act W Object
  stamp_pause mg =
      if is_gracefully_paused mg
      then mark_paused (set_gracefully_paused_time env.clock env.runtime mg env.clock.now)
      else pure (env.runtime.remove_annotation gracefully_paused_time_key mg)

  unfoldable pub update_from_release : Object → Info → Release → Act W (Unit {0})
  update_from_release mg pkg rel = do
    previous ←
        wrap "getting previous digest from status" (lift (env.runtime.nested_string mg "digest"))
    (all, digest) ← wrap "decoding release" (lift (decode_min_release env.decoder (some rel)))
    managed ← wrap "populating managed resources" (populate_managed_resources env all mg.namespace)
    mg₁ ← lift (set_managed_resources mg managed)
    _ ← run (env.event mg₁ "CompositionUpdated" "Update" ("Updated composition: " <> mg₁.name))
    mg₂ ← wrap "setting status" (
        set_status env mg₁ (record {
          force = false;
          chart_url = pkg.url;
          chart_version = pkg.version;
          resources = all;
          previous_digest = previous;
          digest = digest;
          message = "Composition values updated";
          condition_type = available;
        }))
    mg₃ ← wrap "updating cr status with values" (env.update_status mg₂)
    mg₄ ← stamp_pause mg₃
    _ ← update_cr env mg₄
    pure tt

  unfoldable pub update_active : Object → Act W (Unit {0})
  update_active mg = do
    pkg ← get_package env mg
    _ ← wrap "creating helm client" (env.helm.new_client mg.namespace)
    rel ← wrap "getting helm release" (env.helm.get_release mg.namespace (get_release_name mg))
    elim rel [
      | none ↦ fail (failed "release not found after upgrade")
      | some found ↦ update_from_release mg pkg found
    ]

  unfoldable pub update : Object → Act W (Unit {0})
  update mg = do
    _ ← wrap "creating dynamic client" env.new_dynamic
    if is_paused env mg
        then run (env.event mg reason_paused "Update" paused_message)
        else update_active mg
