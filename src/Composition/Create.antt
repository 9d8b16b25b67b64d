-- ===== src/Composition/Create.antt =====
-- `Create` of internal/composition/composition.go.
pub mod Laws
pub mod Keeping
pub mod Granting
use composition_dynamic_cont.Common.{
  ℕ, String, ◌<>◌, Bool, true, false, not, ◌&&◌, ◌||◌, Option, none, some, List, [], ◌∷◌, inl, inr,
  ◌==◌, string_eq, if◌then◌else◌,
}
use composition_dynamic_cont.Common.Effect.{
  Error, failed, wrap_error, error_text, Outcome, ok, err, panic, Act, pure, fail, crash, lift,
  wrap, attempt, ◌>>=◌,
}
use composition_dynamic_cont.Kube.{GroupVersionResource, Object}
use composition_dynamic_cont.Meta.{
  CompositionDefinitionInfo, gracefully_paused_time_key, calculate_release_name, get_release_name,
  set_release_name, set_composition_definition_labels, is_gracefully_paused,
  get_gracefully_paused_time, set_gracefully_paused_time,
}
use composition_dynamic_cont.ChartInspector.{list_resources}
use composition_dynamic_cont.RbacGen
use composition_dynamic_cont.RbacGen.{new_rbac_gen, with_base_name, generate}
use composition_dynamic_cont.Rbac.{Rbac}
use composition_dynamic_cont.Rbac.Installer.{apply_rbac, uninstall_rbac}
use composition_dynamic_cont.Processor.{
  Release, ReleaseStatus, pending_install, pending_upgrade, pending_rollback, settled,
  MinimalMetadata, decode_min_release, compute_release_digest,
}
use composition_dynamic_cont.Archive.{Info}
use composition_dynamic_cont.Composition.Env.{Env, ActionConfig}
use composition_dynamic_cont.Composition.Support.{
  available, reconcile_gracefully_paused_type, StatusManagerOpts, set_status, set_managed_resources,
  populate_managed_resources,
}
use composition_dynamic_cont.Composition.Steps.{
  reason_paused, paused_message, deref, run, call, is_paused, get_package, update_cr, generate_rbac,
  action_config,
}

module _ {W : Type 0} (env : Env W) where
  unfoldable pub install_rbac : Object → String → Info → Act W (Unit {0})
  install_rbac mg release_name pkg = do
    gvr ← wrap "converting GVK to GVR" (env.gvk_to_gvr mg.gvk)
    info ← deref pkg.composition_definition_info
    generated ←
        wrap "generating RBAC using chart-inspector" (generate_rbac env release_name mg gvr info)
    wrap "installing rbac" (apply_rbac env.client (some generated))

  -- The release of an install, whose error is checked.
  unfoldable pub installed : Option Release × Option Error → Act W (Option Release)
  installed (rel, none) = pure rel
  installed (rel, some e) = fail (wrap_error "installing helm chart" e)

  -- The release of an upgrade: the code overwrites its error without looking at it.
  unfoldable pub upgraded : Option Release × Option Error → Act W (Option Release)
  upgraded (rel, _) = pure rel

  unfoldable pub install_release :
      Object → String → Info → ActionConfig env.Values env.PostRenderer → Act W (Option Release)
  install_release mg release_name pkg config = do
    found ← wrap "finding helm release" (env.helm.get_release mg.namespace release_name)
    elim found [
      | some _ ↦ do
        both ← call (env.helm.upgrade mg.namespace release_name pkg.url config env.helm_max_history)
        upgraded both
      | none ↦ do
        both ← call (env.helm.install mg.namespace release_name pkg.url config)
        installed both
    ]

  unfoldable pub record_created : Object → Info → Option Release → Act W (Unit {0})
  record_created mg pkg rel = do
    (all, digest) ← wrap "decoding release" (lift (decode_min_release env.decoder rel))
    mg₁ ← wrap "setting status" (
        set_status env mg (record {
          force = true;
          chart_url = pkg.url;
          chart_version = pkg.version;
          resources = all;
          previous_digest = "";
          digest = digest;
          message = "Composition created";
          condition_type = available;
        }))
    _ ← run (env.event mg₁ "CompositionCreated" "Create" ("Composition created: " <> mg₁.name))
    mg₂ ← wrap "updating cr with values" (env.update_status mg₁)
    _ ← update_cr env (env.runtime.remove_annotation gracefully_paused_time_key mg₂)
    pure tt

  unfoldable pub create_active : Object → Act W (Unit {0})
  create_active mg = do
    name ← lift (calculate_release_name env.rand mg env.safe_release_name)
    let named = set_release_name mg name
    mg₁ ← update_cr env named
    pkg ← get_package env mg₁
    _ ← install_rbac mg₁ (get_release_name named) pkg
    _ ← wrap "creating helm client" (env.helm.new_client mg₁.namespace)
    config ← action_config env mg₁ pkg
    rel ← install_release mg₁ (get_release_name named) pkg config
    record_created mg₁ pkg rel

  unfoldable pub create : Object → Act W (Unit {0})
  create mg = do
    _ ← wrap "creating dynamic client" env.new_dynamic
    if is_paused env mg
        then run (env.event mg reason_paused "Update" paused_message)
        else create_active mg
