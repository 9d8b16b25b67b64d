-- ===== src/Composition/Observe.antt =====
-- `Observe` of internal/composition/composition.go.
pub mod Laws
pub mod Keeping
use composition_dynamic_cont.Common.{
  ℕ, String, ◌<>◌, Bool, true, false, not, ◌&&◌, ◌||◌, Option, none, some, List, [], ◌∷◌, inl, inr,
  ◌==◌, string_eq, if◌then◌else◌,
}
use composition_dynamic_cont.Common.Effect.{
  Error, failed, wrap_error, error_text, Outcome, ok, err, panic, Act, pure, fail, crash, lift,
  wrap, attempt, ◌>>=◌,
}
use composition_dynamic_cont.Kube.{GroupVersionResource, Object}
use composition_dynamic_cont.Meta.{
  CompositionDefinitionInfo, gracefully_paused_time_key, calculate_release_name, get_release_name,
  set_release_name, set_composition_definition_labels, is_gracefully_paused,
  get_gracefully_paused_time, set_gracefully_paused_time,
}
use composition_dynamic_cont.ChartInspector.{list_resources}
use composition_dynamic_cont.RbacGen
use composition_dynamic_cont.RbacGen.{new_rbac_gen, with_base_name, generate}
use composition_dynamic_cont.Rbac.{Rbac}
use composition_dynamic_cont.Rbac.Installer.{apply_rbac, uninstall_rbac}
use composition_dynamic_cont.Processor.{
  Release, ReleaseStatus, pending_install, pending_upgrade, pending_rollback, settled,
  MinimalMetadata, decode_min_release, compute_release_digest,
}
use composition_dynamic_cont.Archive.{Info}
use composition_dynamic_cont.Composition.Env.{Env, ActionConfig}
use composition_dynamic_cont.Composition.Support.{
  available, reconcile_gracefully_paused_type, StatusManagerOpts, set_status, set_managed_resources,
  populate_managed_resources,
}
use composition_dynamic_cont.Composition.Steps.{
  reason_paused, paused_message, deref, run, call, is_paused, get_package, update_cr, generate_rbac,
  action_config,
}

pub record ExternalObservation : Type 0 where
  pub resource_exists : Bool
  pub resource_up_to_date : Bool

abbrev pub up_to_date : ExternalObservation
up_to_date = record { resource_exists = true; resource_up_to_date = true }

abbrev pub out_of_date : ExternalObservation
out_of_date = record { resource_exists = true; resource_up_to_date = false }

abbrev pub missing : ExternalObservation
missing = record { resource_exists = false; resource_up_to_date = false }

abbrev pub is_pending : ReleaseStatus → Bool
is_pending settled = false
is_pending _ = true

module _ {W : Type 0} (env : Env W) where
  -- The condition `Unavailable` with the error's text; an error of `SetConditions` is dropped.
  unfoldable pub report_unavailable : Object → Error → Act W (Unit {0})
  report_unavailable mg e = do
    set ← attempt (
        lift (
          env.runtime.set_conditions (record env.runtime.unavailable { message = error_text e })
            mg))
    _ ←
        wrap "updating status after failure"
          (env.update_status (elim set [ inl mg' ↦ mg' | inr _ ↦ mg ]))
    pure tt

  -- Runs a step; where it fails, reports the error as `Unavailable` and returns the second error.
  unfoldable pub or_unavailable :
      {A : Type 0} → Object → (Error → Error) → (Error → Error) → Act W A → Act W A
  or_unavailable mg reported final m = do
    res ← attempt m
    elim res [ inl a ↦ pure a | inr e ↦ do _ ← report_unavailable mg (reported e); fail (final e) ]

  -- A release in a pending state is rolled back first.
  unfoldable pub settle : Object → String → Release → Act W (Option Release)
  settle mg release_name rel =
      if is_pending rel.status
      then wrap "rolling back release"
          (env.helm.rollback mg.namespace release_name rel.revision env.helm_max_history)
      else pure (some rel)

  unfoldable pub prepare_rbac : Object → String → CompositionDefinitionInfo → Act W (Unit {0})
  prepare_rbac mg release_name info = do
    gvr ← wrap "converting GVK to GVR" (env.gvk_to_gvr mg.gvk)
    let generating = wrap_error "generating RBAC using chart-inspector"
    generated ←
        or_unavailable mg generating (λ e. generating (generating e))
          (generate_rbac env release_name mg gvr info)
    or_unavailable mg (wrap_error "applying rbac") (wrap_error "applying rbac")
        (apply_rbac env.client (some generated))

  -- The release, unless there is an error beside it.
  unfoldable pub released : Option Release × Option Error → Act W (Option Release)
  released (rel, none) = pure rel
  released (rel, some e) = fail e

  unfoldable pub upgrade_release : Object → String → Info → Act W (Option Release)
  upgrade_release mg release_name pkg = do
    _ ← wrap "getting helm client" (env.helm.new_client mg.namespace)
    config ← action_config env mg pkg
    or_unavailable mg (wrap_error "upgrading helm chart") (wrap_error "upgrading helm chart") (do
      both ← call (env.helm.upgrade mg.namespace release_name pkg.url config env.helm_max_history)
      released both)

  unfoldable pub previous_digest : Object → Option Release → Act W String
  previous_digest mg rel = do
    previous ←
        wrap "getting previous digest from status" (lift (env.runtime.nested_string mg "digest"))
    if previous == ""
        then wrap "computing release digest from previous release"
            (lift (compute_release_digest rel))
        else pure previous

  unfoldable pub finish : Object → Info → String → String → Act W ExternalObservation
  finish mg pkg previous digest = do
    mg' ← set_status env mg (record {
      force = false;
      chart_url = pkg.url;
      chart_version = pkg.version;
      resources = [];
      previous_digest = previous;
      digest = digest;
      message = "Composition is up-to-date";
      condition_type = available;
    })
    _ ← env.update_status mg'
    pure up_to_date

  unfoldable pub compare_versions :
      Object → Info → Option Release → Option Release → String → String → Act W ExternalObservation
  compare_versions mg pkg rel upgraded digest previous = do
    old ← deref rel
    new ← deref upgraded
    if not (old.chart_version == new.chart_version)
        then pure out_of_date
        else finish mg pkg previous digest

  -- What the digests and the chart versions say.
  unfoldable pub compare_releases :
      Object → Info → Option Release → Option Release → Act W ExternalObservation
  compare_releases mg pkg rel upgraded = do
    digest ← wrap "computing release digest" (lift (compute_release_digest upgraded))
    previous ← previous_digest mg rel
    if not (digest == previous)
        then pure out_of_date
        else compare_versions mg pkg rel upgraded digest previous

  unfoldable pub observe_release :
      Object → String → Info → CompositionDefinitionInfo → Release → Act W ExternalObservation
  observe_release mg release_name pkg info found = do
    rel ← settle mg release_name found
    _ ← prepare_rbac mg release_name info
    upgraded ← upgrade_release mg release_name pkg
    compare_releases mg pkg rel upgraded

  unfoldable pub observe_active : Object → String → Act W ExternalObservation
  observe_active mg release_name = do
    mg₁ ← update_cr env (env.runtime.remove_annotation gracefully_paused_time_key mg)
    pkg ← get_package env mg₁
    info ← deref pkg.composition_definition_info
    mg₂ ← update_cr env (set_composition_definition_labels mg₁ info)
    _ ← wrap "creating helm client" (env.helm.new_client mg₂.namespace)
    rel ← wrap "finding helm release" (env.helm.get_release mg₂.namespace release_name)
    elim rel [ none ↦ pure missing | some found ↦ observe_release mg₂ release_name pkg info found ]

  unfoldable pub observe : Object → Act W ExternalObservation
  observe mg = do
    _ ← wrap "creating dynamic client" env.new_dynamic
    name ← lift (calculate_release_name env.rand mg env.safe_release_name)
    let named = set_release_name mg name
    let skip = do _ ← run (env.event named reason_paused "Observe" paused_message); pure up_to_date
    if is_paused env named then skip else observe_active named (get_release_name named)
