-- ===== src/Composition/Tests.antt =====
-- Runs of the reconciler in the environment of Memory.
mod Settled
mod Granting
mod History
mod Lookups
use composition_dynamic_cont.Common.{
  String, true, false, Option, none, some, if◌then◌else◌, List, [], ◌∷◌, ◌++◌, ◌≡◌, ◌≢◌, refl, ◌⊎◌,
  string_eq, arith, eq_iff,
}
use composition_dynamic_cont.Common.Dict.{lookup}
use composition_dynamic_cont.Common.Effect.{Error, failed, wrap_error, ok, err, panic}
use composition_dynamic_cont.Kube.{Object, ManagedResource}
use composition_dynamic_cont.Meta.{
  calculate_release_name, set_release_name, is_gracefully_paused, get_gracefully_paused_time,
  gracefully_paused_time_key,
}
use composition_dynamic_cont.ChartInspector.{
  list_resources, validate, set_query_if_not_empty, build_query, collect,
}
use composition_dynamic_cont.Processor.{
  MinimalMetadata, Release, set_namespace, is_blank, compute_release_digest,
}
use composition_dynamic_cont.RbacGen.{
  generate, add_resources, empty_policy, with_base_name, new_rbac_gen,
}
use composition_dynamic_cont.Rbac.{init_cluster_role, init_cluster_role_binding}
use composition_dynamic_cont.Rbac.Installer.{
  uninstall_rbac, delete_cluster_role, delete_cluster_role_binding, delete_namespaced,
  delete_object,
}
use composition_dynamic_cont.Tracer.{round_trip}
use composition_dynamic_cont.Composition.Steps.{
  is_paused, action_config, deref, update_cr, generate_rbac,
}
use composition_dynamic_cont.Composition.Support.{
  build_path, managed_resource, populate_managed_resources, is_namespaced, resolve_namespace,
}
use composition_dynamic_cont.Composition.Support.Status.{
  AllDescribed, populate_managed_resources-Describes,
}
use composition_dynamic_cont.Composition.Support.Paths.{entry, IsPlain, round_trip-build_path}
use composition_dynamic_cont.Composition.Observe.{
  observe, up_to_date, out_of_date, upgrade_release, or_unavailable, report_unavailable, released,
  compare_releases, previous_digest,
}
use composition_dynamic_cont.Composition.Observe.Laws.{
  Agrees, compare_releases_lem, Reports, upgrade_release-err,
}
use composition_dynamic_cont.Composition.Create.{create, install_release, installed}
use composition_dynamic_cont.Composition.Create.Laws.{Installs, install_release-err}
use composition_dynamic_cont.Composition.Env.{Env, ActionConfig}
use composition_dynamic_cont.Composition.Update.{update, stamp_pause}
use composition_dynamic_cont.Composition.Update.Laws.{stamp_pause_lem}
use composition_dynamic_cont.Composition.Delete.{
  delete, delete_active, delete_release, uninstall_release, finish_delete, remove_rbac,
}
use composition_dynamic_cont.Composition.Delete.Laws.{StaysAbsent, delete-Absent}
use composition_dynamic_cont.Composition.Paused.{paused_lem}
use composition_dynamic_cont.Composition.Static.{observe-static_get, create-static_get}
use composition_dynamic_cont.Composition.Memory.{
  World, no_world, active, asked, paused, release, condition, runtime, runtime-IsLawful, info,
  sites, env, static_env, config,
}

paused_named : is_paused env paused ≡ true
unfolding is_paused is_gracefully_paused get_gracefully_paused_time lookup
paused_named = refl

active_named : is_paused env active ≡ false
unfolding is_paused is_gracefully_paused get_gracefully_paused_time lookup
active_named = refl

static_active : is_paused static_env active ≡ false
unfolding is_paused is_gracefully_paused get_gracefully_paused_time lookup
static_active = refl

static_renamed : is_paused static_env (set_release_name active "site") ≡ false
unfolding is_paused is_gracefully_paused get_gracefully_paused_time lookup set_release_name
static_renamed = refl

named : (o : Object) → calculate_release_name env.rand o false ≡ ok o.name
unfolding calculate_release_name
named o = refl

paused_lem_example :
    (observe env paused (some release) ≡ (ok up_to_date, some release))
    × (create env paused (some release) ≡ (ok tt, some release))
    × (update env paused (some release) ≡ (ok tt, some release))
    × (delete env paused (some release) ≡ (ok tt, some release))
paused_lem_example =
    paused_lem env paused "site" (some release) (some release) paused_named refl (named paused)

active-StaysAbsent : StaysAbsent env active (λ w. w ≡ none)
active-StaysAbsent = record {
  looked_up = λ w w' h. ground arith;
  mapped = λ w p. p;
  inspected = λ u q w p. p;
  deleted = λ g ns name w p. p;
  written = λ o w p. p;
  told = λ o reason action message w p. p;
}

deleted : delete env active (some release) ≡ (ok tt, none)
unfolding delete delete_active delete_release uninstall_release finish_delete remove_rbac update_cr
    generate_rbac generate list_resources validate build_query set_query_if_not_empty collect deref
    add_resources empty_policy init_cluster_role init_cluster_role_binding uninstall_rbac
    delete_cluster_role delete_cluster_role_binding delete_namespaced delete_object is_paused
    is_gracefully_paused get_gracefully_paused_time lookup with_base_name new_rbac_gen
deleted = refl

delete-Absent_example : no_world ≡ none
delete-Absent_example =
    delete-Absent env active (λ w. w ≡ none) active-StaysAbsent (some release) none active_named
      deleted

observed :
    compare_releases env active info (some release) (some release) none ≡ (ok out_of_date, none)
unfolding compare_releases previous_digest compute_release_digest is_blank
observed = refl

compare_releases_lem_example :
    ((out_of_date ≡ up_to_date) × Agrees env active (some release) (some release) none)
    ⊎ ((out_of_date ≡ out_of_date)
        × (no_world ≡ no_world)
        × ¬ Agrees env active (some release) (some release) none)
compare_releases_lem_example =
    compare_releases_lem env active info (some release) (some release) out_of_date none none
      observed

-- An environment in which every install fails.
abbrev full_env : Env World
full_env = record env {
  helm = record env.helm { install = λ ns name url config w. ((none, some (failed "quota")), w) };
}

uninstallable :
    install_release full_env active "site" info config none
    ≡ (err (wrap_error "installing helm chart" (failed "quota")), none)
unfolding install_release installed
uninstallable = refl

install_release-err_example :
    ((cause : Error) × (full_env.helm.get_release active.namespace "site" none ≡ (err cause, none))
      × (wrap_error "installing helm chart" (failed "quota")
          ≡ wrap_error "finding helm release" cause))
    ⊎ ((rel : Option Release) × (cause : Error) × Installs full_env active "site" info config none
          rel
          (some cause)
          none
        × (wrap_error "installing helm chart" (failed "quota")
            ≡ wrap_error "installing helm chart" cause))
install_release-err_example =
    install_release-err full_env active "site" info config none none
      (wrap_error "installing helm chart" (failed "quota")) uninstallable

timed_out :
    upgrade_release env active "site" info none
    ≡ (err (wrap_error "upgrading helm chart" (failed "timeout")), none)
unfolding upgrade_release or_unavailable report_unavailable released action_config deref
timed_out = refl

upgrade_release-err_example :
    let e = wrap_error "upgrading helm chart" (failed "timeout") in
    ((cause : Error) × (env.helm.new_client active.namespace none ≡ (err cause, none))
      × (e ≡ wrap_error "getting helm client" cause))
    ⊎ ((w₁ : World) × (env.helm.new_client active.namespace none ≡ (ok tt, w₁))
        × (action_config env active info w₁ ≡ (err e, none)))
    ⊎ ((w₁ : World) × (w₂ : World) × (w₃ : World) × (config : ActionConfig env.Values
          env.PostRenderer)
        × (rel : Option Release) × (cause : Error) × (env.helm.new_client active.namespace none
            ≡ (ok tt, w₁))
        × (action_config env active info w₁ ≡ (ok config, w₂))
        × (env.helm.upgrade active.namespace "site" info.url config env.helm_max_history w₂
            ≡ ((rel, some cause), w₃))
        × Reports env active
            (wrap_error "upgrading helm chart" cause)
            (wrap_error "upgrading helm chart" cause)
            w₃
            e
            none)
upgrade_release-err_example =
    upgrade_release-err env active "site" info
      (wrap_error "upgrading helm chart" (failed "timeout")) none none timed_out

stamp_pause_lem_example :
    (mg' : Object) × (w' : World) × (stamp_pause env asked none ≡ (ok mg', w'))
    × (is_paused env mg' ≡ is_gracefully_paused asked)
    × (lookup gracefully_paused_time_key mg'.annotations
        ≡ (if is_gracefully_paused asked then some (env.clock.format env.clock.now) else none))
stamp_pause_lem_example = stamp_pause_lem env asked none runtime-IsLawful refl

observe-static_get_example : observe static_env active none ≡ (panic, none)
observe-static_get_example =
    observe-static_get static_env "charts/site.tgz" active
      (runtime.remove_annotation gracefully_paused_time_key (set_release_name active "site")) "site"
      none none none refl static_renamed refl (named active) refl

create-static_get_example : create static_env active none ≡ (panic, none)
create-static_get_example =
    create-static_get static_env "charts/site.tgz" active (set_release_name active "site") "site"
      sites none none none none refl static_active refl (named active) refl refl

-- One object without a namespace and one with its own.
abbrev manifest : List MinimalMetadata
manifest =
    record { api_version = "v1"; kind = "Pod"; name = "front"; namespace = ""; annotations = [] }
    ∷ record {
      api_version = "v1";
      kind = "Pod";
      name = "back";
      namespace = "data";
      annotations = [];
    }
    ∷ []

abbrev managed : String → String → ManagedResource
managed name namespace = record {
  api_version = "v1";
  resource = "sites";
  name = name;
  namespace = namespace;
  path = build_path sites namespace name;
}

populated :
    populate_managed_resources env manifest "apps" none
    ≡ (ok (managed "front" "apps" ∷ managed "back" "data" ∷ []), none)
unfolding populate_managed_resources managed_resource is_namespaced resolve_namespace set_namespace
populated = refl

populate_managed_resources-Describes_example :
    AllDescribed env "apps" manifest (managed "front" "apps" ∷ managed "back" "data" ∷ [])
populate_managed_resources-Describes_example =
    populate_managed_resources-Describes env manifest "apps"
      (managed "front" "apps" ∷ managed "back" "data" ∷ []) none none populated

sites-IsPlain : IsPlain sites "apps" "front"
sites-IsPlain = ground arith

abbrev method : String
method = "PUT"

abbrev manager : String
manager = "helm"

method-ne-get : method ≢ "GET"
method-ne-get = ground (arith, eq_iff method "GET")

manager-ne-empty : manager ≢ ""
manager-ne-empty = ground (arith, eq_iff manager "")

round_trip-build_path_example :
    (round_trip
      (record { resources = [] })
      (record { method = "PUT"; path = build_path sites "apps" "front"; field_manager = "helm" })
      false).resources
    ≡ [] ++ entry sites "apps" "front" ∷ []
round_trip-build_path_example =
    round_trip-build_path (record { resources = [] }) sites "apps" "front" "PUT" "helm"
      sites-IsPlain method-ne-get manager-ne-empty
