-- ===== src/Composition/Steps.antt =====
-- Steps that the four operations of internal/composition/composition.go share.
use composition_dynamic_cont.Common.{String, Bool, true, false, ◌&&◌, Option, none, some, string_eq}
use composition_dynamic_cont.Common.Effect.{
  failed, Outcome, ok, Act, pure, fail, crash, lift, wrap, ◌>>=◌,
}
use composition_dynamic_cont.Kube.{GroupVersionResource, Object}
use composition_dynamic_cont.Meta.{
  CompositionDefinitionInfo, is_gracefully_paused, get_gracefully_paused_time,
}
use composition_dynamic_cont.ChartInspector.{list_resources}
use composition_dynamic_cont.RbacGen.{new_rbac_gen, with_base_name, generate}
use composition_dynamic_cont.Rbac.{Rbac}
use composition_dynamic_cont.Archive.{Info}
use composition_dynamic_cont.Composition.Env.{Env, ActionConfig}

abbrev pub reason_paused : String
reason_paused = "ReconciliationGracefullyPaused"

abbrev pub paused_message : String
paused_message = "Reconciliation is paused via the gracefully paused annotation."

-- `if _, p := GetGracefullyPausedTime(mg); p && IsGracefullyPaused(mg)`
abbrev pub has_value : {A : Type 0} → Option A → Bool
has_value none = false
has_value (some _) = true

module _ {W : Type 0} where
  -- A nil pointer panics where it is followed.
  unfoldable pub deref : {A : Type 0} → Option A → Act W A
  deref none = crash
  deref (some a) = pure a

  abbrev pub run : (W → W) → Act W (Unit {0})
  run f w = (ok tt, f w)

  -- A call that returns a release and an error.
  abbrev returned : {A : Type 0} → A × W → Outcome A × W
  returned (a, w) = (ok a, w)

  abbrev pub call : {A : Type 0} → (W → A × W) → Act W A
  call m w = returned (m w)

module _ {W : Type 0} (env : Env W) where
  unfoldable pub is_paused : Object → Bool
  is_paused mg = has_value (get_gracefully_paused_time env.clock mg) && is_gracefully_paused mg

  -- `h.packageInfoGetter.WithLogger(log).Get(mg)`, with the test for nil in front.
  unfoldable pub get_package : Object → Act W Info
  get_package mg = elim env.package_info_getter [
    | none ↦ fail (failed "helm chart package info getter must be specified")
    | some getter ↦ wrap "getting package info" (getter mg)
  ]

  unfoldable pub update_cr : Object → Act W Object
  update_cr mg = wrap "updating cr with values" (env.update mg)

  -- `rbgen.WithBaseName(releaseName).Generate(...)`
  unfoldable pub generate_rbac :
      String → Object → GroupVersionResource → CompositionDefinitionInfo → Act W Rbac
  generate_rbac release_name mg gvr info =
      generate (list_resources env.http env.chart_inspector_url)
        (with_base_name (new_rbac_gen env.sa_name env.sa_namespace) release_name)
        (record {
          composition_name = mg.name;
          composition_namespace = mg.namespace;
          composition_gvr = gvr;
          composition_definition_name = info.name;
          composition_definition_namespace = info.namespace;
          composition_definition_gvr = info.gvr;
        })

  -- The values, the labels and the chart of a helm run; a nil `Auth` is followed.
  unfoldable pub action_config : Object → Info → Act W (ActionConfig env.Values env.PostRenderer)
  action_config mg pkg = do
    spec ← wrap "getting spec values" (lift (env.values_from_spec mg))
    values ← wrap "injecting global values" (env.inject_global_values spec mg env.krateo_namespace)
    labels ←
        wrap "creating label post renderer"
          (env.label_post_render_from_spec mg env.krateo_namespace)
    auth ← deref pkg.auth
    pure (record {
      chart_version = pkg.version;
      chart_name = pkg.repo;
      username = auth.username;
      password = auth.password;
      insecure_skip_tls_verify = pkg.insecure_skip_tls_verify;
      values = values;
      post_renderer = labels;
    })
