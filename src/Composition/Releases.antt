-- ===== src/Composition/Releases.antt =====
-- What the operations of internal/composition/composition.go that run helm or install RBAC keep of
-- the world.
use composition_dynamic_cont.Common.{ℕ, String, string_eq}
use composition_dynamic_cont.Common.Dict.{Dict}
use composition_dynamic_cont.Common.Preserves.{
  Preserves, Preserves-bind, Preserves-pure, Preserves-wrap,
}
use composition_dynamic_cont.ChartInspector.Keeping.{list_resources-Keeps}
use composition_dynamic_cont.RbacGen.{generate}
use composition_dynamic_cont.Kube.{GroupVersionResource, Object}
use composition_dynamic_cont.Meta.{CompositionDefinitionInfo}
use composition_dynamic_cont.Composition.Env.{Env, ActionConfig}
use composition_dynamic_cont.Composition.Steps.{generate_rbac, call}

module _ {W : Type 0} (env : Env W) (P : W → Type 0) where
  abbrev pub Inspects : Type 0
  Inspects = (u : String) (q : Dict String) → Preserves P (env.http.get u q)

  -- The calls of the helm client that make or change a release.
  pub record Deploys : Type 0 where
    pub rolled_back :
        (ns name : String) (revision history : ℕ)
        → Preserves P (env.helm.rollback ns name revision history)
    pub upgraded :
        (ns name url : String) (config : ActionConfig env.Values env.PostRenderer) (history : ℕ)
        → Preserves P (call (env.helm.upgrade ns name url config history))
    pub installed :
        (ns name url : String) (config : ActionConfig env.Values env.PostRenderer)
        → Preserves P (call (env.helm.install ns name url config))

  pub generate_rbac-Preserves :
      Inspects
      → (name : String) (mg : Object) (gvr : GroupVersionResource)
        (info : CompositionDefinitionInfo)
      → Preserves P (generate_rbac env name mg gvr info)
  unfolding generate_rbac generate
  generate_rbac-Preserves inspects name mg gvr info =
      Preserves-bind
        (Preserves-wrap "getting resources from chart-inspector" record {
          at = list_resources-Keeps P env.http (λ u q. (inspects u q).at) env.chart_inspector_url _;
        })
        (λ resources. Preserves-pure _)
