-- ===== src/Composition/Env.antt =====
-- What the handler of internal/composition/composition.go is given: its options, and the code of
-- other modules that it calls. `W` is the state of the cluster and of the services.
use composition_dynamic_cont.Common.{ℕ, String, Bool, Option}
use composition_dynamic_cont.Common.Effect.{Error, Outcome, Act}
use composition_dynamic_cont.Kube.{GroupVersionKind, GroupVersionResource, Object, Runtime}
use composition_dynamic_cont.Meta.{Rand, Clock}
use composition_dynamic_cont.ChartInspector.{Http}
use composition_dynamic_cont.Archive.{Info}
use composition_dynamic_cont.Processor.{Release, MinimalMetadata, Decoder}
use composition_dynamic_cont.Rbac.Client.{DynamicClient}

-- `meta.RESTMapper`: whether the mapped scope is the root. Not every mapper has `Reset`.
pub record RestMapper (W : Type 0) : Type 0 where
  pub rest_mapping : GroupVersionKind → Act W Bool
  pub reset : Option (W → W)

-- `helmconfig.ActionConfig`, over plumbing's `Values` and post renderer.
pub record ActionConfig (Values PostRenderer : Type 0) : Type 0 where
  pub chart_version : String
  pub chart_name : String
  pub username : String
  pub password : String
  pub insecure_skip_tls_verify : Bool
  pub values : Values
  pub post_renderer : PostRenderer

-- A helm client acts in one namespace, its first argument. Go returns a release beside an error.
pub record HelmClient (W Values PostRenderer : Type 0) : Type 0 where
  pub new_client : String → Act W (Unit {0})
  pub get_release : String → String → Act W (Option Release)
  pub rollback : String → String → ℕ → ℕ → Act W (Option Release)
  pub upgrade :
      String
      → String
      → String
      → ActionConfig Values PostRenderer
      → ℕ
      → W
      → (Option Release × Option Error) × W
  pub install :
      String
      → String
      → String
      → ActionConfig Values PostRenderer
      → W
      → (Option Release × Option Error) × W
  pub uninstall : String → String → Act W (Unit {0})

pub record Env (W : Type 0) : Type 1 where
  pub sa_name : String
  pub sa_namespace : String
  pub safe_release_name : Bool
  pub chart_inspector_url : String
  pub krateo_namespace : String
  pub helm_max_history : ℕ
  pub mapper : Option (RestMapper W)
  pub package_info_getter : Option (Object → Act W Info)
  pub runtime : Runtime
  pub rand : Rand
  pub clock : Clock
  pub http : Http W
  pub new_dynamic : Act W (Unit {0})
  pub client : DynamicClient W
  pub from_api_version_and_kind : String → String → GroupVersionKind
  pub gvk_to_gvr : GroupVersionKind → Act W GroupVersionResource
  pub update : Object → Act W Object
  pub update_status : Object → Act W Object
  pub event : Object → String → String → String → W → W
  pub Values : Type 0
  pub PostRenderer : Type 0
  pub helm : HelmClient W Values PostRenderer
  pub values_from_spec : Object → Outcome Values
  pub inject_global_values : Values → Object → String → Act W Values
  pub label_post_render_from_spec : Object → String → Act W PostRenderer
  pub decoder : Decoder MinimalMetadata
