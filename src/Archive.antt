-- ===== src/Archive.antt =====
-- internal/tools/archive/getter.go: where the chart of a composition comes from.
pub mod Dynamic
use composition_dynamic_cont.Common.{String, Bool, false, Option, none}
use composition_dynamic_cont.Common.Effect.{Act, pure}
use composition_dynamic_cont.Kube.{Object}
use composition_dynamic_cont.Meta.{CompositionDefinitionInfo}

-- `none` is a nil pointer.
pub record Auth : Type 0 where
  pub username : String
  pub password : String

pub record Info : Type 0 where
  pub url : String
  pub version : String
  pub repo : String
  pub auth : Option Auth
  pub insecure_skip_tls_verify : Bool
  pub composition_definition_info : Option CompositionDefinitionInfo

-- The getter `Static(chart)`: only the URL is set.
unfoldable pub static_get : {W : Type 0} → String → Object → Act W Info
static_get chart_name _ = pure (record {
  url = chart_name;
  version = "";
  repo = "";
  auth = none;
  insecure_skip_tls_verify = false;
  composition_definition_info = none;
})
