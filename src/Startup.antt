-- ===== src/Startup.antt =====
-- main.go: the flags and the start of the controller.
pub mod Main
pub mod Laws
mod Tests
use composition_dynamic_cont.Common.{
  ℕ, zero, suc, String, ◌<>◌, Bool, true, false, Option, none, some, inl, inr, ◌==◌, string_eq,
  if◌then◌else◌,
}
use composition_dynamic_cont.Common.Effect.{
  Error, failed, Outcome, ok, err, panic, Act, pure, fail, lift, wrap, attempt, ◌>>=◌,
}
use composition_dynamic_cont.Kube.{GroupVersionResource, Object}
use composition_dynamic_cont.Archive.{Info, static_get}
use composition_dynamic_cont.Archive.Dynamic.{Cluster, dynamic_get}
use composition_dynamic_cont.Composition.Env.{RestMapper}
use composition_dynamic_cont.Metrics.{Telemetry}
use composition_dynamic_cont.Metrics.Setup.{
  ℤ, pos, negsuc, Config, Sdk, State, in_world, init_metrics, default_service_name,
  default_export_interval,
}

-- The packages `flag` and plumbing's `env`: a flag's value, from its name and its default, and a
-- variable's, likewise. A duration is in nanoseconds.
pub record Settings : Type 0 where
  pub flag_string : String → String → String
  pub env_string : String → String → String
  pub flag_bool : String → Bool → Bool
  pub env_bool : String → Bool → Bool
  pub flag_int : String → ℤ → ℤ
  pub env_int : String → ℤ → ℤ
  pub flag_duration : String → ℤ → ℤ
  pub env_duration : String → ℤ → ℤ

pub record Flags : Type 0 where
  pub kubeconfig : String
  pub debug : Bool
  pub workers : ℤ
  pub resync_interval : ℤ
  pub resource_group : String
  pub resource_version : String
  pub resource_name : String
  pub namespace : String
  pub chart : String
  pub url_chart_inspector : String
  pub sa_name : String
  pub sa_namespace : String
  pub max_error_retry_interval : ℤ
  pub min_error_retry_interval : ℤ
  pub max_error_retry : ℤ
  pub metrics_server_port : ℤ
  pub safe_release_name : Bool
  pub otel_enabled : Bool
  pub otel_service_name : String
  pub otel_export_interval : ℤ
  pub deployment_name : String

unfoldable pub flags : Settings → Flags
flags s = record {
  kubeconfig = s.flag_string "kubeconfig" (s.env_string "KUBECONFIG" "");
  debug = s.flag_bool "debug" (s.env_bool "COMPOSITION_CONTROLLER_DEBUG" false);
  workers = s.flag_int "workers" (s.env_int "COMPOSITION_CONTROLLER_WORKERS" (pos 1));
  resync_interval =
      s.flag_duration "resync-interval"
        (s.env_duration "COMPOSITION_CONTROLLER_RESYNC_INTERVAL" (pos 180_000_000_000));
  resource_group = s.flag_string "group" (s.env_string "COMPOSITION_CONTROLLER_GROUP" "");
  resource_version = s.flag_string "version" (s.env_string "COMPOSITION_CONTROLLER_VERSION" "");
  resource_name = s.flag_string "resource" (s.env_string "COMPOSITION_CONTROLLER_RESOURCE" "");
  namespace = s.flag_string "namespace" (s.env_string "COMPOSITION_CONTROLLER_NAMESPACE" "");
  chart = s.flag_string "chart" (s.env_string "COMPOSITION_CONTROLLER_CHART" "");
  url_chart_inspector = s.flag_string "urlChartInspector" (
      s.env_string "URL_CHART_INSPECTOR"
        "http://chart-inspector.krateo-system.svc.cluster.local:8081/");
  sa_name = s.flag_string "saName" (s.env_string "COMPOSITION_CONTROLLER_SA_NAME" "");
  sa_namespace =
      s.flag_string "saNamespace" (s.env_string "COMPOSITION_CONTROLLER_SA_NAMESPACE" "");
  max_error_retry_interval =
      s.flag_duration "max-error-retry-interval"
        (s.env_duration "COMPOSITION_CONTROLLER_MAX_ERROR_RETRY_INTERVAL" (pos 60_000_000_000));
  min_error_retry_interval =
      s.flag_duration "min-error-retry-interval"
        (s.env_duration "COMPOSITION_CONTROLLER_MIN_ERROR_RETRY_INTERVAL" (pos 1_000_000_000));
  max_error_retry =
      s.flag_int "max-error-retries" (s.env_int "COMPOSITION_CONTROLLER_MAX_ERROR_RETRIES" (pos 5));
  metrics_server_port =
      s.flag_int "metrics-server-port"
        (s.env_int "COMPOSITION_CONTROLLER_METRICS_SERVER_PORT" (pos 0));
  safe_release_name =
      s.flag_bool "safe-release-name" (s.env_bool "COMPOSITION_CONTROLLER_SAFE_RELEASE_NAME" true);
  otel_enabled = s.flag_bool "otel-enabled" (s.env_bool "OTEL_ENABLED" false);
  otel_service_name = s.flag_string "otel-service-name" default_service_name;
  otel_export_interval =
      s.flag_duration "otel-export-interval"
        (s.env_duration "OTEL_EXPORT_INTERVAL" default_export_interval);
  deployment_name = s.flag_string "deployment-name" (s.env_string "DEPLOYMENT_NAME" "");
}

-- The configuration of the telemetry, for the library and for internal/metrics.
abbrev pub telemetry_config : Flags → Config
telemetry_config f = record {
  enabled = f.otel_enabled;
  service_name = f.otel_service_name;
  export_interval = f.otel_export_interval;
  deployment_name = f.deployment_name;
}

-- `HandlerOptions`, which `NewHandler` copies field by field into the handler.
pub record Handler (W RestConfig Pluralizer ApiRecorder : Type 0) : Type 0 where
  pub kubeconfig : RestConfig
  pub pluralizer : Pluralizer
  pub package_info_getter : Object → Act W Info
  pub event_recorder : ApiRecorder
  pub chart_inspector_url : String
  pub sa_name : String
  pub sa_namespace : String
  pub safe_release_name : Bool
  pub mapper : RestMapper W

-- The options of the builder.
pub record Options (Selector TelemetryMetrics : Type 0) : Type 0 where
  pub namespace : String
  pub resync_interval : ℤ
  pub min_retry_interval : ℤ
  pub max_retry_interval : ℤ
  pub max_retries : ℤ
  pub label_selector : Selector
  pub telemetry_metrics : TelemetryMetrics
  pub metrics_address : Option String

-- client-go, unstructured-runtime and plumbing, as `main` calls them.
pub record Host (W : Type 0) : Type 1 where
  pub RestConfig : Type 0
  pub Recorder : Type 0
  pub ApiRecorder : Type 0
  pub Pluralizer : Type 0
  pub Client : Type 0
  pub Selector : Type 0
  pub TelemetryMetrics : Type 0
  pub TelemetryShutdown : Type 0
  pub Controller : Type 0
  pub Discovery : Type 0
  pub build_config_from_flags : String → Act W RestConfig
  pub get_config : Act W RestConfig
  pub create_recorder : RestConfig → String → Act W Recorder
  pub new_pluralizer : Pluralizer
  pub new_for_config : RestConfig → Outcome Client
  pub cluster : Client → Pluralizer → Cluster W
  pub setup_telemetry : Config → Act W (TelemetryMetrics × TelemetryShutdown)
  pub shutdown : TelemetryShutdown → Act W (Unit {0})
  pub new_requirement : String → String → Outcome Selector
  pub test_mode : Bool
  pub in_cluster_config : Act W RestConfig
  pub new_discovery : Option RestConfig → Outcome Discovery
  pub deferred_mapper : Discovery → RestMapper W
  pub new_api_recorder : Recorder → Option ApiRecorder
  pub decimal : ℤ → String
  pub build :
      RestConfig
      → GroupVersionResource
      → String
      → Options Selector TelemetryMetrics
      → Act W Controller
  pub run : Controller → Handler W RestConfig Pluralizer ApiRecorder → ℤ → Act W (Unit {0})
