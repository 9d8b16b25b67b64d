-- ===== src/Startup/Main.antt =====
-- main.go: `main` behind the flags.
use composition_dynamic_cont.Common.{
  zero, String, ◌<>◌, Bool, true, false, Option, none, some, ◌==◌, string_eq, if◌then◌else◌,
}
use composition_dynamic_cont.Common.Effect.{
  failed, Outcome, ok, err, panic, Act, pure, fail, lift, wrap, attempt, ◌>>=◌,
}
use composition_dynamic_cont.Kube.{GroupVersionResource, Object}
use composition_dynamic_cont.Meta.{composition_version_label}
use composition_dynamic_cont.Archive.{Info, static_get}
use composition_dynamic_cont.Archive.Dynamic.{dynamic_get}
use composition_dynamic_cont.Composition.Env.{RestMapper}
use composition_dynamic_cont.Metrics.{Telemetry}
use composition_dynamic_cont.Metrics.Setup.{
  ℤ, pos, Sdk, State, in_world, init_metrics, default_service_name,
}
use composition_dynamic_cont.Startup.{Flags, Handler, Options, Host, telemetry_config}

abbrev is_zero : ℤ → Bool
is_zero (pos zero) = true
is_zero _ = false

module _ {W : Type 0} (t : Telemetry W) (sdk : Sdk W t.Meter) (h : Host W) where
  abbrev S : Type 0
  S = State t sdk

  -- `if err != nil { log.Error(err, message); os.Exit(1) }`: an error of `main` is an exit with
  -- status 1 that has logged the message.
  abbrev pub or_exit : {A : Type 0} → String → Act W A → Act S A
  or_exit message m = wrap message (in_world t sdk m)

  unfoldable pub rest_config : String → Act W h.RestConfig
  rest_config kubeconfig =
      if kubeconfig == "" then h.get_config else h.build_config_from_flags kubeconfig

  -- `archive.Dynamic`
  unfoldable pub dynamic_getter : h.RestConfig → Act W (Object → Act W Info)
  dynamic_getter cfg = lift (h.new_for_config cfg) >>= λ client.
      pure (dynamic_get (h.cluster client h.new_pluralizer))

  unfoldable pub discovered_mapper : Option h.RestConfig → Act W (RestMapper W)
  discovered_mapper cfg = do
    discovery ← lift (h.new_discovery cfg)
    pure (h.deferred_mapper discovery)

  -- internal/tools/dynamic/dynamic.go: `NewRESTMapper`. A nil configuration is replaced by that of the
  -- cluster, but for tests.
  unfoldable pub new_rest_mapper : Option h.RestConfig → Act W (RestMapper W)
  new_rest_mapper (some cfg) = discovered_mapper (some cfg)
  new_rest_mapper none =
      if h.test_mode
      then discovered_mapper none
      else (h.in_cluster_config >>= λ cfg. discovered_mapper (some cfg))

  unfoldable pub choose_getter : String → h.RestConfig → Act S (Object → Act W Info)
  choose_getter chart cfg =
      if chart == ""
      then or_exit "Creating chart url info getter." (dynamic_getter cfg)
      else pure (static_get chart)

  unfoldable pub new_handler :
      Flags
      → h.RestConfig
      → (Object → Act W Info)
      → h.ApiRecorder
      → RestMapper W
      → Handler W h.RestConfig h.Pluralizer h.ApiRecorder
  new_handler f cfg getter recorder mapper = record {
    kubeconfig = cfg;
    pluralizer = h.new_pluralizer;
    package_info_getter = getter;
    event_recorder = recorder;
    chart_inspector_url = f.url_chart_inspector;
    sa_name = f.sa_name;
    sa_namespace = f.sa_namespace;
    safe_release_name = f.safe_release_name;
    mapper = mapper;
  }

  -- No address where the port is zero.
  unfoldable pub metrics_address : ℤ → Option String
  metrics_address port = if is_zero port then none else some (":" <> h.decimal port)

  unfoldable pub options :
      Flags → h.Selector → h.TelemetryMetrics → Options h.Selector h.TelemetryMetrics
  options f selector metrics = record {
    namespace = f.namespace;
    resync_interval = f.resync_interval;
    min_retry_interval = f.min_error_retry_interval;
    max_retry_interval = f.max_error_retry_interval;
    max_retries = f.max_error_retry;
    label_selector = selector;
    telemetry_metrics = metrics;
    metrics_address = metrics_address f.metrics_server_port;
  }

  abbrev pub watched : Flags → GroupVersionResource
  watched f = record {
    group = f.resource_group;
    version = f.resource_version;
    resource = f.resource_name;
  }

  -- A deferred call runs when `main` returns or panics, and not at `os.Exit`. Its error is dropped.
  abbrev pub run_deferred : {A : Type 0} → Act S (Unit {0}) → Outcome A × S → Outcome A × S
  run_deferred later (ok a, s) = (ok a, (later s).1)
  run_deferred later (err e, s) = (err e, s)
  run_deferred later (panic, s) = (panic, (later s).1)

  abbrev pub deferring : {A : Type 0} → Act S (Unit {0}) → Act S A → Act S A
  deferring later m s = run_deferred later (m s)

  unfoldable pub require_recorder : Option h.ApiRecorder → Act S h.ApiRecorder
  require_recorder none = fail (failed "API recorder is nil, events will not be recorded.")
  require_recorder (some r) = pure r

  unfoldable pub run_controller :
      Flags
      → h.RestConfig
      → h.Recorder
      → (Object → Act W Info)
      → h.TelemetryMetrics
      → Act S (Unit {0})
  run_controller f cfg rec getter metrics = do
    -- An error of `InitMetrics` is only logged.
    _ ← attempt (init_metrics t sdk (telemetry_config f))
    selector ←
        or_exit "Creating label requirement."
          (lift (h.new_requirement composition_version_label f.resource_version))
    mapper ← or_exit "Creating RESTMapper." (new_rest_mapper (some cfg))
    recorder ← require_recorder (h.new_api_recorder rec)
    controller ←
        or_exit "Creating controller."
          (h.build cfg (watched f) default_service_name (options f selector metrics))
    or_exit "Running controller."
        (h.run controller (new_handler f cfg getter recorder mapper) f.workers)

  unfoldable pub main : Flags → Act S (Unit {0})
  main f = do
    cfg ← or_exit "Building kubeconfig." (rest_config f.kubeconfig)
    rec ←
        or_exit "Creating event recorder." (h.create_recorder cfg "composition-dynamic-controller")
    getter ← choose_getter f.chart cfg
    (metrics, shutdown) ←
        or_exit "Cannot initialize OpenTelemetry metrics" (h.setup_telemetry (telemetry_config f))
    deferring (in_world t sdk (h.shutdown shutdown)) (run_controller f cfg rec getter metrics)
