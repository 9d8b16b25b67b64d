-- ===== src/Startup/Tests.antt =====
-- Starts of the controller on a small host.
use composition_dynamic_cont.Common.{◌+◌, String, false, none, some, [], ◌≡◌, refl, ◌==◌, string_eq}
use composition_dynamic_cont.Common.Effect.{not_found, ok, err, Act}
use composition_dynamic_cont.Kube.{Object}
use composition_dynamic_cont.Archive.{Info}
use composition_dynamic_cont.Archive.Dynamic.{Cluster}
use composition_dynamic_cont.Metrics.Setup.{State, in_world, init_metrics}
use composition_dynamic_cont.Metrics.Tests.{World, pipeline, sdk, unset}
use composition_dynamic_cont.Startup.{Settings, Flags, flags, Host}
use composition_dynamic_cont.Startup.Main.{
  rest_config, new_rest_mapper, discovered_mapper, dynamic_getter, choose_getter, require_recorder,
  run_controller, main,
}
use composition_dynamic_cont.Startup.Laws.{
  IsConfig, IsRecorder, IsChosen, IsSetUp, Served, main-Served,
}

-- No flag and no variable is given.
abbrev defaults : Settings
defaults = record {
  flag_string = λ name value. value;
  env_string = λ name value. value;
  flag_bool = λ name value. value;
  env_bool = λ name value. value;
  flag_int = λ name value. value;
  env_int = λ name value. value;
  flag_duration = λ name value. value;
  env_duration = λ name value. value;
}

abbrev done : {A : Type 0} → A → Act World A
done a w = (ok a, w)

abbrev cluster : Cluster World
cluster = record {
  Unstructured = Unit {0};
  get = λ g ns name w. (err (not_found name), w);
  list = λ g. done [];
  gvk_to_gvr = λ gvk. done record { group = "g"; version = "v1"; resource = "sites" };
  gvk = λ u. record { group = ""; version = ""; kind = "" };
  name = λ u. "";
  namespace = λ u. "";
  nested_string = λ u path. ok none;
  nested_string_map = λ u path. ok none;
  nested_bool = λ u path. ok none;
  secret_data = λ u. ok [];
  decode_base64 = λ s. ok s;
  show_gvr = λ g. g.resource;
  decimal = λ n. "";
}

-- The run of the controller is given. A shutdown leaves one release more.
abbrev host : Act World (Unit {0}) → Host World
host run = record {
  RestConfig = String;
  Recorder = Unit {0};
  ApiRecorder = Unit {0};
  Pluralizer = Unit {0};
  Client = Unit {0};
  Selector = String;
  TelemetryMetrics = Unit {0};
  TelemetryShutdown = Unit {0};
  Controller = Unit {0};
  Discovery = Unit {0};
  build_config_from_flags = λ path. done path;
  get_config = done "in-cluster";
  create_recorder = λ cfg name. done tt;
  new_pluralizer = tt;
  new_for_config = λ cfg. ok tt;
  cluster = λ client pluralizer. cluster;
  setup_telemetry = λ config. done (tt, tt);
  shutdown = λ later w. (ok tt, record w { releases = w.releases + 1 });
  new_requirement = λ key value. ok key;
  test_mode = false;
  in_cluster_config = done "in-cluster";
  new_discovery = λ cfg. ok tt;
  deferred_mapper = λ d. record { rest_mapping = λ gvk. done false; reset = none };
  new_api_recorder = λ rec. some tt;
  decimal = λ n. "";
  build = λ cfg gvr name options. done tt;
  run = λ controller handler workers. run;
}

abbrev simple : Host World
simple = host (done tt)

abbrev given : Flags
given = flags defaults

abbrev stopped : State pipeline sdk
stopped = (main pipeline sdk simple given unset).1

main-test : main pipeline sdk simple given unset ≡ (ok tt, stopped)
unfolding main flags rest_config choose_getter dynamic_getter run_controller init_metrics
    require_recorder new_rest_mapper discovered_mapper
main-test = refl

shutdown-test : stopped.world.releases ≡ 1
unfolding main flags rest_config choose_getter dynamic_getter run_controller init_metrics
    require_recorder new_rest_mapper discovered_mapper
shutdown-test = refl

main-Served_example :
    (cfg : String) × (rec : Unit {0}) × (getter : Object → Act World Info) × (metrics : Unit {0})
    × (shutdown : Unit {0}) × (s₁ : State pipeline sdk) × IsConfig pipeline sdk simple given cfg
    × IsRecorder pipeline sdk simple cfg rec
    × IsChosen pipeline sdk simple (given.chart == "") given.chart cfg getter
    × IsSetUp pipeline sdk simple given metrics shutdown
    × Served pipeline sdk simple given cfg rec getter metrics s₁
    × (stopped ≡ (in_world pipeline sdk (simple.shutdown shutdown) s₁).1)
main-Served_example = main-Served pipeline sdk simple given unset stopped main-test
