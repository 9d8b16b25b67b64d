-- ===== src/Metrics/Tests.antt =====
-- Runs of internal/metrics over a small pipeline.
use composition_dynamic_cont.Common.{
  ℕ, ◌+◌, String, true, false, none, some, List, [], ◌∷◌, ◌≡◌, refl, ◌==◌, string_eq, if◌then◌else◌,
  arith,
}
use composition_dynamic_cont.Common.Dict.{Dict}
use composition_dynamic_cont.Common.Effect.{failed, ok, err, Act, Outcome}
use composition_dynamic_cont.ChartInspector
use composition_dynamic_cont.RbacGen
use composition_dynamic_cont.Rbac.{Rbac}
use composition_dynamic_cont.Metrics.{Telemetry, Metrics}
use composition_dynamic_cont.Metrics.Instruments.{new_metrics}
use composition_dynamic_cont.Metrics.Setup.{
  Sdk, Config, State, pos, attributes, use_provider, setup_enabled, setup, init_metrics,
}
use composition_dynamic_cont.Metrics.Timed.{
  Both, timed_install, timed_upgrade, timed_uninstall, timed_rbac, timed_install_with_result,
  timed_upgrade_with_result, metric_resources, metric_generate,
}
use composition_dynamic_cont.Metrics.Counting.{Counting, IsNamed, new_metrics-IsNamed}
use composition_dynamic_cont.Metrics.Transparent
use composition_dynamic_cont.Metrics.Transparent.{IsUnseen, timed-unseen}
use composition_dynamic_cont.Metrics.Start.{StartsFrom, init_metrics-instance}

-- The samples and the increments that the pipeline has, and the number of releases in the cluster.
pub record World : Type 0 where
  pub recorded_samples : List String
  pub increments : Dict ℕ
  pub releases : ℕ

abbrev pub pipeline : Telemetry World
pipeline = record {
  Meter = String;
  Histogram = String;
  Counter = String;
  Time = ℕ;
  Seconds = ℕ;
  float64_histogram = λ meter name description unit w. (ok (some name), w);
  int64_counter = λ meter name description w. (ok (some name), w);
  record_value = λ h d attrs w. record w { recorded_samples = h ∷ w.recorded_samples };
  add = λ c n attrs w. record w { increments = (c, n) ∷ w.increments };
  now = λ w. 1;
  since = λ t w. 2;
}

abbrev occurrences : String → List String → ℕ
occurrences k [] = 0
occurrences k (h ∷ hs) = if h == k then occurrences k hs + 1 else occurrences k hs

abbrev sum : String → Dict ℕ → ℕ
sum k [] = 0
sum k ((c, n) ∷ cs) = if c == k then sum k cs + n else sum k cs

ok-injective :
    {A : Type 0} {a b : A} {w w' : World} → ◌≡◌ {A = Outcome A × World} (ok a, w) (ok b, w') → b ≡ a
ok-injective h = ground arith

abbrev counting : Counting pipeline
counting = record {
  histogram_name = λ h. h;
  counter_name = λ c. c;
  samples = λ k w. occurrences k w.recorded_samples;
  count = λ k w. sum k w.increments;
  made_histogram = λ meter name description unit w w' h ran. (name, ok-injective ran, refl);
  made_counter = λ meter name description w w' c ran. (name, ok-injective ran, refl);
  samples-record = λ k h d attrs w. refl;
  count-record = λ k h d attrs w. refl;
  samples-add = λ k c n attrs w. refl;
  count-add = λ k c n attrs w. refl;
}

abbrev pub sdk : Sdk World String
sdk = record {
  Exporter = Unit {0};
  Resource = Dict String;
  Provider = Unit {0};
  new_exporter = λ w. (ok tt, w);
  merge_resource = λ d. ok d;
  new_provider = λ e i r b w. (tt, w);
  meter = λ p name. name;
  shutdown = λ p w. (ok tt, w);
  set_meter_provider = λ p w. w;
}

abbrev empty_world : World
empty_world = record { recorded_samples = []; increments = []; releases = 0 }

abbrev made : Metrics pipeline
made = record {
  deployment_name = "fireworks";
  chart_inspector_duration = some "composition_chart_inspector_duration_seconds";
  chart_inspector_total = some "composition_chart_inspector_total";
  chart_inspector_errors = some "composition_chart_inspector_errors";
  rbac_generation_duration = some "composition_rbac_generation_duration_seconds";
  rbac_generation_total = some "composition_rbac_generation_total";
  rbac_generation_errors = some "composition_rbac_generation_errors";
  rbac_apply_duration = some "composition_rbac_apply_duration_seconds";
  rbac_apply_total = some "composition_rbac_apply_total";
  rbac_apply_errors = some "composition_rbac_apply_errors";
  helm_install_duration = some "composition_helm_install_duration_seconds";
  helm_install_total = some "composition_helm_install_total";
  helm_install_errors = some "composition_helm_install_errors";
  helm_upgrade_duration = some "composition_helm_upgrade_duration_seconds";
  helm_upgrade_total = some "composition_helm_upgrade_total";
  helm_upgrade_errors = some "composition_helm_upgrade_errors";
  helm_uninstall_duration = some "composition_helm_uninstall_duration_seconds";
  helm_uninstall_total = some "composition_helm_uninstall_total";
  helm_uninstall_errors = some "composition_helm_uninstall_errors";
}

made-eq : new_metrics pipeline "meter" "fireworks" empty_world ≡ (ok made, empty_world)
unfolding new_metrics
made-eq = refl

new_metrics-IsNamed_example : IsNamed pipeline counting made
new_metrics-IsNamed_example =
    new_metrics-IsNamed pipeline counting "meter" "fireworks" empty_world empty_world made made-eq

abbrev config : Config
config = record {
  enabled = true;
  service_name = "";
  export_interval = pos 0;
  deployment_name = "fireworks";
}

abbrev pub unset : State pipeline sdk
unset = record { instance_metrics = none; world = empty_world }

abbrev ready : State pipeline sdk
ready = record { instance_metrics = some made; world = empty_world }

-- A start leaves the instance that the instruments were made for.
init_metrics-test : init_metrics pipeline sdk config unset ≡ (ok tt, ready)
unfolding init_metrics setup setup_enabled use_provider new_metrics attributes
init_metrics-test = refl

init_metrics-instance_example :
    (config.enabled ≡ false → init_metrics pipeline sdk config unset ≡ (ok tt, unset))
    × (config.enabled ≡ true
        → StartsFrom pipeline counting sdk none (init_metrics pipeline sdk config unset))
init_metrics-instance_example = init_metrics-instance pipeline counting sdk config unset

-- An install that leaves one more release behind, and fails.
abbrev broken_install : Act (State pipeline sdk) (Unit {0})
broken_install s = (err (failed "timed out"), record s { world = record s.world { releases = 1 } })

releases-IsUnseen : IsUnseen pipeline (λ w. w.releases)
releases-IsUnseen = record { of_record = λ h d attrs w. refl; of_add = λ c n attrs w. refl }

-- An install that fails and returns the number of releases beside the error.
abbrev broken_with_result : Both pipeline sdk ℕ
broken_with_result s =
    ((1, some (failed "timed out")), record s { world = record s.world { releases = 1 } })

abbrev unreachable : {P A : Type 0} → P → Act (State pipeline sdk) A
unreachable p s = (err (failed "unreachable"), s)

abbrev asked_resources : ChartInspector.Parameters
asked_resources = record {
  composition_name = "site";
  composition_namespace = "site";
  composition_group = "site";
  composition_version = "site";
  composition_resource = "site";
  composition_definition_name = "site";
  composition_definition_namespace = "site";
  composition_definition_group = "site";
  composition_definition_version = "site";
  composition_definition_resource = "site";
}

abbrev asked_policy : RbacGen.Parameters
asked_policy = record {
  composition_name = "site";
  composition_namespace = "apps";
  composition_gvr = record { group = ""; version = ""; resource = "" };
  composition_definition_name = "sites";
  composition_definition_namespace = "krateo";
  composition_definition_gvr = record { group = ""; version = ""; resource = "" };
}

timed-unseen_example :
    Transparent.Same pipeline
      (λ w. w.releases)
      releases-IsUnseen
      sdk
      (timed_install pipeline sdk broken_install ready)
      (broken_install ready)
    × Transparent.Same pipeline
        (λ w. w.releases)
        releases-IsUnseen
        sdk
        (timed_upgrade pipeline sdk broken_install ready)
        (broken_install ready)
    × Transparent.Same pipeline
        (λ w. w.releases)
        releases-IsUnseen
        sdk
        (timed_uninstall pipeline sdk broken_install ready)
        (broken_install ready)
    × Transparent.Same pipeline
        (λ w. w.releases)
        releases-IsUnseen
        sdk
        (timed_rbac pipeline sdk broken_install ready)
        (broken_install ready)
    × Transparent.Same pipeline
        (λ w. w.releases)
        releases-IsUnseen
        sdk
        (timed_install_with_result pipeline sdk broken_with_result ready)
        (broken_with_result ready)
    × Transparent.Same pipeline
        (λ w. w.releases)
        releases-IsUnseen
        sdk
        (timed_upgrade_with_result pipeline sdk broken_with_result ready)
        (broken_with_result ready)
    × Transparent.Same pipeline
        (λ w. w.releases)
        releases-IsUnseen
        sdk
        (metric_resources pipeline sdk unreachable asked_resources ready)
        (unreachable {A = List ChartInspector.Resource} asked_resources ready)
    × Transparent.Same pipeline
        (λ w. w.releases)
        releases-IsUnseen
        sdk
        (metric_generate pipeline sdk unreachable asked_policy ready)
        (unreachable {A = Rbac} asked_policy ready)
timed-unseen_example =
    timed-unseen pipeline (λ w. w.releases) releases-IsUnseen sdk broken_install broken_with_result
      unreachable asked_resources unreachable asked_policy ready

abbrev after_install : State pipeline sdk
after_install = (timed_install_with_result pipeline sdk broken_with_result ready).1
