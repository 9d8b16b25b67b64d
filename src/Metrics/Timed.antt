-- ===== src/Metrics/Timed.antt =====
-- internal/metrics/helm.go and wrappers.go: operations that are timed and counted.
use composition_dynamic_cont.Common.{Option, none, some, List}
use composition_dynamic_cont.Common.Effect.{Error, Outcome, ok, err, panic, Act}
use composition_dynamic_cont.ChartInspector
use composition_dynamic_cont.RbacGen
use composition_dynamic_cont.Rbac.{Rbac}
use composition_dynamic_cont.Metrics.{
  Telemetry, Metrics, record_chart_inspector_duration, inc_chart_inspector_total,
  inc_chart_inspector_errors, record_rbac_generation_duration, inc_rbac_generation_total,
  inc_rbac_generation_errors, record_rbac_apply_duration, inc_rbac_apply_total,
  inc_rbac_apply_errors, record_helm_install_duration, inc_helm_install_total,
  inc_helm_install_errors, record_helm_upgrade_duration, inc_helm_upgrade_total,
  inc_helm_upgrade_errors, record_helm_uninstall_duration, inc_helm_uninstall_total,
  inc_helm_uninstall_errors,
}
use composition_dynamic_cont.Metrics.Setup.{Sdk, State, get_instance}

module _ {W : Type 0} (t : Telemetry W) where
  abbrev pub Recorder : Type 0
  Recorder = Option (Metrics t) → t.Seconds → Option Error → W → W

  -- One sample, one call, and one error if there is one.
  abbrev pub record_error : (Option (Metrics t) → W → W) → Option (Metrics t) → Option Error → W → W
  record_error inc_errors m none w = w
  record_error inc_errors m (some e) w = inc_errors m w

  unfoldable pub record_install : Recorder
  record_install none duration error w = w
  record_install (some m) duration error w =
      record_error (inc_helm_install_errors t) (some m) error
        (inc_helm_install_total t (some m) (record_helm_install_duration t (some m) duration w))

  unfoldable pub record_upgrade : Recorder
  record_upgrade none duration error w = w
  record_upgrade (some m) duration error w =
      record_error (inc_helm_upgrade_errors t) (some m) error
        (inc_helm_upgrade_total t (some m) (record_helm_upgrade_duration t (some m) duration w))

  unfoldable pub record_uninstall : Recorder
  record_uninstall none duration error w = w
  record_uninstall (some m) duration error w =
      record_error (inc_helm_uninstall_errors t) (some m) error
        (inc_helm_uninstall_total t (some m) (record_helm_uninstall_duration t (some m) duration w))

  unfoldable pub record_rbac : Recorder
  record_rbac none duration error w = w
  record_rbac (some m) duration error w =
      record_error (inc_rbac_apply_errors t) (some m) error
        (inc_rbac_apply_total t (some m) (record_rbac_apply_duration t (some m) duration w))

  -- The block that follows the wrapped call in `metricChartInspector.Resources`.
  unfoldable pub record_resources : Recorder
  record_resources none duration error w = w
  record_resources (some m) duration error w =
      record_error (inc_chart_inspector_errors t) (some m) error (
        inc_chart_inspector_total t (some m)
          (record_chart_inspector_duration t (some m) duration w))

  -- The block that follows the wrapped call in `metricRBACGen.Generate`.
  unfoldable pub record_generate : Recorder
  record_generate none duration error w = w
  record_generate (some m) duration error w =
      record_error (inc_rbac_generation_errors t) (some m) error (
        inc_rbac_generation_total t (some m)
          (record_rbac_generation_duration t (some m) duration w))

  module _ (sdk : Sdk W t.Meter) where
    -- Records what a call that started at this time returned. A panic is not recorded.
    abbrev pub recorded : Recorder → t.Time → Option Error → State t sdk → State t sdk
    recorded recorder start error s = record s {
      world = recorder (get_instance t sdk s) (t.since start s.world) error s.world;
    }

    abbrev pub stop :
        {A : Type 0} → Recorder → t.Time → Outcome A × State t sdk → Outcome A × State t sdk
    stop recorder start (ok a, s) = (ok a, recorded recorder start none s)
    stop recorder start (err e, s) = (err e, recorded recorder start (some e) s)
    stop recorder start (panic, s) = (panic, s)

    -- The body that the `Timed…` methods share.
    abbrev pub timed : {A : Type 0} → Recorder → Act (State t sdk) A → Act (State t sdk) A
    timed recorder fn s = stop recorder (t.now s.world) (fn s)

    unfoldable pub timed_install : Act (State t sdk) (Unit {0}) → Act (State t sdk) (Unit {0})
    timed_install = timed record_install

    unfoldable pub timed_upgrade : Act (State t sdk) (Unit {0}) → Act (State t sdk) (Unit {0})
    timed_upgrade = timed record_upgrade

    unfoldable pub timed_uninstall : Act (State t sdk) (Unit {0}) → Act (State t sdk) (Unit {0})
    timed_uninstall = timed record_uninstall

    unfoldable pub timed_rbac : Act (State t sdk) (Unit {0}) → Act (State t sdk) (Unit {0})
    timed_rbac = timed record_rbac

    -- A call that returns a value beside its error.
    abbrev pub Both : Type 0 → Type 0
    Both A = State t sdk → (A × Option Error) × State t sdk

    abbrev pub stop_both :
        {A : Type 0}
        → Recorder
        → t.Time
        → (A × Option Error) × State t sdk
        → (A × Option Error) × State t sdk
    stop_both recorder start ((a, error), s) = ((a, error), recorded recorder start error s)

    abbrev pub timed_both : {A : Type 0} → Recorder → Both A → Both A
    timed_both recorder fn s = stop_both recorder (t.now s.world) (fn s)

    unfoldable pub timed_install_with_result : {A : Type 0} → Both A → Both A
    timed_install_with_result = timed_both record_install

    unfoldable pub timed_upgrade_with_result : {A : Type 0} → Both A → Both A
    timed_upgrade_with_result = timed_both record_upgrade

    -- `metricChartInspector.Resources` over the wrapped inspector.
    unfoldable pub metric_resources :
        (ChartInspector.Parameters → Act (State t sdk) (List ChartInspector.Resource))
        → ChartInspector.Parameters
        → Act (State t sdk) (List ChartInspector.Resource)
    metric_resources wrapped p = timed record_resources (wrapped p)

    -- `metricRBACGen.Generate` over the wrapped generator.
    unfoldable pub metric_generate :
        (RbacGen.Parameters → Act (State t sdk) Rbac) → RbacGen.Parameters → Act (State t sdk) Rbac
    metric_generate wrapped p = timed record_generate (wrapped p)
