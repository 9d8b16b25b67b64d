-- ===== src/Metrics.antt =====
-- internal/metrics/metrics.go: the counters and histograms of the controller.
pub mod Instruments
pub mod Setup
pub mod Timed
pub mod Family
pub mod Counting
pub mod Transparent
pub mod Tests
pub mod Recorded
pub mod Start
pub mod Log
pub mod Names
use composition_dynamic_cont.Common.{
  ℕ, String, Bool, Option, none, some, List, [], ◌∷◌, ◌==◌, string_eq, if◌then◌else◌,
}
use composition_dynamic_cont.Common.Dict.{Dict}
use composition_dynamic_cont.Common.Effect.{Act}

-- The OpenTelemetry API and the clock. An instrument is made from its name, its description and its
-- unit; it is an interface value, so that `none` is nil. Recording never fails.
pub record Telemetry (W : Type 0) : Type 1 where
  pub Meter : Type 0
  pub Histogram : Type 0
  pub Counter : Type 0
  pub Time : Type 0
  pub Seconds : Type 0
  pub float64_histogram : Meter → String → String → String → Act W (Option Histogram)
  pub int64_counter : Meter → String → String → Act W (Option Counter)
  pub record_value : Histogram → Seconds → Dict String → W → W
  pub add : Counter → ℕ → Dict String → W → W
  pub now : W → Time
  pub since : Time → W → Seconds

module _ {W : Type 0} (t : Telemetry W) where
  pub record Metrics : Type 0 where
    pub deployment_name : String
    pub chart_inspector_duration : Option t.Histogram
    pub chart_inspector_total : Option t.Counter
    pub chart_inspector_errors : Option t.Counter
    pub rbac_generation_duration : Option t.Histogram
    pub rbac_generation_total : Option t.Counter
    pub rbac_generation_errors : Option t.Counter
    pub rbac_apply_duration : Option t.Histogram
    pub rbac_apply_total : Option t.Counter
    pub rbac_apply_errors : Option t.Counter
    pub helm_install_duration : Option t.Histogram
    pub helm_install_total : Option t.Counter
    pub helm_install_errors : Option t.Counter
    pub helm_upgrade_duration : Option t.Histogram
    pub helm_upgrade_total : Option t.Counter
    pub helm_upgrade_errors : Option t.Counter
    pub helm_uninstall_duration : Option t.Histogram
    pub helm_uninstall_total : Option t.Counter
    pub helm_uninstall_errors : Option t.Counter

  -- `instanceAttrs`: none without a deployment name.
  unfoldable pub instance_attrs : Metrics → Dict String
  instance_attrs m =
      if m.deployment_name == "" then [] else ("service.instance.id", m.deployment_name) ∷ []

  -- The body that the six `Record…Duration` methods share. A nil receiver or instrument is skipped.
  unfoldable pub record_duration :
      (Metrics → Option t.Histogram) → Option Metrics → t.Seconds → W → W
  record_duration field none duration w = w
  record_duration field (some m) duration w = elim (field m) [
    | none ↦ w
    | some h ↦ t.record_value h duration (instance_attrs m) w
  ]

  -- The body that the twelve `Inc…` methods share.
  unfoldable pub increment : (Metrics → Option t.Counter) → Option Metrics → W → W
  increment field none w = w
  increment field (some m) w = elim (field m) [ none ↦ w | some c ↦ t.add c 1 (instance_attrs m) w ]

  unfoldable pub record_chart_inspector_duration : Option Metrics → t.Seconds → W → W
  record_chart_inspector_duration = record_duration (λ m. m.chart_inspector_duration)

  unfoldable pub inc_chart_inspector_total : Option Metrics → W → W
  inc_chart_inspector_total = increment (λ m. m.chart_inspector_total)

  unfoldable pub inc_chart_inspector_errors : Option Metrics → W → W
  inc_chart_inspector_errors = increment (λ m. m.chart_inspector_errors)

  unfoldable pub record_rbac_generation_duration : Option Metrics → t.Seconds → W → W
  record_rbac_generation_duration = record_duration (λ m. m.rbac_generation_duration)

  unfoldable pub inc_rbac_generation_total : Option Metrics → W → W
  inc_rbac_generation_total = increment (λ m. m.rbac_generation_total)

  unfoldable pub inc_rbac_generation_errors : Option Metrics → W → W
  inc_rbac_generation_errors = increment (λ m. m.rbac_generation_errors)

  unfoldable pub record_rbac_apply_duration : Option Metrics → t.Seconds → W → W
  record_rbac_apply_duration = record_duration (λ m. m.rbac_apply_duration)

  unfoldable pub inc_rbac_apply_total : Option Metrics → W → W
  inc_rbac_apply_total = increment (λ m. m.rbac_apply_total)

  unfoldable pub inc_rbac_apply_errors : Option Metrics → W → W
  inc_rbac_apply_errors = increment (λ m. m.rbac_apply_errors)

  unfoldable pub record_helm_install_duration : Option Metrics → t.Seconds → W → W
  record_helm_install_duration = record_duration (λ m. m.helm_install_duration)

  unfoldable pub inc_helm_install_total : Option Metrics → W → W
  inc_helm_install_total = increment (λ m. m.helm_install_total)

  unfoldable pub inc_helm_install_errors : Option Metrics → W → W
  inc_helm_install_errors = increment (λ m. m.helm_install_errors)

  unfoldable pub record_helm_upgrade_duration : Option Metrics → t.Seconds → W → W
  record_helm_upgrade_duration = record_duration (λ m. m.helm_upgrade_duration)

  unfoldable pub inc_helm_upgrade_total : Option Metrics → W → W
  inc_helm_upgrade_total = increment (λ m. m.helm_upgrade_total)

  unfoldable pub inc_helm_upgrade_errors : Option Metrics → W → W
  inc_helm_upgrade_errors = increment (λ m. m.helm_upgrade_errors)

  unfoldable pub record_helm_uninstall_duration : Option Metrics → t.Seconds → W → W
  record_helm_uninstall_duration = record_duration (λ m. m.helm_uninstall_duration)

  unfoldable pub inc_helm_uninstall_total : Option Metrics → W → W
  inc_helm_uninstall_total = increment (λ m. m.helm_uninstall_total)

  unfoldable pub inc_helm_uninstall_errors : Option Metrics → W → W
  inc_helm_uninstall_errors = increment (λ m. m.helm_uninstall_errors)
