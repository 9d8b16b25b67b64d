-- ===== src/Metrics/Family.antt =====
-- The six kinds of operation that internal/metrics measures, each with its three instruments.
use composition_dynamic_cont.Common.{String, Option, none, some, ◌≡◌, refl}
use composition_dynamic_cont.Common.Effect.{Error}
use composition_dynamic_cont.Metrics.{
  Telemetry, Metrics, record_duration, increment, record_chart_inspector_duration,
  inc_chart_inspector_total, inc_chart_inspector_errors, record_rbac_generation_duration,
  inc_rbac_generation_total, inc_rbac_generation_errors, record_rbac_apply_duration,
  inc_rbac_apply_total, inc_rbac_apply_errors, record_helm_install_duration, inc_helm_install_total,
  inc_helm_install_errors, record_helm_upgrade_duration, inc_helm_upgrade_total,
  inc_helm_upgrade_errors, record_helm_uninstall_duration, inc_helm_uninstall_total,
  inc_helm_uninstall_errors,
}
use composition_dynamic_cont.Metrics.Timed.{
  Recorder, record_error, record_resources, record_generate, record_rbac, record_install,
  record_upgrade, record_uninstall,
}

pub data Family : Type 0 where
  chart_inspector rbac_generation rbac_apply helm_install helm_upgrade helm_uninstall : Family

abbrev pub duration_name : Family → String
duration_name chart_inspector = "composition_chart_inspector_duration_seconds"
duration_name rbac_generation = "composition_rbac_generation_duration_seconds"
duration_name rbac_apply = "composition_rbac_apply_duration_seconds"
duration_name helm_install = "composition_helm_install_duration_seconds"
duration_name helm_upgrade = "composition_helm_upgrade_duration_seconds"
duration_name helm_uninstall = "composition_helm_uninstall_duration_seconds"

abbrev pub total_name : Family → String
total_name chart_inspector = "composition_chart_inspector_total"
total_name rbac_generation = "composition_rbac_generation_total"
total_name rbac_apply = "composition_rbac_apply_total"
total_name helm_install = "composition_helm_install_total"
total_name helm_upgrade = "composition_helm_upgrade_total"
total_name helm_uninstall = "composition_helm_uninstall_total"

abbrev pub errors_name : Family → String
errors_name chart_inspector = "composition_chart_inspector_errors"
errors_name rbac_generation = "composition_rbac_generation_errors"
errors_name rbac_apply = "composition_rbac_apply_errors"
errors_name helm_install = "composition_helm_install_errors"
errors_name helm_upgrade = "composition_helm_upgrade_errors"
errors_name helm_uninstall = "composition_helm_uninstall_errors"

module _ {W : Type 0} (t : Telemetry W) where
  abbrev pub duration_of : Family → Metrics t → Option t.Histogram
  duration_of chart_inspector m = m.chart_inspector_duration
  duration_of rbac_generation m = m.rbac_generation_duration
  duration_of rbac_apply m = m.rbac_apply_duration
  duration_of helm_install m = m.helm_install_duration
  duration_of helm_upgrade m = m.helm_upgrade_duration
  duration_of helm_uninstall m = m.helm_uninstall_duration

  abbrev pub total_of : Family → Metrics t → Option t.Counter
  total_of chart_inspector m = m.chart_inspector_total
  total_of rbac_generation m = m.rbac_generation_total
  total_of rbac_apply m = m.rbac_apply_total
  total_of helm_install m = m.helm_install_total
  total_of helm_upgrade m = m.helm_upgrade_total
  total_of helm_uninstall m = m.helm_uninstall_total

  abbrev pub errors_of : Family → Metrics t → Option t.Counter
  errors_of chart_inspector m = m.chart_inspector_errors
  errors_of rbac_generation m = m.rbac_generation_errors
  errors_of rbac_apply m = m.rbac_apply_errors
  errors_of helm_install m = m.helm_install_errors
  errors_of helm_upgrade m = m.helm_upgrade_errors
  errors_of helm_uninstall m = m.helm_uninstall_errors

  abbrev pub recorder : Family → Recorder t
  recorder chart_inspector = record_resources t
  recorder rbac_generation = record_generate t
  recorder rbac_apply = record_rbac t
  recorder helm_install = record_install t
  recorder helm_upgrade = record_upgrade t
  recorder helm_uninstall = record_uninstall t

  -- What a recorder does to the world, by its instruments.
  abbrev pub record_fields : Family → Metrics t → t.Seconds → Option Error → W → W
  record_fields f m duration error w =
      record_error t (increment t (errors_of f)) (some m) error
        (increment t (total_of f) (some m) (record_duration t (duration_of f) (some m) duration w))

  pub recorder-eq-record_fields :
      (f : Family) (m : Metrics t) (duration : t.Seconds) (error : Option Error) (w : W)
      → recorder f (some m) duration error w ≡ record_fields f m duration error w
  unfolding record_resources record_generate record_rbac record_install record_upgrade
      record_uninstall record_chart_inspector_duration inc_chart_inspector_total
      inc_chart_inspector_errors record_rbac_generation_duration inc_rbac_generation_total
      inc_rbac_generation_errors record_rbac_apply_duration inc_rbac_apply_total
      inc_rbac_apply_errors record_helm_install_duration inc_helm_install_total
      inc_helm_install_errors record_helm_upgrade_duration inc_helm_upgrade_total
      inc_helm_upgrade_errors record_helm_uninstall_duration inc_helm_uninstall_total
      inc_helm_uninstall_errors
  recorder-eq-record_fields chart_inspector m duration error w = refl
  recorder-eq-record_fields rbac_generation m duration error w = refl
  recorder-eq-record_fields rbac_apply m duration error w = refl
  recorder-eq-record_fields helm_install m duration error w = refl
  recorder-eq-record_fields helm_upgrade m duration error w = refl
  recorder-eq-record_fields helm_uninstall m duration error w = refl

  pub recorder-none :
      (f : Family) (duration : t.Seconds) (error : Option Error) (w : W)
      → recorder f none duration error w ≡ w
  unfolding record_resources record_generate record_rbac record_install record_upgrade
      record_uninstall
  recorder-none chart_inspector duration error w = refl
  recorder-none rbac_generation duration error w = refl
  recorder-none rbac_apply duration error w = refl
  recorder-none helm_install duration error w = refl
  recorder-none helm_upgrade duration error w = refl
  recorder-none helm_uninstall duration error w = refl
