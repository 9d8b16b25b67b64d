-- ===== src/Metrics/Instruments.antt =====
-- internal/metrics/metrics.go: the instruments, made once.
use composition_dynamic_cont.Common.{String}
use composition_dynamic_cont.Common.Effect.{Act, pure, ◌>>=◌}
use composition_dynamic_cont.Metrics.{Telemetry, Metrics}

module _ {W : Type 0} (t : Telemetry W) where
  -- `newMetrics`: the first instrument that cannot be made ends it.
  unfoldable pub new_metrics : t.Meter → String → Act W (Metrics t)
  new_metrics meter deployment_name = do
    chart_inspector_duration ←
        t.float64_histogram meter "composition_chart_inspector_duration_seconds"
          "Time spent calling chart-inspector service (seconds)" "s"
    chart_inspector_total ←
        t.int64_counter meter "composition_chart_inspector_total"
          "Total number of chart-inspector calls"
    chart_inspector_errors ←
        t.int64_counter meter "composition_chart_inspector_errors"
          "Total number of chart-inspector call failures"
    rbac_generation_duration ←
        t.float64_histogram meter "composition_rbac_generation_duration_seconds"
          "Time spent generating RBAC policies (seconds)" "s"
    rbac_generation_total ←
        t.int64_counter meter "composition_rbac_generation_total"
          "Total number of RBAC generation operations"
    rbac_generation_errors ←
        t.int64_counter meter "composition_rbac_generation_errors"
          "Total number of RBAC generation failures"
    rbac_apply_duration ←
        t.float64_histogram meter "composition_rbac_apply_duration_seconds"
          "Time spent applying RBAC policies to cluster (seconds)" "s"
    rbac_apply_total ←
        t.int64_counter meter "composition_rbac_apply_total" "Total number of RBAC apply operations"
    rbac_apply_errors ←
        t.int64_counter meter "composition_rbac_apply_errors" "Total number of RBAC apply failures"
    helm_install_duration ←
        t.float64_histogram meter "composition_helm_install_duration_seconds"
          "Time spent installing Helm charts (seconds)" "s"
    helm_install_total ←
        t.int64_counter meter "composition_helm_install_total"
          "Total number of Helm chart installations"
    helm_install_errors ←
        t.int64_counter meter "composition_helm_install_errors"
          "Total number of Helm chart installation failures"
    helm_upgrade_duration ←
        t.float64_histogram meter "composition_helm_upgrade_duration_seconds"
          "Time spent upgrading Helm charts (seconds)" "s"
    helm_upgrade_total ←
        t.int64_counter meter "composition_helm_upgrade_total" "Total number of Helm chart upgrades"
    helm_upgrade_errors ←
        t.int64_counter meter "composition_helm_upgrade_errors"
          "Total number of Helm chart upgrade failures"
    helm_uninstall_duration ←
        t.float64_histogram meter "composition_helm_uninstall_duration_seconds"
          "Time spent uninstalling Helm charts (seconds)" "s"
    helm_uninstall_total ←
        t.int64_counter meter "composition_helm_uninstall_total"
          "Total number of Helm chart uninstallations"
    helm_uninstall_errors ←
        t.int64_counter meter "composition_helm_uninstall_errors"
          "Total number of Helm chart uninstallation failures"
    pure (record {
      deployment_name = deployment_name;
      chart_inspector_duration = chart_inspector_duration;
      chart_inspector_total = chart_inspector_total;
      chart_inspector_errors = chart_inspector_errors;
      rbac_generation_duration = rbac_generation_duration;
      rbac_generation_total = rbac_generation_total;
      rbac_generation_errors = rbac_generation_errors;
      rbac_apply_duration = rbac_apply_duration;
      rbac_apply_total = rbac_apply_total;
      rbac_apply_errors = rbac_apply_errors;
      helm_install_duration = helm_install_duration;
      helm_install_total = helm_install_total;
      helm_install_errors = helm_install_errors;
      helm_upgrade_duration = helm_upgrade_duration;
      helm_upgrade_total = helm_upgrade_total;
      helm_upgrade_errors = helm_upgrade_errors;
      helm_uninstall_duration = helm_uninstall_duration;
      helm_uninstall_total = helm_uninstall_total;
      helm_uninstall_errors = helm_uninstall_errors;
    })
