-- ===== src/Metrics/Transparent.antt =====
-- What the wrappers of internal/metrics leave alone.
use composition_dynamic_cont.Common.{
  ℕ, String, List, Option, none, some, ◌≡◌, refl, ap, ◌∙◌, Option-cases, inl, inr,
}
use composition_dynamic_cont.Common.Dict.{Dict}
use composition_dynamic_cont.Common.Effect.{Error, Outcome, ok, err, panic, Act}
use composition_dynamic_cont.ChartInspector
use composition_dynamic_cont.RbacGen
use composition_dynamic_cont.Rbac.{Rbac}
use composition_dynamic_cont.Metrics.{
  Telemetry, Metrics, record_duration, increment, instance_attrs,
}
use composition_dynamic_cont.Metrics.Setup.{Sdk, State}
use composition_dynamic_cont.Metrics.Timed.{
  stop, timed, Both, stop_both, timed_both, timed_install, timed_upgrade, timed_uninstall,
  timed_rbac, timed_install_with_result, timed_upgrade_with_result, metric_resources,
  metric_generate, record_error,
}
use composition_dynamic_cont.Metrics.Family.{
  Family, chart_inspector, rbac_generation, rbac_apply, helm_install, helm_upgrade, helm_uninstall,
  duration_of, total_of, errors_of, recorder, recorder-eq-record_fields, recorder-none,
}

module _ {W : Type 0} (t : Telemetry W) {B : Type 0} (seen : W → B) where
  -- Recording a measurement changes nothing that is seen.
  pub record IsUnseen : Type 0 where
    pub of_record :
        (h : t.Histogram) (d : t.Seconds) (attrs : Dict String) (w : W)
        → seen (t.record_value h d attrs w) ≡ seen w
    pub of_add :
        (c : t.Counter) (n : ℕ) (attrs : Dict String) (w : W) → seen (t.add c n attrs w) ≡ seen w

  module _ (U : IsUnseen) where
    record_duration-unseen :
        (field : Metrics t → Option t.Histogram) (m : Metrics t) (d : t.Seconds) (w : W)
        → seen (record_duration t field (some m) d w) ≡ seen w
    unfolding record_duration
    record_duration-unseen field m d w = elim (Option-cases (field m)) [
      | inl absent ↦ rw (absent, record_duration)
      | inr (h, present) ↦ rw (present, record_duration) (U.of_record h d (instance_attrs t m) w)
    ]

    increment-unseen :
        (field : Metrics t → Option t.Counter) (m : Metrics t) (w : W)
        → seen (increment t field (some m) w) ≡ seen w
    unfolding increment
    increment-unseen field m w = elim (Option-cases (field m)) [
      | inl absent ↦ rw (absent, increment)
      | inr (c, present) ↦ rw (present, increment) (U.of_add c 1 (instance_attrs t m) w)
    ]

    record_error-unseen :
        (f : Family) (m : Metrics t) (error : Option Error) (w : W)
        → seen (record_error t (increment t (errors_of t f)) (some m) error w) ≡ seen w
    record_error-unseen f m none w = refl
    record_error-unseen f m (some e) w = increment-unseen (errors_of t f) m w

    recorder-unseen :
        (f : Family) (m : Option (Metrics t)) (d : t.Seconds) (error : Option Error) (w : W)
        → seen (recorder t f m d error w) ≡ seen w
    recorder-unseen f none d error w = ap seen (recorder-none t f d error w)
    recorder-unseen f (some m) d error w =
        ap seen (recorder-eq-record_fields t f m d error w)
        ∙ record_error-unseen f m error _
        ∙ increment-unseen (total_of t f) m _
        ∙ record_duration-unseen (duration_of t f) m d w

    -- The same result, the same world as far as it is seen, and the same instance.
    abbrev pub Same :
        (sdk : Sdk W t.Meter) {R : Type 0} → R × State t sdk → R × State t sdk → Type 0
    Same sdk r r' =
        (r.0 ≡ r'.0)
        × (seen r.1.world ≡ seen r'.1.world)
        × (r.1.instance_metrics ≡ r'.1.instance_metrics)

    module _ (sdk : Sdk W t.Meter) {A : Type 0} where
      stop-unseen :
          (f : Family) (start : t.Time) (r : Outcome A × State t sdk)
          → Same sdk (stop t sdk (recorder t f) start r) r
      stop-unseen f start (ok a, s) =
          (refl, recorder-unseen f s.instance_metrics (t.since start s.world) none s.world, refl)
      stop-unseen f start (err e, s) = (
        refl,
        recorder-unseen f s.instance_metrics (t.since start s.world) (some e) s.world,
        refl,
      )
      stop-unseen f start (panic, s) = (refl, refl, refl)

      timed-Same :
          (f : Family) (fn : Act (State t sdk) A) (s : State t sdk)
          → Same sdk (timed t sdk (recorder t f) fn s) (fn s)
      timed-Same f fn s = stop-unseen f (t.now s.world) (fn s)

      stop_both-unseen :
          (f : Family) (start : t.Time) (r : (A × Option Error) × State t sdk)
          → Same sdk (stop_both t sdk (recorder t f) start r) r
      stop_both-unseen f start ((a, error), s) =
          (refl, recorder-unseen f s.instance_metrics (t.since start s.world) error s.world, refl)

      both-Same :
          (f : Family) (fn : Both t sdk A) (s : State t sdk)
          → Same sdk (timed_both t sdk (recorder t f) fn s) (fn s)
      both-Same f fn s = stop_both-unseen f (t.now s.world) (fn s)

    module _ (sdk : Sdk W t.Meter) where
      -- Each of the eight wrappers returns what the wrapped call returns, its error, the value beside
      -- the error or a panic included, and leaves the same world behind, as far as the measurements
      -- are not looked at, and the same instance. This holds with or without an instance, and with or
      -- without each instrument.
      pub timed-unseen :
          (fn : Act (State t sdk) (Unit {0})) {A : Type 0} (both : Both t sdk A)
          (inspect : ChartInspector.Parameters → Act (State t sdk) (List ChartInspector.Resource))
          (p : ChartInspector.Parameters) (generate : RbacGen.Parameters → Act (State t sdk) Rbac)
          (q : RbacGen.Parameters) (s : State t sdk)
          → Same sdk (timed_install t sdk fn s) (fn s)
            × Same sdk (timed_upgrade t sdk fn s) (fn s)
            × Same sdk (timed_uninstall t sdk fn s) (fn s)
            × Same sdk (timed_rbac t sdk fn s) (fn s)
            × Same sdk (timed_install_with_result t sdk both s) (both s)
            × Same sdk (timed_upgrade_with_result t sdk both s) (both s)
            × Same sdk (metric_resources t sdk inspect p s) (inspect p s)
            × Same sdk (metric_generate t sdk generate q s) (generate q s)
      unfolding timed_install timed_upgrade timed_uninstall timed_rbac timed_install_with_result
          timed_upgrade_with_result metric_resources metric_generate
      timed-unseen fn both inspect p generate q s = (
        timed-Same sdk helm_install fn s,
        timed-Same sdk helm_upgrade fn s,
        timed-Same sdk helm_uninstall fn s,
        timed-Same sdk rbac_apply fn s,
        both-Same sdk helm_install both s,
        both-Same sdk helm_upgrade both s,
        timed-Same sdk chart_inspector (inspect p) s,
        timed-Same sdk rbac_generation (generate q) s,
      )
