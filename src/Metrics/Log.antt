-- ===== src/Metrics/Log.antt =====
-- The counters and the samples against a log of the calls that returned.
use composition_dynamic_cont.Common.{
  ℕ, ◌+◌, String, Bool, true, false, some, List, [], ◌∷◌, ◌≡◌, string_eq, if◌then◌else◌,
}
use composition_dynamic_cont.Common.Effect.{Outcome, ok, err, panic, Act}
use composition_dynamic_cont.ChartInspector
use composition_dynamic_cont.RbacGen
use composition_dynamic_cont.Rbac.{Rbac}
use composition_dynamic_cont.Metrics.{Telemetry, Metrics, record_duration, increment}
use composition_dynamic_cont.Metrics.Setup.{Sdk, State}
use composition_dynamic_cont.Metrics.Timed.{
  Both, timed_install, timed_upgrade, timed_uninstall, timed_rbac, timed_install_with_result,
  timed_upgrade_with_result, metric_resources, metric_generate,
}
use composition_dynamic_cont.Metrics.Family.{
  Family, chart_inspector, rbac_generation, rbac_apply, helm_install, helm_upgrade, helm_uninstall,
  duration_name, total_name, errors_name, duration_of, total_of,
}
use composition_dynamic_cont.Metrics.Names.{same}
use composition_dynamic_cont.Metrics.Counting.{Counting, IsNamed}
use composition_dynamic_cont.Metrics.Recorded.{fails}

-- A call that returned: its kind, and whether it returned an error.
pub record Event : Type 0 where
  pub family : Family
  pub failed : Bool

abbrev pub calls : Family → List Event → ℕ
calls g [] = 0
calls g (e ∷ log) = if same e.family g then calls g log + 1 else calls g log

abbrev pub failures : Family → List Event → ℕ
failures g [] = 0
failures g (e ∷ log) =
    if e.failed
    then (if same e.family g then failures g log + 1 else failures g log)
    else failures g log

-- What a call adds to the log. A panic adds nothing.
abbrev pub logged : {A : Type 0} → Family → Outcome A → List Event → List Event
logged f (ok a) log = record { family = f; failed = false } ∷ log
logged f (err e) log = record { family = f; failed = true } ∷ log
logged f panic log = log

module _ {W : Type 0} (t : Telemetry W) (C : Counting t) where
  -- The pipeline stands at what the log says, for each kind of operation.
  pub record ReflectsAt (log : List Event) (w : W) (g : Family) : Type 0 where
    pub samples : C.samples (duration_name g) w ≡ calls g log
    pub total : C.count (total_name g) w ≡ calls g log
    pub errors : C.count (errors_name g) w ≡ failures g log

  abbrev pub Reflects : List Event → W → Type 0
  Reflects log w = (g : Family) → ReflectsAt log w g

  module _ (m : Metrics t) (N : IsNamed t C m) (f g : Family) (d : t.Seconds) where
    abbrev timed_world : W → W
    timed_world w = record_duration t (duration_of t f) (some m) d w

    abbrev called_world : W → W
    called_world w = increment t (total_of t f) (some m) (timed_world w)

  module _ (sdk : Sdk W t.Meter) where
    -- A call that does not measure anything itself, and leaves the instance as it is.
    pub record IsPlain {R : Type 0} (fn : State t sdk → R × State t sdk) : Type 0 where
      pub samples :
          (k : String) (s : State t sdk) → C.samples k (fn s).1.world ≡ C.samples k s.world
      pub count : (k : String) (s : State t sdk) → C.count k (fn s).1.world ≡ C.count k s.world
      pub instance_kept : (s : State t sdk) → (fn s).1.instance_metrics ≡ s.instance_metrics

    -- What happens to the state: a call in one of the wrappers of the controller, which is logged, or
    -- a call in none.
    pub data Run (m : Metrics t) : List Event → State t sdk → Type 1 where
      start : (s : State t sdk) → s.instance_metrics ≡ some m → Reflects [] s.world → Run m [] s
      uninstall :
          (fn : Act (State t sdk) (Unit {0})) {log : List Event} {s : State t sdk}
          → IsPlain fn
          → Run m log s
          → Run m (logged helm_uninstall (fn s).0 log) (timed_uninstall t sdk fn s).1
      install :
          (fn : Act (State t sdk) (Unit {0})) {log : List Event} {s : State t sdk}
          → IsPlain fn
          → Run m log s
          → Run m (logged helm_install (fn s).0 log) (timed_install t sdk fn s).1
      upgrade :
          (fn : Act (State t sdk) (Unit {0})) {log : List Event} {s : State t sdk}
          → IsPlain fn
          → Run m log s
          → Run m (logged helm_upgrade (fn s).0 log) (timed_upgrade t sdk fn s).1
      apply :
          (fn : Act (State t sdk) (Unit {0})) {log : List Event} {s : State t sdk}
          → IsPlain fn
          → Run m log s
          → Run m (logged rbac_apply (fn s).0 log) (timed_rbac t sdk fn s).1
      inspect :
          (wrapped : ChartInspector.Parameters → Act (State t sdk) (List ChartInspector.Resource))
          (q : ChartInspector.Parameters) {log : List Event} {s : State t sdk}
          → IsPlain (wrapped q)
          → Run m log s
          → Run m
              (logged chart_inspector (wrapped q s).0 log)
              (metric_resources t sdk wrapped q s).1
      generate :
          (wrapped : RbacGen.Parameters → Act (State t sdk) (Rbac)) (q : RbacGen.Parameters)
          {log : List Event} {s : State t sdk}
          → IsPlain (wrapped q)
          → Run m log s
          → Run m (logged rbac_generation (wrapped q s).0 log) (metric_generate t sdk wrapped q s).1
      install_with_result :
          {A : Type 0} (fn : Both t sdk A) {log : List Event} {s : State t sdk}
          → IsPlain fn
          → Run m log s
          → Run m
              (record { family = helm_install; failed = fails (fn s).0.1 } ∷ log)
              (timed_install_with_result t sdk fn s).1
      upgrade_with_result :
          {A : Type 0} (fn : Both t sdk A) {log : List Event} {s : State t sdk}
          → IsPlain fn
          → Run m log s
          → Run m
              (record { family = helm_upgrade; failed = fails (fn s).0.1 } ∷ log)
              (timed_upgrade_with_result t sdk fn s).1
      untimed :
          {R : Type 0} (fn : State t sdk → R × State t sdk) {log : List Event} {s : State t sdk}
          → IsPlain fn
          → Run m log s
          → Run m log (fn s).1

    abbrev Logs : Metrics t → List Event → State t sdk → Type 0
    Logs m log s = (s.instance_metrics ≡ some m) × Reflects log s.world
