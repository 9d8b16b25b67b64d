-- ===== src/Metrics/Counting.antt =====
-- The instruments that `newMetrics` makes, and what an OpenTelemetry pipeline counts.
use composition_dynamic_cont.Common.{
  ℕ, ◌+◌, String, Option, some, ◌≡◌, ◌==◌, string_eq, if◌then◌else◌,
}
use composition_dynamic_cont.Common.Dict.{Dict}
use composition_dynamic_cont.Common.Effect.{ok}
use composition_dynamic_cont.Common.Ensures.{Ensures, Ensures-bind, Ensures-pure}
use composition_dynamic_cont.Metrics.{Telemetry, Metrics}
use composition_dynamic_cont.Metrics.Instruments.{new_metrics}
use composition_dynamic_cont.Metrics.Family.{
  Family, chart_inspector, rbac_generation, rbac_apply, helm_install, helm_upgrade, helm_uninstall,
  duration_name, total_name, errors_name, duration_of, total_of, errors_of,
}

-- A pipeline that is looked at: how many samples a histogram of this name has, and what a counter of
-- this name stands at. An instrument keeps the name that it was made with, and is not nil.
pub record Counting {W : Type 0} (t : Telemetry W) : Type 0 where
  pub histogram_name : t.Histogram → String
  pub counter_name : t.Counter → String
  pub samples : String → W → ℕ
  pub count : String → W → ℕ
  pub made_histogram :
      (meter : t.Meter) (name description unit : String) (w w' : W) (h : Option t.Histogram)
      → t.float64_histogram meter name description unit w ≡ (ok h, w')
      → (x : t.Histogram) × (h ≡ some x) × (histogram_name x ≡ name)
  pub made_counter :
      (meter : t.Meter) (name description : String) (w w' : W) (c : Option t.Counter)
      → t.int64_counter meter name description w ≡ (ok c, w')
      → (x : t.Counter) × (c ≡ some x) × (counter_name x ≡ name)
  pub samples-record :
      (k : String) (h : t.Histogram) (d : t.Seconds) (attrs : Dict String) (w : W)
      → samples k (t.record_value h d attrs w)
        ≡ (if histogram_name h == k then samples k w + 1 else samples k w)
  pub count-record :
      (k : String) (h : t.Histogram) (d : t.Seconds) (attrs : Dict String) (w : W)
      → count k (t.record_value h d attrs w) ≡ count k w
  pub samples-add :
      (k : String) (c : t.Counter) (n : ℕ) (attrs : Dict String) (w : W)
      → samples k (t.add c n attrs w) ≡ samples k w
  pub count-add :
      (k : String) (c : t.Counter) (n : ℕ) (attrs : Dict String) (w : W)
      → count k (t.add c n attrs w) ≡ (if counter_name c == k then count k w + n else count k w)

module _ {W : Type 0} (t : Telemetry W) (C : Counting t) where
  abbrev pub IsHistogram : String → Option t.Histogram → Type 0
  IsHistogram name h = (x : t.Histogram) × (h ≡ some x) × (C.histogram_name x ≡ name)

  abbrev pub IsCounter : String → Option t.Counter → Type 0
  IsCounter name c = (x : t.Counter) × (c ≡ some x) × (C.counter_name x ≡ name)

  abbrev pub IsNamedAt : Metrics t → Family → Type 0
  IsNamedAt m f =
      IsHistogram (duration_name f) (duration_of t f m)
      × IsCounter (total_name f) (total_of t f m)
      × IsCounter (errors_name f) (errors_of t f m)

  -- Each kind of operation has its three instruments, under its own names.
  abbrev pub IsNamed : Metrics t → Type 0
  IsNamed m = (f : Family) → IsNamedAt m f

  float64_made-Ensures :
      (meter : t.Meter) (name description unit : String)
      → Ensures (IsHistogram name) (t.float64_histogram meter name description unit)
  float64_made-Ensures meter name description unit = record {
    at = λ w w' h. C.made_histogram meter name description unit w w' h;
  }

  int64_made-Ensures :
      (meter : t.Meter) (name description : String)
      → Ensures (IsCounter name) (t.int64_counter meter name description)
  int64_made-Ensures meter name description = record {
    at = λ w w' c. C.made_counter meter name description w w' c;
  }

  families-IsNamed :
      (m : Metrics t)
      → IsNamedAt m chart_inspector
      → IsNamedAt m rbac_generation
      → IsNamedAt m rbac_apply
      → IsNamedAt m helm_install
      → IsNamedAt m helm_upgrade
      → IsNamedAt m helm_uninstall
      → IsNamed m
  families-IsNamed m p0 p1 p2 p3 p4 p5 chart_inspector = p0
  families-IsNamed m p0 p1 p2 p3 p4 p5 rbac_generation = p1
  families-IsNamed m p0 p1 p2 p3 p4 p5 rbac_apply = p2
  families-IsNamed m p0 p1 p2 p3 p4 p5 helm_install = p3
  families-IsNamed m p0 p1 p2 p3 p4 p5 helm_upgrade = p4
  families-IsNamed m p0 p1 p2 p3 p4 p5 helm_uninstall = p5

  pub new_metrics-Ensures :
      (meter : t.Meter) (deployment_name : String)
      → Ensures IsNamed (new_metrics t meter deployment_name)
  unfolding new_metrics
  new_metrics-Ensures meter deployment_name =
      Ensures-bind (float64_made-Ensures meter _ _ _) (λ _ chart_inspector_d.
        Ensures-bind (int64_made-Ensures meter _ _) (λ _ chart_inspector_t.
          Ensures-bind (int64_made-Ensures meter _ _) (λ _ chart_inspector_e.
            Ensures-bind (float64_made-Ensures meter _ _ _) (λ _ rbac_generation_d.
              Ensures-bind (int64_made-Ensures meter _ _) (λ _ rbac_generation_t.
                Ensures-bind (int64_made-Ensures meter _ _) (λ _ rbac_generation_e.
                  Ensures-bind (float64_made-Ensures meter _ _ _) (λ _ rbac_apply_d.
                    Ensures-bind (int64_made-Ensures meter _ _) (λ _ rbac_apply_t.
                      Ensures-bind (int64_made-Ensures meter _ _) (λ _ rbac_apply_e.
                        Ensures-bind (float64_made-Ensures meter _ _ _) (λ _ helm_install_d.
                          Ensures-bind (int64_made-Ensures meter _ _) (λ _ helm_install_t.
                            Ensures-bind (int64_made-Ensures meter _ _) (λ _ helm_install_e.
                              Ensures-bind (float64_made-Ensures meter _ _ _) (λ _ helm_upgrade_d.
                                Ensures-bind (int64_made-Ensures meter _ _) (λ _ helm_upgrade_t.
                                  Ensures-bind (int64_made-Ensures meter _ _) (λ _ helm_upgrade_e.
                                    Ensures-bind (float64_made-Ensures meter _ _ _)
                                      (λ _ helm_uninstall_d.
                                        Ensures-bind (int64_made-Ensures meter _ _)
                                          (λ _ helm_uninstall_t.
                                            Ensures-bind (int64_made-Ensures meter _ _)
                                              (λ _ helm_uninstall_e. Ensures-pure _ (
                                                families-IsNamed _
                                                  (
                                                    chart_inspector_d, chart_inspector_t,
                                                    chart_inspector_e,
                                                  )
                                                  (
                                                    rbac_generation_d, rbac_generation_t,
                                                    rbac_generation_e,
                                                  )
                                                  (rbac_apply_d, rbac_apply_t, rbac_apply_e)
                                                  (helm_install_d, helm_install_t, helm_install_e)
                                                  (helm_upgrade_d, helm_upgrade_t, helm_upgrade_e)
                                                  (
                                                    helm_uninstall_d, helm_uninstall_t,
                                                    helm_uninstall_e,
                                                  ))))))))))))))))))))

  -- If `newMetrics` returns without an error, none of its eighteen instruments is nil, and each kind of
  -- operation has a histogram and two counters under the names of that kind.
  pub new_metrics-IsNamed :
      (meter : t.Meter) (deployment_name : String) (w w' : W) (m : Metrics t)
      → new_metrics t meter deployment_name w ≡ (ok m, w')
      → IsNamed m
  new_metrics-IsNamed meter deployment_name w w' m h =
      (new_metrics-Ensures meter deployment_name).at w w' m h
