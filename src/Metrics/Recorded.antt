-- ===== src/Metrics/Recorded.antt =====
-- What recording one operation does to the samples and the counters.
use composition_dynamic_cont.Common.{
  ◌+◌, String, Bool, true, false, Option, none, some, ◌≡◌, refl, ap, ◌∙◌, ◌==◌, string_eq,
  if◌then◌else◌,
}
use composition_dynamic_cont.Common.Effect.{Error}
use composition_dynamic_cont.Metrics.{
  Telemetry, Metrics, record_duration, increment, instance_attrs,
}
use composition_dynamic_cont.Metrics.Timed.{record_error}
use composition_dynamic_cont.Metrics.Counting.{Counting, IsHistogram, IsCounter}

abbrev pub fails : Option Error → Bool
fails none = false
fails (some e) = true

module _ {W : Type 0} (t : Telemetry W) (C : Counting t) (m : Metrics t) where
  pub samples-record_duration :
      (k name : String) (field : Metrics t → Option t.Histogram) (d : t.Seconds) (w : W)
      → IsHistogram t C name (field m)
      → C.samples k (record_duration t field (some m) d w)
        ≡ (if name == k then C.samples k w + 1 else C.samples k w)
  unfolding record_duration
  samples-record_duration k name field d w (h, present, is_name) =
      rw (present, record_duration)
        (C.samples-record k h d (instance_attrs t m) w
          ∙ ap (λ n. if n == k then C.samples k w + 1 else C.samples k w) is_name)

  pub count-record_duration :
      (k name : String) (field : Metrics t → Option t.Histogram) (d : t.Seconds) (w : W)
      → IsHistogram t C name (field m)
      → C.count k (record_duration t field (some m) d w) ≡ C.count k w
  unfolding record_duration
  count-record_duration k name field d w (h, present, is_name) =
      rw (present, record_duration) (C.count-record k h d (instance_attrs t m) w)

  pub samples-increment :
      (k name : String) (field : Metrics t → Option t.Counter) (w : W)
      → IsCounter t C name (field m)
      → C.samples k (increment t field (some m) w) ≡ C.samples k w
  unfolding increment
  samples-increment k name field w (c, present, is_name) =
      rw (present, increment) (C.samples-add k c 1 (instance_attrs t m) w)

  pub count-increment :
      (k name : String) (field : Metrics t → Option t.Counter) (w : W)
      → IsCounter t C name (field m)
      → C.count k (increment t field (some m) w)
        ≡ (if name == k then C.count k w + 1 else C.count k w)
  unfolding increment
  count-increment k name field w (c, present, is_name) =
      rw (present, increment)
        (C.count-add k c 1 (instance_attrs t m) w
          ∙ ap (λ n. if n == k then C.count k w + 1 else C.count k w) is_name)

  pub samples-record_error :
      (k name : String) (field : Metrics t → Option t.Counter) (error : Option Error) (w : W)
      → IsCounter t C name (field m)
      → C.samples k (record_error t (increment t field) (some m) error w) ≡ C.samples k w
  samples-record_error k name field none w n = refl
  samples-record_error k name field (some e) w n = samples-increment k name field w n

  -- An error counts once, a success not at all.
  pub count-record_error :
      (k name : String) (field : Metrics t → Option t.Counter) (error : Option Error) (w : W)
      → IsCounter t C name (field m)
      → C.count k (record_error t (increment t field) (some m) error w) ≡ (
          if fails error then (if name == k then C.count k w + 1 else C.count k w) else C.count k w)
  count-record_error k name field none w n = refl
  count-record_error k name field (some e) w n = count-increment k name field w n

  -- A counter of another name stands where it stood.
  pub count-increment_other :
      (k name : String) (field : Metrics t → Option t.Counter) (w : W)
      → IsCounter t C name (field m)
      → (name == k) ≡ false
      → C.count k (increment t field (some m) w) ≡ C.count k w
  count-increment_other k name field w n other =
      count-increment k name field w n ∙ ap (λ b. if b then C.count k w + 1 else C.count k w) other

  pub count-record_error_other :
      (k name : String) (field : Metrics t → Option t.Counter) (error : Option Error) (w : W)
      → IsCounter t C name (field m)
      → (name == k) ≡ false
      → C.count k (record_error t (increment t field) (some m) error w) ≡ C.count k w
  count-record_error_other k name field none w n other = refl
  count-record_error_other k name field (some e) w n other =
      count-increment_other k name field w n other
