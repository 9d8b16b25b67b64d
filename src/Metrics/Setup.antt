-- ===== src/Metrics/Setup.antt =====
-- internal/metrics/metrics.go: the pipeline, and the global instance.
use composition_dynamic_cont.Common.{
  ℕ, zero, suc, String, Bool, true, false, Option, none, some, List, [], ◌∷◌, inl, inr, ◌==◌,
  string_eq, if◌then◌else◌,
}
use composition_dynamic_cont.Common.Dict.{Dict}
use composition_dynamic_cont.Common.Effect.{Outcome, ok, Act, pure, fail, lift, attempt, ◌>>=◌}
use composition_dynamic_cont.Metrics.{Telemetry, Metrics}
use composition_dynamic_cont.Metrics.Instruments.{new_metrics}

-- `time.Duration`: nanoseconds, which may be negative.
pub data ℤ : Type 0 where
  pos : ℕ → ℤ
  negsuc : ℕ → ℤ

abbrev pub is_positive : ℤ → Bool
is_positive (pos zero) = false
is_positive (pos (suc n)) = true
is_positive (negsuc n) = false

abbrev pub default_service_name : String
default_service_name = "composition-dynamic-controller"

-- Thirty seconds.
abbrev pub default_export_interval : ℤ
default_export_interval = pos 30_000_000_000

pub record Config : Type 0 where
  pub enabled : Bool
  pub service_name : String
  pub export_interval : ℤ
  pub deployment_name : String

-- The SDK and the OTLP exporter. A boundary of a histogram is in thousandths.
pub record Sdk (W : Type 0) (Meter : Type 0) : Type 1 where
  pub Exporter : Type 0
  pub Resource : Type 0
  pub Provider : Type 0
  pub new_exporter : Act W Exporter
  pub merge_resource : Dict String → Outcome Resource
  pub new_provider : Exporter → ℤ → Resource → List ℕ → W → Provider × W
  pub meter : Provider → String → Meter
  pub shutdown : Provider → Act W (Unit {0})
  pub set_meter_provider : Provider → W → W

abbrev pub custom_buckets : List ℕ
custom_buckets =
    1 ∷ 5 ∷ 10 ∷ 25 ∷ 50 ∷ 100 ∷ 250 ∷ 500 ∷ 1000 ∷ 2500 ∷ 5000 ∷ 10000 ∷ 25000 ∷ 50000 ∷ 100000
    ∷ 250000 ∷ 500000 ∷ 1000000 ∷ 2500000 ∷ 5000000 ∷ 10000000 ∷ []

-- The resource attributes.
unfoldable pub attributes : String → String → Dict String
attributes service_name deployment_name =
    ("service.name", service_name)
    ∷ (if deployment_name == ""
        then []
        else ("k8s.deployment.name", deployment_name)
          ∷ ("service.instance.id", deployment_name)
          ∷ [])

module _ {W : Type 0} (t : Telemetry W) (sdk : Sdk W t.Meter) where
  -- What `Setup` returns beside its metrics: a function that does nothing, or the provider's.
  pub data Shutdown : Type 0 where
    no_op : Shutdown
    provider_shutdown : sdk.Provider → Shutdown

  -- The metrics of a provider; if they cannot be made, it is shut down, whatever that returns.
  unfoldable pub use_provider : sdk.Provider → String → Act W (Option (Metrics t) × Shutdown)
  use_provider provider deployment_name = do
    made ← attempt (
        new_metrics t
          (sdk.meter provider "github.com/krateoplatformops/composition-dynamic-controller")
          deployment_name)
    elim made [
      | inr e ↦ do _ ← attempt (sdk.shutdown provider); fail e
      | inl m ↦ λ w. (ok (some m, provider_shutdown provider), sdk.set_meter_provider provider w)
    ]

  abbrev pub create_provider : sdk.Exporter → ℤ → sdk.Resource → Act W sdk.Provider
  create_provider exporter interval resource w =
      let (provider, w') = sdk.new_provider exporter interval resource custom_buckets w in
      (ok provider, w')

  unfoldable pub setup_enabled : Config → Act W (Option (Metrics t) × Shutdown)
  setup_enabled cfg = do
    let service_name = if cfg.service_name == "" then default_service_name else cfg.service_name
    let interval =
        if is_positive cfg.export_interval then cfg.export_interval else default_export_interval
    exporter ← sdk.new_exporter
    resource ← lift (sdk.merge_resource (attributes service_name cfg.deployment_name))
    provider ← create_provider exporter interval resource
    use_provider provider cfg.deployment_name

  unfoldable pub setup : Config → Act W (Option (Metrics t) × Shutdown)
  setup cfg = if cfg.enabled then setup_enabled cfg else pure (none, no_op)

  -- The program's memory, as far as it holds the global instance, and the world outside.
  pub record State : Type 0 where
    pub instance_metrics : Option (Metrics t)
    pub world : W

  abbrev pub get_instance : State → Option (Metrics t)
  get_instance s = s.instance_metrics

  abbrev pub set_instance : Option (Metrics t) → State → State
  set_instance m s = record s { instance_metrics = m }

  -- A call that does not touch the instance.
  abbrev pub returned : {A : Type 0} → State → Outcome A × W → Outcome A × State
  returned s (o, w) = (o, record s { world = w })

  abbrev pub in_world : {A : Type 0} → Act W A → Act State A
  in_world m s = returned s (m s.world)

  unfoldable pub init_metrics : Config → Act State (Unit {0})
  init_metrics cfg =
      if cfg.enabled
      then (in_world (setup (record cfg { enabled = true })) >>= λ made s.
          (ok tt, set_instance made.0 s))
      else pure tt
