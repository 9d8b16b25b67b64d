-- ===== src/Metrics/Start.antt =====
-- What `InitMetrics` leaves as the global instance.
use composition_dynamic_cont.Common.{
  String, Bool, true, false, Option, none, some, ◌≡◌, refl, ap, subst, sym, inl, inr, string_eq,
  if◌then◌else◌, arith,
}
use composition_dynamic_cont.Common.Effect.{
  Outcome, ok, err, panic, Act, pure, fail, lift, attempt, then_run, ◌>>=◌,
}
use composition_dynamic_cont.Common.Ensures.{
  Ensures, Ensures-bind, Ensures-fail, Ensures-any, Ensures-attempt, Succeeded,
}
use composition_dynamic_cont.Metrics.{Telemetry, Metrics}
use composition_dynamic_cont.Metrics.Setup.{
  Sdk, Config, State, Shutdown, provider_shutdown, use_provider, setup_enabled, setup, init_metrics,
  no_op, in_world, returned, create_provider, set_instance,
}
use composition_dynamic_cont.Metrics.Counting.{Counting, IsNamed, new_metrics-Ensures}

module _ {W : Type 0} (t : Telemetry W) (C : Counting t) (sdk : Sdk W t.Meter) where
  abbrev IsPresent : Option (Metrics t) → Type 0
  IsPresent i = (m : Metrics t) × (i ≡ some m) × IsNamed t C m

  abbrev MakesPresent : Option (Metrics t) × Shutdown t sdk → Type 0
  MakesPresent made = IsPresent made.0

  installed-Ensures :
      (provider : sdk.Provider) (m : Metrics t)
      → IsNamed t C m
      → Ensures MakesPresent
          (λ w. (ok (some m, provider_shutdown provider), sdk.set_meter_provider provider w))
  installed-Ensures provider m n = record {
    at = λ w w' made h.
        subst MakesPresent {x = (some m, provider_shutdown provider)} {y = made} (ground arith)
          (m, refl, n);
  }

  use_provider-Ensures :
      (provider : sdk.Provider) (deployment_name : String)
      → Ensures MakesPresent (use_provider t sdk provider deployment_name)
  unfolding use_provider
  use_provider-Ensures provider deployment_name =
      Ensures-bind (Ensures-attempt (new_metrics-Ensures t C _ deployment_name)) (λ made.
        elim made
          as (λ x.
            Succeeded (IsNamed t C) x
            → Ensures MakesPresent (elim x [
              | inr e ↦ attempt (sdk.shutdown provider) >>= λ _. fail e
              | inl m ↦
                  λ w. (ok (some m, provider_shutdown provider), sdk.set_meter_provider provider w)
            ])) [
              | inl m ↦ λ n. installed-Ensures provider m n
              | inr e ↦ λ _.
                  Ensures-bind (Ensures-any (attempt (sdk.shutdown provider)))
                    (λ _ _. Ensures-fail e)
            ])

  setup_enabled-Ensures : (cfg : Config) → Ensures MakesPresent (setup_enabled t sdk cfg)
  unfolding setup_enabled
  setup_enabled-Ensures cfg = Ensures-bind (Ensures-any sdk.new_exporter) (λ exporter _.
      Ensures-bind (Ensures-any (lift (sdk.merge_resource _))) (λ resource _.
        Ensures-bind (Ensures-any (create_provider t sdk exporter _ resource))
          (λ provider _. use_provider-Ensures provider cfg.deployment_name)))

  setup-Ensures : (cfg : Config) → cfg.enabled ≡ true → Ensures MakesPresent (setup t sdk cfg)
  unfolding setup
  setup-Ensures cfg on =
      subst (λ b. Ensures MakesPresent (if b then setup_enabled t sdk cfg else pure (none, no_op)))
        (sym on) (setup_enabled-Ensures cfg)

  -- What the instance is after a start that was enabled, given what it was.
  abbrev pub StartsFrom : Option (Metrics t) → Outcome (Unit {0}) × State t sdk → Type 0
  StartsFrom before (ok u, s) = IsPresent s.instance_metrics
  StartsFrom before (err e, s) = s.instance_metrics ≡ before
  StartsFrom before (panic, s) = s.instance_metrics ≡ before

  installed-StartsFrom :
      (s : State t sdk) (r : Outcome (Option (Metrics t) × Shutdown t sdk) × W)
      → ((made : Option (Metrics t) × Shutdown t sdk) → r ≡ (ok made, r.1) → MakesPresent made)
      → StartsFrom s.instance_metrics
          (then_run (returned t sdk s r) (λ made s'. (ok tt, set_instance t sdk made.0 s')))
  installed-StartsFrom s (ok made, w) p = p made refl
  installed-StartsFrom s (err e, w) p = refl
  installed-StartsFrom s (panic, w) p = refl

  abbrev start_if : Bool → Config → Act (State t sdk) (Unit {0})
  start_if b cfg =
      if b
      then (in_world t sdk (setup t sdk (record cfg { enabled = true })) >>= λ made s.
          (ok tt, set_instance t sdk made.0 s))
      else pure tt

  enabled-StartsFrom :
      (cfg : Config) (s : State t sdk)
      → cfg.enabled ≡ true
      → StartsFrom s.instance_metrics (init_metrics t sdk cfg s)
  unfolding init_metrics
  enabled-StartsFrom cfg s on =
      subst (λ b. StartsFrom s.instance_metrics (start_if b cfg s)) (sym on)
        (installed-StartsFrom s _ (λ made ran. (setup-Ensures _ refl).at s.world _ made ran))

  -- `InitMetrics` with metrics that are not enabled succeeds and changes nothing, neither the
  -- instance nor the world. With metrics enabled, if it succeeds the instance has all its eighteen
  -- instruments under their names, and if it fails or panics the instance is the one from before.
  pub init_metrics-instance :
      (cfg : Config) (s : State t sdk)
      → (cfg.enabled ≡ false → init_metrics t sdk cfg s ≡ (ok tt, s))
        × (cfg.enabled ≡ true → StartsFrom s.instance_metrics (init_metrics t sdk cfg s))
  unfolding init_metrics
  init_metrics-instance cfg s = (λ off. ap (λ b. start_if b cfg s) off, enabled-StartsFrom cfg s)
