-- ===== src/Startup/Laws.antt =====
-- What `main` has done when it returns, and when it exits.
use composition_dynamic_cont.Common.{
  String, Bool, true, false, ◌≡◌, ◌<>◌, zero, suc, Option, none, refl, sym, ap, subst, ◌==◌,
  string_eq, if◌then◌else◌, arith, some,
}
use composition_dynamic_cont.Common.Effect.{Outcome, ok, err, panic, Act, pure, attempt}
use composition_dynamic_cont.Common.Ensures.{
  Ensures, Ensures-fail, Ensures-bind, Ensures-pure, Ensures-any, Ensures-lift, Ensures-ran,
  Ensures-wrap, Leaves, Leaves-bind, Leaves-wrap, Leaves-map,
}
use composition_dynamic_cont.Kube.{Object}
use composition_dynamic_cont.Meta.{composition_version_label}
use composition_dynamic_cont.Archive.{Info, static_get}
use composition_dynamic_cont.Archive.Dynamic.{dynamic_get}
use composition_dynamic_cont.Composition.Env.{RestMapper}
use composition_dynamic_cont.Metrics.{Telemetry}
use composition_dynamic_cont.Metrics.Setup.{
  Sdk, State, ℤ, pos, negsuc, in_world, init_metrics, default_service_name,
}
use composition_dynamic_cont.Startup.{Flags, Host, telemetry_config}
use composition_dynamic_cont.Startup.Main.{
  or_exit, rest_config, new_rest_mapper, discovered_mapper, dynamic_getter, choose_getter,
  new_handler, options, watched, metrics_address, deferring, run_deferred, require_recorder,
  run_controller, main,
}

module _ {W : Type 0} (t : Telemetry W) (sdk : Sdk W t.Meter) (h : Host W) where
  in_world-eq-ok :
      {A : Type 0} (m : Act W A) (s s' : State t sdk) (a : A)
      → in_world t sdk m s ≡ (ok a, s')
      → m s.world ≡ (ok a, s'.world)
  in_world-eq-ok m s s' a ran = ap (λ r. (r.0, r.1.world)) ran

  in_world-Ensures :
      {A : Type 0} {P : A → Type 0} {m : Act W A} → Ensures P m → Ensures P (in_world t sdk m)
  in_world-Ensures {m} hm = record {
    at = λ s s' a ran. hm.at s.world s'.world a (in_world-eq-ok m s s' a ran);
  }

  or_exit-Ensures :
      {A : Type 0} {P : A → Type 0} (message : String) {m : Act W A}
      → Ensures P m
      → Ensures P (or_exit t sdk h message m)
  or_exit-Ensures message hm = Ensures-wrap message (in_world-Ensures hm)

  -- The getter that the flag `chart` asks for: the dynamic one where it is empty.
  abbrev pub IsChosen : Bool → String → h.RestConfig → (Object → Act W Info) → Type 0
  IsChosen true chart cfg getter =
      (client : h.Client) × (h.new_for_config cfg ≡ ok client)
      × (getter ≡ dynamic_get (h.cluster client h.new_pluralizer))
  IsChosen false chart cfg getter = getter ≡ static_get chart

  choose_getter-Ensures :
      (chart : String) (cfg : h.RestConfig)
      → Ensures (IsChosen (chart == "") chart cfg) (choose_getter t sdk h chart cfg)
  unfolding choose_getter dynamic_getter
  choose_getter-Ensures chart cfg =
      elim (chart == "")
        as (λ b. Ensures (IsChosen b chart cfg) (
          if b
          then or_exit t sdk h "Creating chart url info getter." (dynamic_getter t sdk h cfg)
          else pure (static_get chart))) [
            | true ↦ or_exit-Ensures "Creating chart url info getter." (
                Ensures-bind (Ensures-lift (h.new_for_config cfg) (λ _ e. e))
                  (λ client made. Ensures-pure _ (client, made, refl)))
            | false ↦ Ensures-pure _ refl
          ]

  -- The address of the metrics server: a colon and the port, and none for the port 0.
  abbrev pub address_of : ℤ → Option String
  address_of (pos zero) = none
  address_of (pos (suc n)) = some (":" <> h.decimal (pos (suc n)))
  address_of (negsuc n) = some (":" <> h.decimal (negsuc n))

  metrics_address-eq-address_of : (port : ℤ) → metrics_address t sdk h port ≡ address_of port
  unfolding metrics_address
  metrics_address-eq-address_of (pos zero) = refl
  metrics_address-eq-address_of (pos (suc n)) = refl
  metrics_address-eq-address_of (negsuc n) = refl

  -- The configuration of the flag `kubeconfig`, or of the environment where it is empty.
  abbrev pub IsConfig : Flags → h.RestConfig → Type 0
  IsConfig f cfg =
      (w : W) × (w' : W) × ((if f.kubeconfig == ""
            then h.get_config
            else h.build_config_from_flags f.kubeconfig)
          w
        ≡ (ok cfg, w'))

  rest_config-Ensures : (f : Flags) → Ensures (IsConfig f) (rest_config t sdk h f.kubeconfig)
  unfolding rest_config
  rest_config-Ensures f = Ensures-ran (rest_config t sdk h f.kubeconfig)

  abbrev pub IsRecorder : h.RestConfig → h.Recorder → Type 0
  IsRecorder cfg rec =
      (w : W) × (w' : W) × (h.create_recorder cfg "composition-dynamic-controller" w ≡ (ok rec, w'))

  -- The telemetry of the flags.
  abbrev pub IsSetUp : Flags → h.TelemetryMetrics → h.TelemetryShutdown → Type 0
  IsSetUp f metrics shutdown =
      (w : W) × (w' : W) × (h.setup_telemetry
          (record {
            enabled = f.otel_enabled;
            service_name = f.otel_service_name;
            export_interval = f.otel_export_interval;
            deployment_name = f.deployment_name;
          })
          w
        ≡ (ok (metrics, shutdown), w'))

  -- The mapper over the discovery client of this configuration.
  abbrev pub IsMapper : h.RestConfig → RestMapper W → Type 0
  IsMapper cfg mapper =
      (d : h.Discovery) × (h.new_discovery (some cfg) ≡ ok d) × (mapper ≡ h.deferred_mapper d)

  new_rest_mapper-Ensures :
      (cfg : h.RestConfig) → Ensures (IsMapper cfg) (new_rest_mapper t sdk h (some cfg))
  unfolding new_rest_mapper discovered_mapper
  new_rest_mapper-Ensures cfg =
      Ensures-bind (Ensures-lift (h.new_discovery (some cfg)) (λ _ e. e))
        (λ d found. Ensures-pure _ (d, found, refl))

  require_recorder-Ensures :
      (o : Option h.ApiRecorder) → Ensures (λ r. o ≡ some r) (require_recorder t sdk h o)
  unfolding require_recorder
  require_recorder-Ensures none = Ensures-fail _
  require_recorder-Ensures (some r) = Ensures-pure r refl

  -- The controller has been built for the resource of the flags and the composition version, with
  -- these options, and has been run with this handler, up to this state.
  abbrev pub Served :
      Flags
      → h.RestConfig
      → h.Recorder
      → (Object → Act W Info)
      → h.TelemetryMetrics
      → State t sdk
      → Type 0
  Served f cfg rec getter metrics s =
      (selector : h.Selector) × (mapper : RestMapper W) × (recorder : h.ApiRecorder)
      × (controller : h.Controller) × (w : W) × (w₁ : W) × (w₂ : W) × (h.new_requirement
            composition_version_label f.resource_version
          ≡ ok selector)
      × IsMapper cfg mapper
      × (h.new_api_recorder rec ≡ some recorder)
      × (h.build cfg
            (record {
              group = f.resource_group;
              version = f.resource_version;
              resource = f.resource_name;
            })
            "composition-dynamic-controller"
            (record {
              namespace = f.namespace;
              resync_interval = f.resync_interval;
              min_retry_interval = f.min_error_retry_interval;
              max_retry_interval = f.max_error_retry_interval;
              max_retries = f.max_error_retry;
              label_selector = selector;
              telemetry_metrics = metrics;
              metrics_address = address_of f.metrics_server_port;
            })
            w
          ≡ (ok controller, w₁))
      × (h.run controller
            (record {
              kubeconfig = cfg;
              pluralizer = h.new_pluralizer;
              package_info_getter = getter;
              event_recorder = recorder;
              chart_inspector_url = f.url_chart_inspector;
              sa_name = f.sa_name;
              sa_namespace = f.sa_namespace;
              safe_release_name = f.safe_release_name;
              mapper = mapper;
            })
            f.workers w₂
          ≡ (ok tt, s.world))

  run_controller-Leaves :
      (f : Flags) (cfg : h.RestConfig) (rec : h.Recorder) (getter : Object → Act W Info)
      (metrics : h.TelemetryMetrics)
      → Leaves (Served f cfg rec getter metrics) (run_controller t sdk h f cfg rec getter metrics)
  unfolding run_controller options new_handler
  run_controller-Leaves f cfg rec getter metrics =
      Leaves-bind (Ensures-any (attempt (init_metrics t sdk (telemetry_config f)))) (λ _ _.
        Leaves-bind
          (or_exit-Ensures "Creating label requirement." (
            Ensures-lift (h.new_requirement composition_version_label f.resource_version)
              (λ _ e. e)))
          (λ selector required.
            Leaves-bind (or_exit-Ensures "Creating RESTMapper." (new_rest_mapper-Ensures cfg))
              (λ mapper mapped.
                Leaves-bind (require_recorder-Ensures (h.new_api_recorder rec))
                  (λ recorder recorded.
                    Leaves-bind
                      (or_exit-Ensures "Creating controller." (
                        Ensures-ran (
                          h.build cfg (watched t sdk h f) default_service_name
                            (options t sdk h f selector metrics))))
                      (λ controller (w, w₁, built). Leaves-wrap "Running controller." record {
                        at = λ s s' u ran. (
                          selector,
                          mapper,
                          recorder,
                          controller,
                          w,
                          w₁,
                          s.world,
                          required,
                          mapped,
                          recorded,
                          subst
                              (λ o.
                                h.build cfg (watched t sdk h f) default_service_name
                                  (record (options t sdk h f selector metrics) {
                                    metrics_address = o;
                                  })
                                  w
                                ≡ (ok controller, w₁))
                              (metrics_address-eq-address_of f.metrics_server_port) built,
                          in_world-eq-ok
                              (h.run controller (new_handler t sdk h f cfg getter recorder mapper)
                                f.workers)
                              s s' u ran,
                        );
                      })))))

  run_deferred-Leaves :
      (later : Act (State t sdk) (Unit {0})) {Q : State t sdk → Type 0}
      (r : Outcome (Unit {0}) × State t sdk) (s' : State t sdk)
      → ((s₁ : State t sdk) → r ≡ (ok tt, s₁) → Q s₁)
      → run_deferred t sdk h later r ≡ (ok tt, s')
      → (s₁ : State t sdk) × Q s₁ × (s' ≡ (later s₁).1)
  run_deferred-Leaves later (ok u, s₁) s' q ran = (s₁, q s₁ refl, sym (ap (λ r. r.1) ran))
  run_deferred-Leaves later (err e, s₁) s' q ran = absurd (ground arith)
  run_deferred-Leaves later (panic, s₁) s' q ran = absurd (ground arith)

  deferring-Leaves :
      (later : Act (State t sdk) (Unit {0})) {Q : State t sdk → Type 0}
      {m : Act (State t sdk) (Unit {0})}
      → Leaves Q m
      → Leaves (λ s'. (s₁ : State t sdk) × Q s₁ × (s' ≡ (later s₁).1)) (deferring t sdk h later m)
  deferring-Leaves later {Q} {m} hm = record {
    at = λ s s' u ran. run_deferred-Leaves later (m s) s' (λ s₁ e. hm.at s s₁ tt e) ran;
  }

  main-Leaves :
      (f : Flags)
      → Leaves
          (λ s'.
            (cfg : h.RestConfig) × (rec : h.Recorder) × (getter : Object → Act W Info)
            × (metrics : h.TelemetryMetrics) × (shutdown : h.TelemetryShutdown) × (s₁ : State t sdk)
            × IsConfig f cfg
            × IsRecorder cfg rec
            × IsChosen (f.chart == "") f.chart cfg getter
            × IsSetUp f metrics shutdown
            × Served f cfg rec getter metrics s₁
            × (s' ≡ (in_world t sdk (h.shutdown shutdown) s₁).1))
          (main t sdk h f)
  unfolding main
  main-Leaves f =
      Leaves-bind (or_exit-Ensures "Building kubeconfig." (rest_config-Ensures f))
        (λ cfg configured.
          Leaves-bind
            (or_exit-Ensures "Creating event recorder."
              (Ensures-ran (h.create_recorder cfg "composition-dynamic-controller")))
            (λ rec made. Leaves-bind (choose_getter-Ensures f.chart cfg) (λ getter chosen.
              Leaves-bind
                (or_exit-Ensures "Cannot initialize OpenTelemetry metrics"
                  (Ensures-ran (h.setup_telemetry (telemetry_config f))))
                (λ (metrics, shutdown) set_up.
                  Leaves-map
                    (λ s' (s₁, served, after). (
                      cfg, rec, getter, metrics, shutdown, s₁, configured, made, chosen, set_up,
                      served, after,
                    ))
                    (deferring-Leaves (in_world t sdk (h.shutdown shutdown))
                      (run_controller-Leaves f cfg rec getter metrics))))))

  -- If `main` returns, and does not exit, then the controller has been built for the resource that
  -- the flags name, with a selector of the compositions of just the resource version that the flags
  -- name, it has run to its end with the handler that the flags describe, whose getter is the static
  -- one exactly if a chart is given, and after that the telemetry has been shut down. The
  -- configuration is that of the flag `kubeconfig`, or of the environment if the flag is empty; the
  -- event recorder and the mapper are made of it, and the telemetry is that of the flags.
  pub main-Served :
      (f : Flags) (s s' : State t sdk)
      → main t sdk h f s ≡ (ok tt, s')
      → (cfg : h.RestConfig) × (rec : h.Recorder) × (getter : Object → Act W Info)
        × (metrics : h.TelemetryMetrics) × (shutdown : h.TelemetryShutdown) × (s₁ : State t sdk)
        × IsConfig f cfg
        × IsRecorder cfg rec
        × IsChosen (f.chart == "") f.chart cfg getter
        × IsSetUp f metrics shutdown
        × Served f cfg rec getter metrics s₁
        × (s' ≡ (in_world t sdk (h.shutdown shutdown) s₁).1)
  main-Served f s s' ran = (main-Leaves f).at s s' tt ran
