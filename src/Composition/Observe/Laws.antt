-- ===== src/Composition/Observe/Laws.antt =====
-- The verdict of `Observe` on a release, and what it reports when a step fails.
use composition_dynamic_cont.Common.{
  String, false, Option, some, [], ◌≡◌, refl, ◌⊎◌, inl, inr, ◌==◌, string_eq, arith, eq_iff,
  Option-cases, Bool-cases,
}
use composition_dynamic_cont.Common.Effect.{
  Error, error_text, wrap_error, Outcome, Outcome-cases, ok, err, fail, wrap, ◌>>=◌,
}
use composition_dynamic_cont.Common.Inversion.{run-cases, both-cases}
use composition_dynamic_cont.Kube.{Object}
use composition_dynamic_cont.Processor.{Release, compute_release_digest}
use composition_dynamic_cont.Archive.{Info}
use composition_dynamic_cont.Composition.Env.{Env, ActionConfig}
use composition_dynamic_cont.Composition.Steps.{deref, action_config}
use composition_dynamic_cont.Composition.Support.{available, set_status}
use composition_dynamic_cont.Composition.Observe.{
  ExternalObservation, up_to_date, out_of_date, report_unavailable, or_unavailable, released,
  upgrade_release, previous_digest, finish, compare_versions, compare_releases,
}

module _ {W : Type 0} (env : Env W) where
  -- The digest and the chart version that `Observe` compares agree.
  abbrev pub Agrees : Object → Option Release → Option Release → W → Type 0
  Agrees mg rel upgraded w =
      (digest : String) × (old : Release) × (new : Release) × (compute_release_digest upgraded
        ≡ ok digest)
      × (previous_digest env mg rel w ≡ (ok digest, w))
      × (rel ≡ some old)
      × (upgraded ≡ some new)
      × (old.chart_version ≡ new.chart_version)

  finish-up_to_date :
      (mg : Object) (pkg : Info) (previous digest : String) (obs : ExternalObservation) (w w' : W)
      → finish env mg pkg previous digest w ≡ (ok obs, w')
      → obs ≡ up_to_date
  unfolding finish
  finish-up_to_date mg pkg previous digest obs w w' h =
      elim (run-cases (
        set_status env mg
          (record {
            force = false;
            chart_url = pkg.url;
            chart_version = pkg.version;
            resources = [];
            previous_digest = previous;
            digest = digest;
            message = "Composition is up-to-date";
            condition_type = available;
          })
          w)) [
            | inl (mg', w₁, set) ↦ elim (run-cases (env.update_status mg' w₁)) [
              | inl (_, w₂, wrote) ↦ ground arith
              | inr bad ↦ absurd (ground arith)
            ]
            | inr bad ↦ absurd (ground arith)
          ]

  -- The lookup of the digest reads the world only.
  previous_digest-world :
      (mg : Object) (rel : Option Release) (w w' : W) (o : Outcome String)
      → previous_digest env mg rel w ≡ (o, w')
      → w' ≡ w
  unfolding previous_digest
  previous_digest-world mg rel w w' o h =
      elim (Outcome-cases (env.runtime.nested_string mg "digest")) [
        | inl (d, read) ↦ elim (Bool-cases (d == "")) [
          | inl empty ↦ elim (Outcome-cases (compute_release_digest rel)) [
            | inl (x, made) ↦ ground arith
            | inr (inl (e, bad)) ↦ ground arith
            | inr (inr bad) ↦ ground arith
          ]
          | inr given ↦ ground arith
        ]
        | inr (inl (e, bad)) ↦ ground arith
        | inr (inr bad) ↦ ground arith
      ]

  -- If the comparison that ends `Observe` returns without an error, its verdict is one of two. The
  -- composition is up to date, and the digest of the upgraded release is the previous one and both
  -- releases have the same chart version. Or it is out of date, these do not agree, and nothing has
  -- been written.
  pub compare_releases_lem :
      (mg : Object) (pkg : Info) (rel upgraded : Option Release) (obs : ExternalObservation)
      (w w' : W)
      → compare_releases env mg pkg rel upgraded w ≡ (ok obs, w')
      → ((obs ≡ up_to_date) × Agrees mg rel upgraded w)
        ⊎ ((obs ≡ out_of_date) × (w' ≡ w) × ¬ Agrees mg rel upgraded w)
  unfolding compare_releases compare_versions deref
  compare_releases_lem mg pkg rel upgraded obs w w' h =
      elim (Outcome-cases (compute_release_digest upgraded)) [
        | inl (digest, made) ↦ elim (run-cases (previous_digest env mg rel w)) [
          | inl (previous, w₁, before) ↦
              let same = previous_digest-world mg rel w w₁ (ok previous) before in
              elim (Bool-cases (digest == previous)) [
                | inl agree ↦ elim (Option-cases rel) [
                  | inl bad ↦ absurd (ground arith)
                  | inr (old, is_old) ↦ elim (Option-cases upgraded) [
                    | inl bad ↦ absurd (ground arith)
                    | inr (new, is_new) ↦
                        elim (Bool-cases (old.chart_version == new.chart_version)) [
                          | inl versions ↦ inl (
                            finish-up_to_date mg pkg previous digest obs w₁ w' (ground arith),
                            (
                              digest,
                              old,
                              new,
                              made,
                              ground (arith, eq_iff digest previous, same),
                              is_old,
                              is_new,
                              (eq_iff old.chart_version new.chart_version).0 versions,
                            ),
                          )
                          | inr versions ↦ inr (
                            ground arith,
                            ground arith,
                            λ (d, o, n, m, b, io, in_, v).
                                absurd (ground (arith, eq_iff old.chart_version new.chart_version)),
                          )
                        ]
                  ]
                ]
                | inr differ ↦ inr (
                  ground arith,
                  ground arith,
                  λ (d, o, n, m, b, io, in_, v). absurd (ground (arith, eq_iff digest previous)),
                )
              ]
          | inr bad ↦ absurd (ground arith)
        ]
        | inr bad ↦ absurd (ground arith)
      ]

  -- The object that a failure is reported on: with the condition, or as it was where that cannot be
  -- set.
  abbrev pub IsUnavailable : Object → Error → Object → Type 0
  IsUnavailable mg e mg' =
      (env.runtime.set_conditions (record env.runtime.unavailable { message = error_text e }) mg
        ≡ ok mg')
      ⊎ ((x : Error) × (env.runtime.set_conditions
              (record env.runtime.unavailable { message = error_text e }) mg
            ≡ err x)
          × (mg' ≡ mg))

  -- The status has been written with the error, and the step ends with `final`; or the write failed,
  -- and the step ends with its error.
  abbrev pub Reports : Object → Error → Error → W → Error → W → Type 0
  Reports mg reported final w e w' =
      (mg' : Object) × IsUnavailable mg reported mg'
      × (((written : Object) × (env.update_status mg' w ≡ (ok written, w')) × (e ≡ final))
          ⊎ ((cause : Error) × (env.update_status mg' w ≡ (err cause, w'))
              × (e ≡ wrap_error "updating status after failure" cause)))

  reported_write :
      (mg mg' : Object) (reported final e : Error) (w w' : W)
      → IsUnavailable mg reported mg'
      → (wrap "updating status after failure" (env.update_status mg') >>= λ _.
            fail {A = Option Release} final)
          w
        ≡ (err e, w')
      → Reports mg reported final w e w'
  reported_write mg mg' reported final e w w' is h = elim (run-cases (env.update_status mg' w)) [
    | inl (written, w₁, wrote) ↦ (mg', is, inl (written, ground arith, ground arith))
    | inr (inl (cause, w₁, bad)) ↦ (mg', is, inr (cause, ground arith, ground arith))
    | inr (inr bad) ↦ absurd (ground arith)
  ]

  report_unavailable-err :
      (mg : Object) (reported final e : Error) (w w' : W)
      → (report_unavailable env mg reported >>= λ _. fail {A = Option Release} final) w
        ≡ (err e, w')
      → Reports mg reported final w e w'
  unfolding report_unavailable
  report_unavailable-err mg reported final e w w' h =
      elim (Outcome-cases (
        env.runtime.set_conditions
          (record env.runtime.unavailable { message = error_text reported }) mg)) [
            | inl (mg', set) ↦ reported_write mg mg' reported final e w w' (inl set) (ground arith)
            | inr (inl (x, bad)) ↦
                reported_write mg mg reported final e w w' (inr (x, bad, refl)) (ground arith)
            | inr (inr bad) ↦ absurd (ground arith)
          ]

  -- If the upgrade step of `Observe` returns an error, then the helm client or the configuration
  -- could not be made, and nothing is reported; or the upgrade returned an error, and it was reported:
  -- the status has been written with the condition `Unavailable` and the text of the wrapped error,
  -- and the step returns that error. Where the condition cannot be set, the status is written as it
  -- is, and where the write fails, the step returns the error of the write.
  pub upgrade_release-err :
      (mg : Object) (name : String) (pkg : Info) (e : Error) (w w' : W)
      → upgrade_release env mg name pkg w ≡ (err e, w')
      → ((cause : Error) × (env.helm.new_client mg.namespace w ≡ (err cause, w'))
          × (e ≡ wrap_error "getting helm client" cause))
        ⊎ ((w₁ : W) × (env.helm.new_client mg.namespace w ≡ (ok tt, w₁))
            × (action_config env mg pkg w₁ ≡ (err e, w')))
        ⊎ ((w₁ : W) × (w₂ : W) × (w₃ : W) × (config : ActionConfig env.Values env.PostRenderer)
            × (rel : Option Release) × (cause : Error) × (env.helm.new_client mg.namespace w
                ≡ (ok tt, w₁))
            × (action_config env mg pkg w₁ ≡ (ok config, w₂))
            × (env.helm.upgrade mg.namespace name pkg.url config env.helm_max_history w₂
                ≡ ((rel, some cause), w₃))
            × Reports mg
                (wrap_error "upgrading helm chart" cause)
                (wrap_error "upgrading helm chart" cause)
                w₃
                e
                w')
  unfolding upgrade_release or_unavailable released
  upgrade_release-err mg name pkg e w w' h = elim (run-cases (env.helm.new_client mg.namespace w)) [
    | inr (inl (cause, w₁, bad)) ↦ inl (cause, ground arith, ground arith)
    | inr (inr bad) ↦ absurd (ground arith)
    | inl (u, w₁, made) ↦ elim (run-cases (action_config env mg pkg w₁)) [
      | inr (inl (cause, w₂, bad)) ↦ inr (inl (w₁, made, ground arith))
      | inr (inr bad) ↦ absurd (ground arith)
      | inl (config, w₂, built) ↦
          let (rel, error, w₃, ran) =
            both-cases
              (env.helm.upgrade mg.namespace name pkg.url config env.helm_max_history w₂) in
          elim (Option-cases error) [
            | inl fine ↦ absurd (ground arith)
            | inr (cause, bad) ↦ inr (
                inr (
                  w₁,
                  w₂,
                  w₃,
                  config,
                  rel,
                  cause,
                  made,
                  built,
                  ground arith,
                  report_unavailable-err mg (wrap_error "upgrading helm chart" cause)
                      (wrap_error "upgrading helm chart" cause) e w₃ w' (ground arith),
                ))
          ]
    ]
  ]
