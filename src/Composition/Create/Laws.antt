-- ===== src/Composition/Create/Laws.antt =====
-- How `Create` treats what helm returns.
use composition_dynamic_cont.Common.{
  String, Option, none, some, ◌≡◌, ◌⊎◌, inl, inr, arith, Option-cases,
}
use composition_dynamic_cont.Common.Effect.{Error, wrap_error, ok, err}
use composition_dynamic_cont.Common.Inversion.{run-cases, both-cases}
use composition_dynamic_cont.Kube.{Object}
use composition_dynamic_cont.Processor.{Release}
use composition_dynamic_cont.Archive.{Info}
use composition_dynamic_cont.Composition.Env.{Env, ActionConfig}
use composition_dynamic_cont.Composition.Create.{install_release, installed, upgraded}

module _ {W : Type 0} (env : Env W) where
  -- The release step found none, and installed the chart.
  abbrev pub Installs :
      Object
      → String
      → Info
      → ActionConfig env.Values env.PostRenderer
      → W
      → Option Release
      → Option Error
      → W
      → Type 0
  Installs mg name pkg config w rel error w' =
      (w₁ : W) × (env.helm.get_release mg.namespace name w ≡ (ok none, w₁))
      × (env.helm.install mg.namespace name pkg.url config w₁ ≡ ((rel, error), w'))

  -- The release step found one, and upgraded it.
  abbrev pub Upgrades :
      Object
      → String
      → Info
      → ActionConfig env.Values env.PostRenderer
      → W
      → Option Release
      → Option Error
      → W
      → Type 0
  Upgrades mg name pkg config w rel error w' =
      (w₁ : W) × (found : Release) × (env.helm.get_release mg.namespace name w
        ≡ (ok (some found), w₁))
      × (env.helm.upgrade mg.namespace name pkg.url config env.helm_max_history w₁
          ≡ ((rel, error), w'))

  -- If the release step of `Create` returns an error, then the lookup of the release failed, or no
  -- release was found and the install failed. The error of an upgrade is never returned.
  pub install_release-err :
      (mg : Object) (name : String) (pkg : Info) (config : ActionConfig env.Values env.PostRenderer)
      (w w' : W) (e : Error)
      → install_release env mg name pkg config w ≡ (err e, w')
      → ((cause : Error) × (env.helm.get_release mg.namespace name w ≡ (err cause, w'))
          × (e ≡ wrap_error "finding helm release" cause))
        ⊎ ((rel : Option Release) × (cause : Error) × Installs mg name pkg config w rel
              (some cause)
              w'
            × (e ≡ wrap_error "installing helm chart" cause))
  unfolding install_release installed upgraded
  install_release-err mg name pkg config w w' e h =
      elim (run-cases (env.helm.get_release mg.namespace name w)) [
        | inr (inl (cause, w₁, failed)) ↦ inl (cause, ground arith, ground arith)
        | inr (inr bad) ↦ absurd (ground arith)
        | inl (found, w₁, looked) ↦ elim (Option-cases found) [
          | inl absent ↦
              let (r, error, w₂, ran) =
                both-cases (env.helm.install mg.namespace name pkg.url config w₁) in
              elim (Option-cases error) [
                | inl fine ↦ absurd (ground arith)
                | inr (cause, bad) ↦ inr (r, cause, (w₁, ground arith, ground arith), ground arith)
              ]
          | inr (old, present) ↦
              let (r, error, w₂, ran) =
                both-cases
                  (env.helm.upgrade mg.namespace name pkg.url config env.helm_max_history w₁) in
              absurd (ground arith)
        ]
      ]
