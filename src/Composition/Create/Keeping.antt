-- ===== src/Composition/Create/Keeping.antt =====
-- What `Create` keeps of the world.
use composition_dynamic_cont.Common.{String, ◌<>◌, true, Option, none, some}
use composition_dynamic_cont.Common.Effect.{Error, Act, ◌>>=◌}
use composition_dynamic_cont.Common.Preserves.{
  Preserves, Preserves-bind, Preserves-pure, Preserves-fail, Preserves-lift, Preserves-wrap,
  Preserves-wrap-lift, Preserves-if,
}
use composition_dynamic_cont.Kube.{Object}
use composition_dynamic_cont.Meta.{
  calculate_release_name, get_release_name, set_release_name, gracefully_paused_time_key,
}
use composition_dynamic_cont.Archive.{Info}
use composition_dynamic_cont.Processor.{Release, decode_min_release}
use composition_dynamic_cont.Composition.Env.{Env, ActionConfig}
use composition_dynamic_cont.Composition.Steps.{reason_paused, paused_message, is_paused, call}
use composition_dynamic_cont.Rbac.Writing.{Writes, apply_rbac-Preserves}
use composition_dynamic_cont.Composition.Support.{available}
use composition_dynamic_cont.Composition.Keeping.{
  Quiet, deref-Preserves, get_package-Preserves, update_cr-Preserves, action_config-Preserves,
  set_status-Preserves, told-Preserves,
}
use composition_dynamic_cont.Composition.Releases.{Inspects, Deploys, generate_rbac-Preserves}
use composition_dynamic_cont.Composition.Create.{
  install_rbac, installed, upgraded, install_release, record_created, create_active, create,
}

module _ {W : Type 0} (env : Env W) (P : W → Type 0) (Q : Quiet env P) where
  pub record_created-Preserves :
      (mg : Object) (pkg : Info) (rel : Option Release)
      → Preserves P (record_created env mg pkg rel)
  unfolding record_created
  record_created-Preserves mg pkg rel =
      Preserves-bind (Preserves-wrap-lift "decoding release" (decode_min_release env.decoder rel))
        (λ (all, digest).
          Preserves-bind
            (Preserves-wrap "setting status" (
              set_status-Preserves env P Q mg record {
                force = true;
                chart_url = pkg.url;
                chart_version = pkg.version;
                resources = all;
                previous_digest = "";
                digest = digest;
                message = "Composition created";
                condition_type = available;
              }))
            (λ mg₁.
              Preserves-bind
                (told-Preserves env P Q mg₁ "CompositionCreated" "Create"
                  ("Composition created: " <> mg₁.name))
                (λ _.
                  Preserves-bind (Preserves-wrap "updating cr with values" (Q.wrote_status mg₁))
                    (λ mg₂.
                      Preserves-bind
                        (update_cr-Preserves env P Q
                          (env.runtime.remove_annotation gracefully_paused_time_key mg₂))
                        (λ _. Preserves-pure tt)))))

  module _ (deploys : Deploys env P) where
    installed-Preserves : (both : Option Release × Option Error) → Preserves P (installed env both)
    unfolding installed
    installed-Preserves (rel, none) = Preserves-pure rel
    installed-Preserves (rel, some e) = Preserves-fail _

    pub install_release-Preserves :
        (mg : Object) (name : String) (pkg : Info)
        (config : ActionConfig env.Values env.PostRenderer)
        → Preserves P (install_release env mg name pkg config)
    unfolding install_release upgraded
    install_release-Preserves mg name pkg config =
        Preserves-bind (Preserves-wrap "finding helm release" (Q.found mg.namespace name)) (λ found.
          elim found
            as (λ o. Preserves P (elim o as (λ _. Act W (Option Release)) [
              | some _ ↦
                  call (env.helm.upgrade mg.namespace name pkg.url config env.helm_max_history)
                  >>= upgraded env
              | none ↦ call (env.helm.install mg.namespace name pkg.url config) >>= installed env
            ])) [
              | some _ ↦
                  Preserves-bind
                    (deploys.upgraded mg.namespace name pkg.url config env.helm_max_history)
                    (λ both. Preserves-pure both.0)
              | none ↦
                  Preserves-bind (deploys.installed mg.namespace name pkg.url config)
                    installed-Preserves
            ])

    module _ (inspects : Inspects env P) (writes : Writes P env.client) where
      install_rbac-Preserves :
          (mg : Object) (name : String) (pkg : Info) → Preserves P (install_rbac env mg name pkg)
      unfolding install_rbac
      install_rbac-Preserves mg name pkg =
          Preserves-bind (Preserves-wrap "converting GVK to GVR" (Q.mapped mg.gvk)) (λ gvr.
            Preserves-bind (deref-Preserves env P Q pkg.composition_definition_info) (λ info.
              Preserves-bind
                (Preserves-wrap "generating RBAC using chart-inspector"
                  (generate_rbac-Preserves env P inspects name mg gvr info))
                (λ generated.
                  Preserves-wrap "installing rbac"
                    (apply_rbac-Preserves P env.client writes (some generated)))))

      create_active-Preserves : (mg : Object) → Preserves P (create_active env mg)
      unfolding create_active
      create_active-Preserves mg =
          Preserves-bind (Preserves-lift (calculate_release_name env.rand mg env.safe_release_name))
            (λ name.
              let named = set_release_name mg name in
              Preserves-bind (update_cr-Preserves env P Q named) (λ mg₁.
                Preserves-bind (get_package-Preserves env P Q mg₁) (λ pkg.
                  Preserves-bind (install_rbac-Preserves mg₁ (get_release_name named) pkg) (λ _.
                    Preserves-bind (Preserves-wrap "creating helm client" (Q.opened mg₁.namespace))
                      (λ _. Preserves-bind (action_config-Preserves env P Q mg₁ pkg) (λ config.
                        Preserves-bind
                          (install_release-Preserves mg₁ (get_release_name named) pkg config)
                          (λ rel. record_created-Preserves mg₁ pkg rel)))))))

      pub create-Preserves : (mg : Object) → Preserves P (create env mg)
      unfolding create
      create-Preserves mg =
          Preserves-bind (Preserves-wrap "creating dynamic client" Q.connected) (λ _.
            Preserves-if (is_paused env mg)
              (told-Preserves env P Q mg reason_paused "Update" paused_message)
              (create_active-Preserves mg))
