-- ===== src/Composition/Observe/Keeping.antt =====
-- What `Observe` keeps of the world.
use composition_dynamic_cont.Common.{String, Option, none, some, inl, inr, ◌==◌, string_eq, not}
use composition_dynamic_cont.Common.Effect.{Error, Act, pure, fail, ◌>>=◌}
use composition_dynamic_cont.Common.Preserves.{
  Preserves, Preserves-bind, Preserves-pure, Preserves-fail, Preserves-lift, Preserves-wrap,
  Preserves-wrap-lift, Preserves-attempt, Preserves-if,
}
use composition_dynamic_cont.Kube.{Object}
use composition_dynamic_cont.Meta.{
  CompositionDefinitionInfo, calculate_release_name, get_release_name, set_release_name,
}
use composition_dynamic_cont.Rbac.Writing.{Writes, apply_rbac-Preserves}
use composition_dynamic_cont.Archive.{Info}
use composition_dynamic_cont.Processor.{Release, compute_release_digest}
use composition_dynamic_cont.Composition.Env.{Env}
use composition_dynamic_cont.Composition.Steps.{reason_paused, paused_message, is_paused}
use composition_dynamic_cont.Composition.Keeping.{
  Quiet, deref-Preserves, get_package-Preserves, update_cr-Preserves, action_config-Preserves,
  set_status-Preserves, told-Preserves,
}
use composition_dynamic_cont.Composition.Releases.{Inspects, Deploys, generate_rbac-Preserves}
use composition_dynamic_cont.Composition.Observe.{
  ExternalObservation, up_to_date, out_of_date, missing, is_pending, report_unavailable,
  or_unavailable, settle, prepare_rbac, released, upgrade_release, previous_digest, finish,
  compare_versions, compare_releases, observe_release, observe_active, observe,
}

module _ {W : Type 0} (env : Env W) (P : W → Type 0) (Q : Quiet env P) where
  report_unavailable-Preserves :
      (mg : Object) (e : Error) → Preserves P (report_unavailable env mg e)
  unfolding report_unavailable
  report_unavailable-Preserves mg e = Preserves-bind (Preserves-attempt (Preserves-lift _)) (λ set.
      Preserves-bind (Preserves-wrap "updating status after failure" (Q.wrote_status _))
        (λ _. Preserves-pure tt))

  or_unavailable-Preserves :
      {A : Type 0} (mg : Object) (reported final : Error → Error) {m : Act W A}
      → Preserves P m
      → Preserves P (or_unavailable env mg reported final m)
  unfolding or_unavailable
  or_unavailable-Preserves {A} mg reported final {m} h =
      Preserves-bind (Preserves-attempt h) (λ res.
        elim res
          as (λ x. Preserves P (elim x as (λ _. Act W A) [
            | inl a ↦ pure a
            | inr e ↦ report_unavailable env mg (reported e) >>= λ _. fail (final e)
          ])) [
            | inl a ↦ Preserves-pure a
            | inr e ↦
                Preserves-bind (report_unavailable-Preserves mg (reported e))
                  (λ _. Preserves-fail _)
          ])

  previous_digest-Preserves :
      (mg : Object) (rel : Option Release) → Preserves P (previous_digest env mg rel)
  unfolding previous_digest
  previous_digest-Preserves mg rel =
      Preserves-bind
        (Preserves-wrap-lift "getting previous digest from status"
          (env.runtime.nested_string mg "digest"))
        (λ previous.
          Preserves-if (previous == "")
            (Preserves-wrap-lift "computing release digest from previous release"
              (compute_release_digest rel))
            (Preserves-pure previous))

  finish-Preserves :
      (mg : Object) (pkg : Info) (previous digest : String)
      → Preserves P (finish env mg pkg previous digest)
  unfolding finish
  finish-Preserves mg pkg previous digest =
      Preserves-bind (set_status-Preserves env P Q mg _)
        (λ mg'. Preserves-bind (Q.wrote_status mg') (λ _. Preserves-pure up_to_date))

  compare_versions-Preserves :
      (mg : Object) (pkg : Info) (rel upgraded : Option Release) (digest previous : String)
      → Preserves P (compare_versions env mg pkg rel upgraded digest previous)
  unfolding compare_versions
  compare_versions-Preserves mg pkg rel upgraded digest previous =
      Preserves-bind (deref-Preserves env P Q rel) (λ old.
        Preserves-bind (deref-Preserves env P Q upgraded) (λ new.
          Preserves-if (not (old.chart_version == new.chart_version)) (Preserves-pure out_of_date)
            (finish-Preserves mg pkg previous digest)))

  compare_releases-Preserves :
      (mg : Object) (pkg : Info) (rel upgraded : Option Release)
      → Preserves P (compare_releases env mg pkg rel upgraded)
  unfolding compare_releases
  compare_releases-Preserves mg pkg rel upgraded =
      Preserves-bind
        (Preserves-wrap-lift "computing release digest" (compute_release_digest upgraded))
        (λ digest. Preserves-bind (previous_digest-Preserves mg rel) (λ previous.
          Preserves-if (not (digest == previous)) (Preserves-pure out_of_date)
            (compare_versions-Preserves mg pkg rel upgraded digest previous)))

  module _ (inspects : Inspects env P) (writes : Writes P env.client)
      (deploys : Deploys env P) where
    settle-Preserves :
        (mg : Object) (name : String) (rel : Release) → Preserves P (settle env mg name rel)
    unfolding settle
    settle-Preserves mg name rel =
        Preserves-if (is_pending rel.status)
          (Preserves-wrap "rolling back release"
            (deploys.rolled_back mg.namespace name rel.revision env.helm_max_history))
          (Preserves-pure (some rel))

    prepare_rbac-Preserves :
        (mg : Object) (name : String) (info : CompositionDefinitionInfo)
        → Preserves P (prepare_rbac env mg name info)
    unfolding prepare_rbac
    prepare_rbac-Preserves mg name info =
        Preserves-bind (Preserves-wrap "converting GVK to GVR" (Q.mapped mg.gvk)) (λ gvr.
          Preserves-bind
            (or_unavailable-Preserves mg _ _
              (generate_rbac-Preserves env P inspects name mg gvr info))
            (λ generated.
              or_unavailable-Preserves mg _ _
                (apply_rbac-Preserves P env.client writes (some generated))))

    released-Preserves : (both : Option Release × Option Error) → Preserves P (released env both)
    unfolding released
    released-Preserves (rel, none) = Preserves-pure rel
    released-Preserves (rel, some e) = Preserves-fail e

    upgrade_release-Preserves :
        (mg : Object) (name : String) (pkg : Info) → Preserves P (upgrade_release env mg name pkg)
    unfolding upgrade_release
    upgrade_release-Preserves mg name pkg =
        Preserves-bind (Preserves-wrap "getting helm client" (Q.opened mg.namespace)) (λ _.
          Preserves-bind (action_config-Preserves env P Q mg pkg) (λ config.
            or_unavailable-Preserves mg _ _ (
              Preserves-bind
                (deploys.upgraded mg.namespace name pkg.url config env.helm_max_history)
                (λ both. released-Preserves both))))

    observe_release-Preserves :
        (mg : Object) (name : String) (pkg : Info) (info : CompositionDefinitionInfo)
        (found : Release)
        → Preserves P (observe_release env mg name pkg info found)
    unfolding observe_release
    observe_release-Preserves mg name pkg info found =
        Preserves-bind (settle-Preserves mg name found) (λ rel.
          Preserves-bind (prepare_rbac-Preserves mg name info) (λ _.
            Preserves-bind (upgrade_release-Preserves mg name pkg)
              (λ upgraded. compare_releases-Preserves mg pkg rel upgraded)))

    observe_active-Preserves :
        (mg : Object) (name : String) → Preserves P (observe_active env mg name)
    unfolding observe_active
    observe_active-Preserves mg name = Preserves-bind (update_cr-Preserves env P Q _) (λ mg₁.
        Preserves-bind (get_package-Preserves env P Q mg₁) (λ pkg.
          Preserves-bind (deref-Preserves env P Q pkg.composition_definition_info) (λ info.
            Preserves-bind (update_cr-Preserves env P Q _) (λ mg₂.
              Preserves-bind (Preserves-wrap "creating helm client" (Q.opened mg₂.namespace)) (λ _.
                Preserves-bind (Preserves-wrap "finding helm release" (Q.found mg₂.namespace name))
                  (λ rel.
                    elim rel
                      as (λ o. Preserves P (elim o as (λ _. Act W ExternalObservation) [
                        | none ↦ pure missing
                        | some found ↦ observe_release env mg₂ name pkg info found
                      ])) [
                        | none ↦ Preserves-pure missing
                        | some found ↦ observe_release-Preserves mg₂ name pkg info found
                      ]))))))

    pub observe-Preserves : (mg : Object) → Preserves P (observe env mg)
    unfolding observe
    observe-Preserves mg =
        Preserves-bind (Preserves-wrap "creating dynamic client" Q.connected) (λ _.
          Preserves-bind (Preserves-lift (calculate_release_name env.rand mg env.safe_release_name))
            (λ name.
              Preserves-if (is_paused env (set_release_name mg name))
                (Preserves-bind
                  (told-Preserves env P Q (set_release_name mg name) reason_paused "Observe"
                    paused_message)
                  (λ _. Preserves-pure up_to_date))
                (observe_active-Preserves (set_release_name mg name)
                  (get_release_name (set_release_name mg name)))))
