-- ===== src/Composition/Update/Keeping.antt =====
-- What `Update` keeps of the world.
use composition_dynamic_cont.Common.{◌<>◌, false, none, some}
use composition_dynamic_cont.Common.Effect.{failed, Act, fail}
use composition_dynamic_cont.Common.Preserves.{
  Preserves, Preserves-bind, Preserves-pure, Preserves-fail, Preserves-lift, Preserves-wrap,
  Preserves-wrap-lift, Preserves-if,
}
use composition_dynamic_cont.Kube.{Object}
use composition_dynamic_cont.Meta.{
  get_release_name, is_gracefully_paused, set_gracefully_paused_time, gracefully_paused_time_key,
}
use composition_dynamic_cont.Archive.{Info}
use composition_dynamic_cont.Processor.{Release, decode_min_release}
use composition_dynamic_cont.Composition.Env.{Env}
use composition_dynamic_cont.Composition.Steps.{reason_paused, paused_message, is_paused}
use composition_dynamic_cont.Composition.Support.{available, set_managed_resources}
use composition_dynamic_cont.Composition.Keeping.{
  Quiet, get_package-Preserves, update_cr-Preserves, populate_managed_resources-Preserves,
  set_status-Preserves, told-Preserves,
}
use composition_dynamic_cont.Composition.Update.{
  mark_paused, stamp_pause, update_from_release, update_active, update,
}

module _ {W : Type 0} (env : Env W) (P : W → Type 0) (Q : Quiet env P) where
  mark_paused-Preserves : (mg : Object) → Preserves P (mark_paused env mg)
  unfolding mark_paused
  mark_paused-Preserves mg =
      Preserves-bind
        (told-Preserves env P Q mg reason_paused "Update"
          "Reconciliation paused via the gracefully paused annotation.")
        (λ _. Preserves-pure mg)

  stamp_pause-Preserves : (mg : Object) → Preserves P (stamp_pause env mg)
  unfolding stamp_pause
  stamp_pause-Preserves mg =
      Preserves-if (is_gracefully_paused mg)
        (mark_paused-Preserves (set_gracefully_paused_time env.clock env.runtime mg env.clock.now))
        (Preserves-pure (env.runtime.remove_annotation gracefully_paused_time_key mg))

  update_from_release-Preserves :
      (mg : Object) (pkg : Info) (rel : Release) → Preserves P (update_from_release env mg pkg rel)
  unfolding update_from_release
  update_from_release-Preserves mg pkg rel =
      Preserves-bind
        (Preserves-wrap-lift "getting previous digest from status"
          (env.runtime.nested_string mg "digest"))
        (λ previous.
          Preserves-bind
            (Preserves-wrap-lift "decoding release" (decode_min_release env.decoder (some rel)))
            (λ (all, digest).
              Preserves-bind
                (Preserves-wrap "populating managed resources"
                  (populate_managed_resources-Preserves env P Q all mg.namespace))
                (λ managed.
                  Preserves-bind (Preserves-lift (set_managed_resources mg managed)) (λ mg₁.
                    Preserves-bind
                      (told-Preserves env P Q mg₁ "CompositionUpdated" "Update"
                        ("Updated composition: " <> mg₁.name))
                      (λ _.
                        Preserves-bind
                          (Preserves-wrap "setting status" (
                            set_status-Preserves env P Q mg₁ record {
                              force = false;
                              chart_url = pkg.url;
                              chart_version = pkg.version;
                              resources = all;
                              previous_digest = previous;
                              digest = digest;
                              message = "Composition values updated";
                              condition_type = available;
                            }))
                          (λ mg₂.
                            Preserves-bind
                              (Preserves-wrap "updating cr status with values" (Q.wrote_status mg₂))
                              (λ mg₃. Preserves-bind (stamp_pause-Preserves mg₃) (λ mg₄.
                                Preserves-bind (update_cr-Preserves env P Q mg₄)
                                  (λ _. Preserves-pure tt)))))))))

  update_active-Preserves : (mg : Object) → Preserves P (update_active env mg)
  unfolding update_active
  update_active-Preserves mg = Preserves-bind (get_package-Preserves env P Q mg) (λ pkg.
      Preserves-bind (Preserves-wrap "creating helm client" (Q.opened mg.namespace)) (λ _.
        Preserves-bind
          (Preserves-wrap "getting helm release" (Q.found mg.namespace (get_release_name mg)))
          (λ rel.
            elim rel
              as (λ o. Preserves P (elim o as (λ _. Act W (Unit {0})) [
                | none ↦ fail (failed "release not found after upgrade")
                | some found ↦ update_from_release env mg pkg found
              ])) [
                | none ↦ Preserves-fail _
                | some found ↦ update_from_release-Preserves mg pkg found
              ])))

  pub update-Preserves : (mg : Object) → Preserves P (update env mg)
  unfolding update
  update-Preserves mg = Preserves-bind (Preserves-wrap "creating dynamic client" Q.connected) (λ _.
      Preserves-if (is_paused env mg)
        (told-Preserves env P Q mg reason_paused "Update" paused_message)
        (update_active-Preserves mg))
