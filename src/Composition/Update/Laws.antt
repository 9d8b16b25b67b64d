-- ===== src/Composition/Update/Laws.antt =====
-- How `Update` starts and ends a graceful pause.
use composition_dynamic_cont.Common.{
  none, some, ◌≡◌, refl, if◌then◌else◌, string_eq, Bool-cases, inl, inr,
}
use composition_dynamic_cont.Common.Dict.{lookup-insert, lookup-erase, lookup, text_at}
use composition_dynamic_cont.Common.Effect.{ok}
use composition_dynamic_cont.Kube.{Object, IsLawful}
use composition_dynamic_cont.Meta.{
  gracefully_paused_key, gracefully_paused_time_key, is_gracefully_paused,
  get_gracefully_paused_time, set_gracefully_paused_time,
}
use composition_dynamic_cont.Composition.Env.{Env}
use composition_dynamic_cont.Composition.Steps.{reason_paused, is_paused}
use composition_dynamic_cont.Composition.Update.{mark_paused, stamp_pause}

module _ {W : Type 0} (env : Env W) where
  -- The object that `Update` writes last is paused, in the sense that all four operations test,
  -- exactly if the object before had the pause annotation set to "true": the pause time is stamped
  -- with the time of the clock where it is set, and is not there where it is not set. The clock reads back the time that it printed.
  pub stamp_pause_lem :
      (mg : Object) (w : W)
      → IsLawful env.runtime
      → env.clock.parse (env.clock.format env.clock.now) ≡ some env.clock.now
      → (mg' : Object) × (w' : W) × (stamp_pause env mg w ≡ (ok mg', w'))
        × (is_paused env mg' ≡ is_gracefully_paused mg)
        × (lookup gracefully_paused_time_key mg'.annotations
            ≡ (if is_gracefully_paused mg then some (env.clock.format env.clock.now) else none))
  unfolding stamp_pause mark_paused is_paused get_gracefully_paused_time is_gracefully_paused
      set_gracefully_paused_time
  stamp_pause_lem mg w L reads =
      let now = env.clock.format env.clock.now in
      elim (Bool-cases (is_gracefully_paused mg)) [
        | inl set ↦ (
          set_gracefully_paused_time env.clock env.runtime mg env.clock.now,
          env.event (set_gracefully_paused_time env.clock env.runtime mg env.clock.now)
              reason_paused "Update" "Reconciliation paused via the gracefully paused annotation."
              w,
          rw set,
          rw
              (
                set,
                L.add_annotation_lem gracefully_paused_time_key now mg,
                get_gracefully_paused_time,
                text_at,
                lookup-insert gracefully_paused_time_key gracefully_paused_time_key now
                    mg.annotations,
                lookup-insert gracefully_paused_time_key gracefully_paused_key now mg.annotations,
                reads,
              )
              set,
          rw
              (
                set,
                L.add_annotation_lem gracefully_paused_time_key now mg,
                lookup-insert gracefully_paused_time_key gracefully_paused_time_key now
                    mg.annotations,
              )
              refl,
        )
        | inr unset ↦ (
          env.runtime.remove_annotation gracefully_paused_time_key mg,
          w,
          rw unset,
          rw (
            unset,
            L.remove_annotation_lem gracefully_paused_time_key mg,
            get_gracefully_paused_time,
            lookup-erase gracefully_paused_time_key gracefully_paused_time_key mg.annotations,
          ),
          rw (
            unset,
            L.remove_annotation_lem gracefully_paused_time_key mg,
            lookup-erase gracefully_paused_time_key gracefully_paused_time_key mg.annotations,
          ),
        )
      ]
