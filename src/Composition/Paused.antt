-- ===== src/Composition/Paused.antt =====
-- The four operations on a composition that is gracefully paused.
use composition_dynamic_cont.Common.{String, true, ◌≡◌, arith}
use composition_dynamic_cont.Common.Effect.{ok}
use composition_dynamic_cont.Kube.{Object}
use composition_dynamic_cont.Meta.{
  calculate_release_name, set_release_name, is_gracefully_paused, get_gracefully_paused_time,
}
use composition_dynamic_cont.Composition.Env.{Env}
use composition_dynamic_cont.Composition.Steps.{reason_paused, paused_message, is_paused}
use composition_dynamic_cont.Composition.Observe.{observe, up_to_date}
use composition_dynamic_cont.Composition.Create.{create}
use composition_dynamic_cont.Composition.Update.{update}
use composition_dynamic_cont.Composition.Delete.{delete}

module _ {W : Type 0} (env : Env W) where
  is_paused-set_release_name :
      (mg : Object) (name : String) → is_paused env (set_release_name mg name) ≡ is_paused env mg
  unfolding is_paused set_release_name is_gracefully_paused get_gracefully_paused_time
  is_paused-set_release_name mg name = ground arith

  -- If a composition carries the pause annotation and a pause time that parses, then each operation
  -- returns successfully after creating its client, and does nothing to the world but to record one
  -- event: no update of the object or its status, no helm call and no RBAC call is made. `Observe`
  -- reports the resource as existing and up to date, so that no operation follows.
  pub paused_lem :
      (mg : Object) (name : String) (w w₁ : W)
      → is_paused env mg ≡ true
      → env.new_dynamic w ≡ (ok tt, w₁)
      → calculate_release_name env.rand mg env.safe_release_name ≡ ok name
      → (observe env mg w ≡ (
        ok up_to_date,
        env.event (set_release_name mg name) reason_paused "Observe" paused_message w₁,
      ))
        × (create env mg w ≡ (ok tt, env.event mg reason_paused "Update" paused_message w₁))
        × (update env mg w ≡ (ok tt, env.event mg reason_paused "Update" paused_message w₁))
        × (delete env mg w ≡ (ok tt, env.event mg reason_paused "Delete" paused_message w₁))
  unfolding observe create update delete
  paused_lem mg name w w₁ paused connected named = (
    rw (connected, named, is_paused-set_release_name mg name, paused),
    rw (connected, paused),
    rw (connected, paused),
    rw (connected, paused),
  )
