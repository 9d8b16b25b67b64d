-- ===== src/Composition/Static.antt =====
-- The getter `Static` with the operations that read what it leaves out.
use composition_dynamic_cont.Common.{String, false, some, ◌≡◌}
use composition_dynamic_cont.Common.Effect.{ok, panic}
use composition_dynamic_cont.Kube.{GroupVersionResource, Object}
use composition_dynamic_cont.Meta.{
  gracefully_paused_time_key, calculate_release_name, set_release_name,
}
use composition_dynamic_cont.Archive.{static_get}
use composition_dynamic_cont.Composition.Env.{Env}
use composition_dynamic_cont.Composition.Steps.{is_paused, get_package, update_cr, deref}
use composition_dynamic_cont.Composition.Observe.{observe_active, observe}
use composition_dynamic_cont.Composition.Create.{install_rbac, create_active, create}

module _ {W : Type 0} (env : Env W) where
  -- With the getter `Static` of a chart, `Observe` of a composition that is not paused panics once it
  -- has written the object: it follows the pointer to the composition definition, which this getter
  -- leaves nil.
  pub observe-static_get :
      (url : String) (mg mg' : Object) (name : String) (w w₁ w₂ : W)
      → env.package_info_getter ≡ some (static_get url)
      → is_paused env (set_release_name mg name) ≡ false
      → env.new_dynamic w ≡ (ok tt, w₁)
      → calculate_release_name env.rand mg env.safe_release_name ≡ ok name
      → env.update
          (env.runtime.remove_annotation gracefully_paused_time_key (set_release_name mg name))
          w₁
        ≡ (ok mg', w₂)
      → observe env mg w ≡ (panic, w₂)
  unfolding observe observe_active get_package update_cr deref static_get
  observe-static_get url mg mg' name w w₁ w₂ given active connected named wrote =
      rw (connected, named, active, wrote, given)

  -- So does `Create`, once it has written the object and mapped its kind.
  pub create-static_get :
      (url : String) (mg mg' : Object) (name : String) (gvr : GroupVersionResource) (w w₁ w₂ w₃ : W)
      → env.package_info_getter ≡ some (static_get url)
      → is_paused env mg ≡ false
      → env.new_dynamic w ≡ (ok tt, w₁)
      → calculate_release_name env.rand mg env.safe_release_name ≡ ok name
      → env.update (set_release_name mg name) w₁ ≡ (ok mg', w₂)
      → env.gvk_to_gvr mg'.gvk w₂ ≡ (ok gvr, w₃)
      → create env mg w ≡ (panic, w₃)
  unfolding create create_active install_rbac get_package update_cr deref static_get
  create-static_get url mg mg' name gvr w w₁ w₂ w₃ given active connected named wrote mapped =
      rw (connected, active, named, wrote, given, mapped)
