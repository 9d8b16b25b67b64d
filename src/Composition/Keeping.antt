-- ===== src/Composition/Keeping.antt =====
-- What the operations of internal/composition/composition.go keep of the world, by the calls they
-- make. A property of the world is any `P`.
use composition_dynamic_cont.Common.{
  String, Bool, false, not, Option, none, some, List, [], ◌∷◌, inl, inr,
}
use composition_dynamic_cont.Common.Effect.{Error, failed, Act, pure, fail, lift, wrap}
use composition_dynamic_cont.Common.Preserves.{
  Preserves, Preserves-bind, Preserves-pure, Preserves-fail, Preserves-crash, Preserves-lift,
  Preserves-wrap, Preserves-wrap-lift, Preserves-attempt,
}
use composition_dynamic_cont.Kube.{GroupVersionKind, Object}
use composition_dynamic_cont.Archive.{Info}
use composition_dynamic_cont.Processor.{MinimalMetadata}
use composition_dynamic_cont.Composition.Env.{Env, RestMapper}
use composition_dynamic_cont.Composition.Steps.{deref, run, get_package, update_cr, action_config}
use composition_dynamic_cont.Composition.Support.{
  StatusManagerOpts, remap, is_namespaced, managed_resource, populate_managed_resources,
  set_resources, set_status, set_final_condition, set_managed_resources,
}

abbrev pub MapperKeeps : {W : Type 0} → (W → Type 0) → Option (RestMapper W) → Type 0
MapperKeeps P none = Unit
MapperKeeps P (some m) =
    ((gvk : GroupVersionKind) → Preserves P (m.rest_mapping gvk))
    × (elim m.reset [ none ↦ Unit | some reset ↦ ((w : _) → P w → P (reset w)) ])

abbrev pub GetterKeeps : {W : Type 0} → (W → Type 0) → Option (Object → Act W Info) → Type 0
GetterKeeps P none = Unit
GetterKeeps P (some getter) = (mg : Object) → Preserves P (getter mg)

module _ {W : Type 0} (env : Env W) (P : W → Type 0) where
  -- The calls that are not about a release or an RBAC object.
  pub record Quiet : Type 0 where
    pub connected : Preserves P env.new_dynamic
    pub got : GetterKeeps P env.package_info_getter
    pub mapped : (gvk : GroupVersionKind) → Preserves P (env.gvk_to_gvr gvk)
    pub scoped : MapperKeeps P env.mapper
    pub wrote : (o : Object) → Preserves P (env.update o)
    pub wrote_status : (o : Object) → Preserves P (env.update_status o)
    pub told :
        (o : Object) (reason action message : String) (w : W)
        → P w
        → P (env.event o reason action message w)
    pub opened : (ns : String) → Preserves P (env.helm.new_client ns)
    pub found : (ns name : String) → Preserves P (env.helm.get_release ns name)
    pub injected :
        (v : env.Values) (o : Object) (ns : String) → Preserves P (env.inject_global_values v o ns)
    pub labelled : (o : Object) (ns : String) → Preserves P (env.label_post_render_from_spec o ns)

  module _ (Q : Quiet) where
    pub deref-Preserves : {A : Type 0} (o : Option A) → Preserves P (deref o)
    unfolding deref
    deref-Preserves none = Preserves-crash
    deref-Preserves (some a) = Preserves-pure a

    pub get_package-Preserves : (mg : Object) → Preserves P (get_package env mg)
    unfolding get_package
    get_package-Preserves mg =
        elim env.package_info_getter
            as (λ g.
              GetterKeeps P g
              → Preserves P (elim g [
                | none ↦ fail (failed "helm chart package info getter must be specified")
                | some getter ↦ wrap "getting package info" (getter mg)
              ])) [
                | none ↦ λ _. Preserves-fail _
                | some getter ↦ λ k. Preserves-wrap "getting package info" (k mg)
              ]
          Q.got

    pub update_cr-Preserves : (mg : Object) → Preserves P (update_cr env mg)
    unfolding update_cr
    update_cr-Preserves mg = Preserves-wrap "updating cr with values" (Q.wrote mg)

    pub action_config-Preserves :
        (mg : Object) (pkg : Info) → Preserves P (action_config env mg pkg)
    unfolding action_config
    action_config-Preserves mg pkg =
        Preserves-bind (Preserves-wrap-lift "getting spec values" (env.values_from_spec mg))
          (λ spec.
            Preserves-bind
              (Preserves-wrap "injecting global values" (Q.injected spec mg env.krateo_namespace))
              (λ values.
                Preserves-bind
                  (Preserves-wrap "creating label post renderer"
                    (Q.labelled mg env.krateo_namespace))
                  (λ labels. Preserves-bind (deref-Preserves pkg.auth) (λ auth. Preserves-pure _))))

    remap-Preserves :
        (m : RestMapper W) (gvk : GroupVersionKind) (e : Error)
        → MapperKeeps P (some m)
        → Preserves P (remap m gvk e)
    unfolding remap
    remap-Preserves m gvk e (mapping, resets) =
        elim m.reset
            as (λ r.
              (elim r as (λ _. Type 0) [ none ↦ Unit | some reset ↦ ((w : W) → P w → P (reset w)) ])
              → Preserves P {A = Bool} (elim r as (λ _. Act W Bool) [
                | none ↦ fail e
                | some reset ↦ λ w. m.rest_mapping gvk (reset w)
              ])) [
                | none ↦ λ _. Preserves-fail e
                | some reset ↦ λ k. record { at = λ w p. (mapping gvk).at (reset w) (k w p) }
              ]
          resets

    is_namespaced-Preserves :
        (m : Option (RestMapper W)) (gvk : GroupVersionKind)
        → MapperKeeps P m
        → Preserves P (is_namespaced m gvk)
    unfolding is_namespaced
    is_namespaced-Preserves none gvk k = Preserves-pure false
    is_namespaced-Preserves (some m) gvk k = Preserves-bind (Preserves-attempt (k.0 gvk)) (λ found.
        Preserves-bind
          (elim found
            as (λ x.
              Preserves P
                (elim x as (λ _. Act W Bool) [ inl r ↦ pure r | inr e ↦ remap m gvk e ])) [
                  | inl r ↦ Preserves-pure r
                  | inr e ↦ remap-Preserves m gvk e k
                ])
          (λ root. Preserves-pure (not root)))

    pub populate_managed_resources-Preserves :
        (refs : List MinimalMetadata) (ns : String)
        → Preserves P (populate_managed_resources env refs ns)
    unfolding populate_managed_resources managed_resource
    populate_managed_resources-Preserves [] ns = Preserves-pure []
    populate_managed_resources-Preserves (ref ∷ refs) ns =
        let gvk = env.from_api_version_and_kind ref.api_version ref.kind in
        Preserves-bind
          (Preserves-bind (Preserves-wrap _ (Q.mapped gvk)) (λ gvr.
            Preserves-bind (Preserves-wrap _ (is_namespaced-Preserves env.mapper gvk Q.scoped))
              (λ namespaced. Preserves-pure _)))
          (λ r.
            Preserves-bind (populate_managed_resources-Preserves refs ns)
              (λ rest. Preserves-pure (r ∷ rest)))

    set_resources-Preserves :
        (mg : Object) (refs : List MinimalMetadata) → Preserves P (set_resources env mg refs)
    unfolding set_resources
    set_resources-Preserves mg [] = Preserves-pure mg
    set_resources-Preserves mg (r ∷ rs) =
        Preserves-bind
          (Preserves-wrap "populating managed resources"
            (populate_managed_resources-Preserves (r ∷ rs) mg.namespace))
          (λ managed. Preserves-lift (set_managed_resources mg managed))

    set_field-Preserves :
        (s v k : String) (mg : Object)
        → Preserves P (wrap s (lift {W = W} (env.runtime.set_nested_field v k mg)))
    set_field-Preserves s v k mg = Preserves-wrap-lift s (env.runtime.set_nested_field v k mg)

    pub set_status-Preserves :
        (mg : Object) (opts : StatusManagerOpts) → Preserves P (set_status env mg opts)
    unfolding set_status
    set_status-Preserves mg opts =
        Preserves-bind (set_resources-Preserves mg opts.resources) (λ mg₁.
          Preserves-bind
            (set_field-Preserves "setting previous digest in status" opts.previous_digest
              "previousDigest" mg₁)
            (λ mg₂.
              Preserves-bind
                (set_field-Preserves "setting digest in status" opts.digest "digest" mg₂)
                (λ mg₃.
                  Preserves-bind
                    (set_field-Preserves "setting chart URL in status" opts.chart_url "helmChartUrl"
                      mg₃)
                    (λ mg₄.
                      Preserves-bind
                        (set_field-Preserves "setting chart version in status" opts.chart_version
                          "helmChartVersion" mg₄)
                        (λ mg₅. Preserves-lift (set_final_condition env mg₅ opts))))))

    pub told-Preserves :
        (mg : Object) (reason action message : String)
        → Preserves P (run (env.event mg reason action message))
    told-Preserves mg reason action message = record { at = Q.told mg reason action message }
