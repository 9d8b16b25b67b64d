-- ===== src/Composition/Support/Lookups.antt =====
-- How often the status of a composition asks the REST mapper.
use composition_dynamic_cont.Common.{
  ℕ, ◌+◌, ◌*◌, ◌≤◌, String, Bool, false, not, Option, none, some, List, [], ◌∷◌, inl, inr, subst,
  length, arith,
}
use composition_dynamic_cont.Common.Effect.{Error, Act, pure, fail}
use composition_dynamic_cont.Common.Within.{
  Within, Within-bind, Within-pure, Within-fail, Within-wrap, Within-attempt, Within-more,
}
use composition_dynamic_cont.Kube.{GroupVersionKind}
use composition_dynamic_cont.Processor.{MinimalMetadata}
use composition_dynamic_cont.Composition.Env.{Env, RestMapper}
use composition_dynamic_cont.Composition.Support.{
  remap, is_namespaced, managed_resource, populate_managed_resources,
}

-- A mapping is counted once, and nothing else is.
abbrev pub CountsMapper : {W : Type 0} → (W → ℕ) → Option (RestMapper W) → Type 0
CountsMapper asked none = Unit
CountsMapper asked (some m) =
    ((gvk : GroupVersionKind) → Within asked 1 (m.rest_mapping gvk))
    × (elim m.reset [ none ↦ Unit | some reset ↦ ((w : _) → asked (reset w) ≤ asked w) ])

module _ {W : Type 0} (asked : W → ℕ) where
  remap-Within :
      (m : RestMapper W) (gvk : GroupVersionKind) (e : Error)
      → CountsMapper asked (some m)
      → Within asked 1 (remap m gvk e)
  unfolding remap
  remap-Within m gvk e (mapping, resets) =
      elim m.reset
          as (λ r.
            (elim r as (λ _. Type 0) [
              | none ↦ Unit
              | some reset ↦ ((w : W) → asked (reset w) ≤ asked w)
            ])
            → Within asked 1 {A = Bool} (elim r as (λ _. Act W Bool) [
              | none ↦ fail e
              | some reset ↦ λ w. m.rest_mapping gvk (reset w)
            ])) [
              | none ↦ λ _. Within-more asked 0 1 (omega arith) (Within-fail asked e)
              | some reset ↦ λ k. record {
                at = λ w. let first = k w in let second = (mapping gvk).at (reset w) in omega arith;
              }
            ]
        resets

  -- `IsNamespaced` asks at most twice.
  is_namespaced-Within :
      (m : Option (RestMapper W)) (gvk : GroupVersionKind)
      → CountsMapper asked m
      → Within asked 2 (is_namespaced m gvk)
  unfolding is_namespaced
  is_namespaced-Within none gvk k = Within-more asked 0 2 (omega arith) (Within-pure asked false)
  is_namespaced-Within (some m) gvk k =
      Within-bind asked 1 1 (Within-attempt asked 1 (k.0 gvk)) (λ found.
        Within-bind asked 1 0
          (elim found
            as (λ x.
              Within asked 1
                (elim x as (λ _. Act W Bool) [ inl r ↦ pure r | inr e ↦ remap m gvk e ])) [
                  | inl r ↦ Within-more asked 0 1 (omega arith) (Within-pure asked r)
                  | inr e ↦ remap-Within m gvk e k
                ])
          (λ root. Within-pure asked (not root)))

  module _ (env : Env W) where
    managed_resource-Within :
        (ns : String) (ref : MinimalMetadata)
        → CountsMapper asked env.mapper
        → ((gvk : GroupVersionKind) → Within asked 0 (env.gvk_to_gvr gvk))
        → Within asked 2 (managed_resource env ns ref)
    unfolding managed_resource
    managed_resource-Within ns ref k pluralizes =
        let gvk = env.from_api_version_and_kind ref.api_version ref.kind in
        Within-bind asked 0 2 (Within-wrap asked _ 0 (pluralizes gvk)) (λ gvr.
          Within-bind asked 2 0 (Within-wrap asked _ 2 (is_namespaced-Within env.mapper gvk k))
            (λ namespaced. Within-pure asked _))

    loop-Within :
        (refs : List MinimalMetadata) (ns : String)
        → CountsMapper asked env.mapper
        → ((gvk : GroupVersionKind) → Within asked 0 (env.gvk_to_gvr gvk))
        → Within asked (2 * length refs) (populate_managed_resources env refs ns)
    unfolding populate_managed_resources
    loop-Within [] ns k pluralizes = Within-pure asked []
    loop-Within (ref ∷ refs) ns k pluralizes =
        subst (λ n. Within asked n (populate_managed_resources env (ref ∷ refs) ns)) (omega arith)
          (Within-bind asked 2 (2 * length refs) (managed_resource-Within ns ref k pluralizes) (λ r.
            Within-more asked (2 * length refs + 0) (2 * length refs) (omega arith) (
              Within-bind asked (2 * length refs) 0 (loop-Within refs ns k pluralizes)
                (λ rest. Within-pure asked (r ∷ rest)))))

    -- `populateManagedResources` ends after at most two questions to the REST mapper for each object
    -- of the manifest, however it ends: a mapping that fails is asked for again once, after a reset,
    -- and no more.
    pub populate_managed_resources-Within :
        (refs : List MinimalMetadata) (ns : String)
        → CountsMapper asked env.mapper
        → ((gvk : GroupVersionKind) → Within asked 0 (env.gvk_to_gvr gvk))
        → (w : W) → asked (populate_managed_resources env refs ns w).1 ≤ asked w + 2 * length refs
    populate_managed_resources-Within refs ns k pluralizes w =
        (loop-Within refs ns k pluralizes).at w
