-- ===== src/Composition/Support/Status.antt =====
-- What `populateManagedResources` makes of the objects of a manifest.
use composition_dynamic_cont.Common.{
  String, Bool, true, false, List, [], ◌∷◌, ◌≡◌, ◌≢◌, refl, subst, ◌⊎◌, inl, inr, ◌==◌, string_eq,
  arith, eq_iff, Bool-cases,
}
use composition_dynamic_cont.Common.Effect.{ok}
use composition_dynamic_cont.Common.Inversion.{run-cases}
use composition_dynamic_cont.Kube.{GroupVersionResource, ManagedResource}
use composition_dynamic_cont.Processor.{MinimalMetadata, set_namespace}
use composition_dynamic_cont.Composition.Env.{Env}
use composition_dynamic_cont.Composition.Support.{
  build_path, is_namespaced, resolve_namespace, managed_resource, populate_managed_resources,
}

-- The namespace of an object of this scope: none, its own, or else that of the release.
abbrev pub IsNamespaceOf : Bool → MinimalMetadata → String → String → Type 0
IsNamespaceOf namespaced ref release_namespace ns =
    ((namespaced ≡ false) × (ns ≡ ""))
    ⊎ ((namespaced ≡ true) × (ref.namespace ≡ "") × (ns ≡ release_namespace))
    ⊎ ((namespaced ≡ true) × (ref.namespace ≢ "") × (ns ≡ ref.namespace))

resolve_namespace_lem :
    (namespaced : Bool) (ref : MinimalMetadata) (ns : String)
    → IsNamespaceOf namespaced ref ns (resolve_namespace namespaced ref ns).namespace
      × ((resolve_namespace namespaced ref ns).name ≡ ref.name)
      × ((resolve_namespace namespaced ref ns).api_version ≡ ref.api_version)
unfolding resolve_namespace set_namespace
resolve_namespace_lem namespaced ref ns = elim (Bool-cases namespaced) [
  | inl inside ↦ elim (Bool-cases (ref.namespace == "")) [
    | inl empty ↦ (
      inr (inl (inside, (eq_iff ref.namespace "").0 empty, rw (inside, empty))),
      rw (inside, empty),
      rw (inside, empty),
    )
    | inr given ↦ (
      inr (
          inr
            (inside, λ e. absurd (ground (arith, e, eq_iff ref.namespace "")), rw (inside, given))),
      rw (inside, given),
      rw (inside, given),
    )
  ]
  | inr outside ↦ (inl (outside, rw outside), rw outside, rw outside)
]

module _ {W : Type 0} (env : Env W) where
  -- An entry of `status.managed` describes an object: its name, version and kind, the resource that
  -- its kind maps to, a namespace that fits the scope of that kind, and the path of just that resource.
  abbrev pub Describes : String → MinimalMetadata → ManagedResource → Type 0
  Describes release_namespace ref r =
      (gvr : GroupVersionResource) × (namespaced : Bool) × (w : W) × (w₁ : W) × (w₂ : W)
      × (env.gvk_to_gvr (env.from_api_version_and_kind ref.api_version ref.kind) w ≡ (ok gvr, w₁))
      × (is_namespaced env.mapper (env.from_api_version_and_kind ref.api_version ref.kind) w₁
          ≡ (ok namespaced, w₂))
      × (r.name ≡ ref.name)
      × (r.api_version ≡ ref.api_version)
      × IsNamespaceOf namespaced ref release_namespace r.namespace
      × (r.resource ≡ gvr.resource)
      × (r.path ≡ build_path gvr r.namespace r.name)

  abbrev pub AllDescribed : String → List MinimalMetadata → List ManagedResource → Type 0
  AllDescribed ns [] [] = Unit
  AllDescribed ns (ref ∷ refs) (r ∷ rs) = Describes ns ref r × AllDescribed ns refs rs
  AllDescribed ns _ _ = ⊥

  managed_resource-Describes :
      (ns : String) (ref : MinimalMetadata) (r : ManagedResource) (w w' : W)
      → managed_resource env ns ref w ≡ (ok r, w')
      → Describes ns ref r
  unfolding managed_resource
  managed_resource-Describes ns ref r w w' h =
      let gvk = env.from_api_version_and_kind ref.api_version ref.kind in
      elim (run-cases (env.gvk_to_gvr gvk w)) [
        | inl (gvr, w₁, mapped) ↦ elim (run-cases (is_namespaced env.mapper gvk w₁)) [
          | inl (namespaced, w₂, found) ↦
              let (place, name, version) = resolve_namespace_lem namespaced ref ns in
              subst (Describes ns ref) (ground arith)
                (gvr, namespaced, w, w₁, w₂, mapped, found, name, version, place, refl, refl)
          | inr bad ↦ absurd (ground arith)
        ]
        | inr bad ↦ absurd (ground arith)
      ]

  -- If `populateManagedResources` returns without an error, it has made one entry for each object of
  -- the manifest, in order: with the object's name and API version, the namespace that fits the
  -- scope of its kind (none for a cluster-scoped kind whatever the manifest says, its own, or the
  -- release's where the manifest names none), and the path of that very resource.
  pub populate_managed_resources-Describes :
      (refs : List MinimalMetadata) (ns : String) (rs : List ManagedResource) (w w' : W)
      → populate_managed_resources env refs ns w ≡ (ok rs, w')
      → AllDescribed ns refs rs
  unfolding populate_managed_resources
  populate_managed_resources-Describes [] ns [] w w' h = tt
  populate_managed_resources-Describes [] ns (r ∷ rs) w w' h = absurd (ground arith)
  populate_managed_resources-Describes (ref ∷ refs) ns rs w w' h =
      elim (run-cases (managed_resource env ns ref w)) [
        | inl (r, w₁, made) ↦ elim (run-cases (populate_managed_resources env refs ns w₁)) [
          | inl (rest, w₂, done) ↦
              subst (AllDescribed ns (ref ∷ refs)) {x = r ∷ rest} (ground arith) (
                managed_resource-Describes ns ref r w w₁ made,
                populate_managed_resources-Describes refs ns rest w₁ w₂ done,
              )
          | inr bad ↦ absurd (ground arith)
        ]
        | inr bad ↦ absurd (ground arith)
      ]
