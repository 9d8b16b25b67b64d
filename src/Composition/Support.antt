-- ===== src/Composition/Support.antt =====
-- internal/composition/support.go and internal/tools/dynamic/dynamic.go: the status of a composition.
pub mod Paths
pub mod Status
pub mod Written
pub mod Lookups
use composition_dynamic_cont.Common.{
  String, ◌<>◌, Bool, true, false, not, ◌&&◌, Option, none, some, List, [], ◌∷◌, ◌==◌, string_eq,
  inl, inr, if◌then◌else◌,
}
use composition_dynamic_cont.Common.Effect.{
  Error, failed, not_found, wrapped, Outcome, ok, err, panic, Act, pure, fail, crash, lift, wrap,
  wrap_outcome, attempt, ◌>>=◌, ◌>>◌,
}
use composition_dynamic_cont.Processor.{MinimalMetadata, set_namespace}
use composition_dynamic_cont.Composition.Env.{Env, RestMapper}
use composition_dynamic_cont.Kube.{
  GroupVersionKind, GroupVersionResource, ManagedResource, Value, Fields, null, resources, object,
  end, field, Condition, Object, Runtime, set_field,
}

-- The closure `buildpath`.
unfoldable pub build_path : GroupVersionResource → String → String → String
build_path gvr namespace name =
    let prefix =
      if gvr.group == ""
      then "/api/" <> gvr.version
      else "/apis/" <> (gvr.group <> ("/" <> gvr.version)) in
    let suffix =
      if namespace == ""
      then "/" <> (gvr.resource <> ("/" <> name))
      else "/namespaces/" <> (namespace <> ("/" <> (gvr.resource <> ("/" <> name)))) in
    prefix <> suffix

-- internal/condition/condition.go
unfoldable pub reconcile_gracefully_paused : Runtime → Condition
reconcile_gracefully_paused r = record {
  type = r.type_ready;
  status = "True";
  reason = "ReconcileGracefullyPaused";
  message = "";
}

-- Whether the object has the condition with this message.
pub has_message : Option Condition → String → Bool
has_message none message = false
has_message (some c) message = c.message == message

-- The body that `setAvaibleStatus` and `setGracefullyPausedCondition` share.
unfoldable pub set_condition : Runtime → Condition → String → Bool → Object → Outcome Object
unfolding has_message
set_condition r cond message force mg =
    if not force && has_message (r.get_condition mg cond.type cond.reason) message
    then ok mg
    else wrap_outcome "setting condition" (r.set_conditions (record cond { message = message }) mg)

-- `setAvaibleStatus`
unfoldable pub set_avaible_status : Runtime → Object → String → Bool → Outcome Object
set_avaible_status r mg message force = set_condition r r.available message force mg

unfoldable pub set_gracefully_paused_condition : Runtime → Object → Bool → Outcome Object
set_gracefully_paused_condition r mg force =
    set_condition r (reconcile_gracefully_paused r) "Composition is gracefully paused." force mg

pub data ConditionType : Type 0 where
  available reconcile_gracefully_paused_type : ConditionType

pub record StatusManagerOpts : Type 0 where
  pub force : Bool
  pub chart_url : String
  pub chart_version : String
  pub resources : List MinimalMetadata
  pub previous_digest : String
  pub digest : String
  pub message : String
  pub condition_type : ConditionType

-- `setManagedResources`: a status that is not a map fails the type assertion.
unfoldable pub set_managed_resources : Object → List ManagedResource → Outcome Object
set_managed_resources mg managed = elim mg.status [
  | none ↦ ok (record mg { status = some (object (field "managed" (resources managed) end)) })
  | some null ↦ ok (record mg { status = some (object (field "managed" (resources managed) end)) })
  | some (object fields) ↦
      ok (record mg { status = some (object (set_field "managed" (resources managed) fields)) })
  | some other_value ↦ panic
]

module _ {W : Type 0} where
  -- internal/tools/dynamic/dynamic.go: a failed mapping is tried once more after a `Reset`.
  unfoldable pub remap : RestMapper W → GroupVersionKind → Error → Act W Bool
  remap m gvk e = elim m.reset [ none ↦ fail e | some reset ↦ λ w. m.rest_mapping gvk (reset w) ]

  unfoldable pub is_namespaced : Option (RestMapper W) → GroupVersionKind → Act W Bool
  unfolding remap
  is_namespaced none gvk = pure false
  is_namespaced (some m) gvk = do
    found ← attempt (m.rest_mapping gvk)
    root ← elim found [ inl r ↦ pure r | inr e ↦ remap m gvk e ]
    pure (not root)

-- The namespace that `status.managed` gets for one object of the manifest.
unfoldable pub resolve_namespace : Bool → MinimalMetadata → String → MinimalMetadata
resolve_namespace namespaced ref release_namespace =
    if not namespaced
    then set_namespace ref ""
    else if ref.namespace == ""
    then set_namespace ref release_namespace
    else ref

module _ {W : Type 0} (env : Env W) where
  -- One round of the loop.
  unfoldable pub managed_resource : String → MinimalMetadata → Act W ManagedResource
  managed_resource release_namespace ref = do
    let gvk = env.from_api_version_and_kind ref.api_version ref.kind
    gvr ←
        wrap
          ("getting GVR for "
            <> (ref.api_version
                <> ("/"
                    <> (ref.kind
                        <> (" with name " <> (ref.name <> (" and namespace " <> ref.namespace)))))))
          (env.gvk_to_gvr gvk)
    namespaced ←
        wrap
          ("getting REST mapping for "
            <> (gvk.group <> ("/" <> (gvk.version <> (", Kind=" <> gvk.kind)))))
          (is_namespaced env.mapper gvk)
    let r = resolve_namespace namespaced ref release_namespace
    pure (record {
      api_version = r.api_version;
      resource = gvr.resource;
      name = r.name;
      namespace = r.namespace;
      path = build_path gvr r.namespace r.name;
    })

  unfoldable pub populate_managed_resources :
      List MinimalMetadata → String → Act W (List ManagedResource)
  populate_managed_resources [] release_namespace = pure []
  populate_managed_resources (ref ∷ refs) release_namespace = do
    r ← managed_resource release_namespace ref
    rest ← populate_managed_resources refs release_namespace
    pure (r ∷ rest)

  -- `if len(opts.resources) > 0`
  unfoldable pub set_resources : Object → List MinimalMetadata → Act W Object
  set_resources mg [] = pure mg
  set_resources mg (r ∷ rs) = do
    managed ← wrap "populating managed resources" (populate_managed_resources (r ∷ rs) mg.namespace)
    lift (set_managed_resources mg managed)

  unfoldable pub set_final_condition : Object → StatusManagerOpts → Outcome Object
  set_final_condition mg opts = elim opts.condition_type [
    | reconcile_gracefully_paused_type ↦ set_gracefully_paused_condition env.runtime mg opts.force
    | available ↦ set_avaible_status env.runtime mg opts.message opts.force
  ]

  -- `setStatus` with options that are not nil.
  unfoldable pub set_status : Object → StatusManagerOpts → Act W Object
  set_status mg opts = do
    mg₁ ← set_resources mg opts.resources
    mg₂ ←
        wrap "setting previous digest in status"
          (lift (env.runtime.set_nested_field opts.previous_digest "previousDigest" mg₁))
    mg₃ ←
        wrap "setting digest in status"
          (lift (env.runtime.set_nested_field opts.digest "digest" mg₂))
    mg₄ ←
        wrap "setting chart URL in status"
          (lift (env.runtime.set_nested_field opts.chart_url "helmChartUrl" mg₃))
    mg₅ ←
        wrap "setting chart version in status"
          (lift (env.runtime.set_nested_field opts.chart_version "helmChartVersion" mg₄))
    lift (set_final_condition mg₅ opts)
