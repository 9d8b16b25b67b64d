-- ===== src/Rbac/Installer.antt =====
-- internal/tools/rbac/installer.go
use composition_dynamic_cont.Common.{
  String, ◌<>◌, Bool, true, false, not, Option, none, some, List, [], ◌∷◌, ◌++◌, inl, inr,
  if◌then◌else◌,
}
use composition_dynamic_cont.Common.Dict.{Dict}
use composition_dynamic_cont.Common.Effect.{
  failed, wrap_error, is_not_found, Act, pure, fail, lift, wrap, wrap_around, attempt, ◌>>=◌,
}
use composition_dynamic_cont.Kube.{GroupVersionResource}
use composition_dynamic_cont.Rbac.{
  PolicyRule, rule_beq, Namespace, Role, RoleBinding, ClusterRole, ClusterRoleBinding, Namespaced,
  Rbac,
}
use composition_dynamic_cont.Rbac.Client.{Codec, DynamicClient}

abbrev pub rbac_resource : String → GroupVersionResource
rbac_resource plural = record {
  group = "rbac.authorization.k8s.io";
  version = "v1";
  resource = plural;
}

abbrev pub namespaces_gvr : GroupVersionResource
namespaces_gvr = record { group = ""; version = "v1"; resource = "namespaces" }

abbrev pub roles_gvr : GroupVersionResource
roles_gvr = rbac_resource "roles"

abbrev pub role_bindings_gvr : GroupVersionResource
role_bindings_gvr = rbac_resource "rolebindings"

abbrev pub cluster_roles_gvr : GroupVersionResource
cluster_roles_gvr = rbac_resource "clusterroles"

abbrev pub cluster_role_bindings_gvr : GroupVersionResource
cluster_role_bindings_gvr = rbac_resource "clusterrolebindings"

-- `ruleExists`
unfoldable pub rule_exists : List PolicyRule → PolicyRule → Bool
rule_exists [] target = false
rule_exists (rule ∷ rules) target = if rule_beq rule target then true else rule_exists rules target

-- The loop over the wanted rules: the rules of the existing role, and whether one was added.
unfoldable pub merge_rules : List PolicyRule → Bool → List PolicyRule → List PolicyRule × Bool
merge_rules existing modified [] = (existing, modified)
merge_rules existing modified (rule ∷ rules) =
    let present = merge_rules existing modified rules in
    let added = merge_rules (existing ++ rule ∷ []) true rules in
    if rule_exists existing rule then present else added

module _ {W : Type 0} (c : DynamicClient W) where
  -- `Create`, and the conversion of what it returns.
  unfoldable pub create_object :
      {T : Type 0}
      → String
      → Codec c.Unstructured T
      → GroupVersionResource
      → String
      → String
      → c.Unstructured
      → Act W T
  create_object what codec gvr ns name u = do
    res ← wrap ("failed to Create " <> what) (c.create gvr ns name u)
    wrap ("failed to convert unstructured to " <> what) (lift (codec.from_unstructured res))

  unfoldable pub update_object :
      {T : Type 0}
      → String
      → Codec c.Unstructured T
      → GroupVersionResource
      → String
      → String
      → c.Unstructured
      → Act W T
  update_object what codec gvr ns name u = do
    res ← wrap ("failed to Update " <> what) (c.update gvr ns name u)
    wrap ("failed to convert unstructured to " <> what) (lift (codec.from_unstructured res))

  -- `Get`, then `Create` if the object is not found, and `Update` if it is.
  unfoldable pub replace_object :
      {T : Type 0}
      → String
      → Codec c.Unstructured T
      → GroupVersionResource
      → String
      → String
      → T
      → Act W T
  replace_object what codec gvr ns name t = do
    u ← wrap ("failed to convert " <> (what <> " to unstructured")) (lift (codec.to_unstructured t))
    found ← attempt (c.get gvr ns name)
    elim found [
      | inl _ ↦ update_object what codec gvr ns name u
      | inr e ↦
          if is_not_found e
          then create_object what codec gvr ns name u
          else fail (wrap_error ("failed to Get " <> what) e)
    ]

  -- `Get`, then `Create` if the object is not found. Otherwise the rules that the stored object
  -- lacks are added to it, and it is updated if there are any.
  unfoldable pub merge_object :
      {T : Type 0}
      → String
      → Codec c.Unstructured T
      → (T → List PolicyRule)
      → (T → List PolicyRule → T)
      → GroupVersionResource
      → String
      → String
      → T
      → Act W T
  merge_object what codec rules with_rules gvr ns name t = do
    u ← wrap ("failed to convert " <> (what <> " to unstructured")) (lift (codec.to_unstructured t))
    found ← attempt (c.get gvr ns name)
    elim found [
      | inr e ↦
          if is_not_found e
          then create_object what codec gvr ns name u
          else fail (wrap_error ("failed to Get " <> what) e)
      | inl stored ↦ do
        existing ←
            wrap ("failed to convert unstructured to " <> what)
              (lift (codec.from_unstructured stored))
        let (merged, modified) = merge_rules (rules existing) false (rules t)
        if not modified then pure existing else do
          m ←
              wrap ("failed to convert " <> (what <> " to unstructured"))
                (lift (codec.to_unstructured (with_rules existing merged)))
          update_object what codec gvr ns name m
    ]

  unfoldable pub apply_namespace : Namespace → Act W Namespace
  apply_namespace n = replace_object "Namespace" c.namespace namespaces_gvr "" n.name n

  unfoldable pub apply_role : Role → Act W Role
  apply_role r =
      merge_object "Role" c.role (λ t. t.rules) (λ t rules. record t { rules = rules }) roles_gvr
        r.namespace r.name r

  unfoldable pub apply_role_binding : RoleBinding → Act W RoleBinding
  apply_role_binding b =
      replace_object "RoleBinding" c.role_binding role_bindings_gvr b.namespace b.name b

  unfoldable pub apply_cluster_role : ClusterRole → Act W ClusterRole
  apply_cluster_role r =
      merge_object "ClusterRole" c.cluster_role (λ t. t.rules)
        (λ t rules. record t { rules = rules }) cluster_roles_gvr "" r.name r

  unfoldable pub apply_cluster_role_binding : ClusterRoleBinding → Act W ClusterRoleBinding
  apply_cluster_role_binding b =
      replace_object "ClusterRoleBinding" c.cluster_role_binding cluster_role_bindings_gvr "" b.name
        b

  unfoldable pub apply_namespaces : List (Option Namespace) → Act W (Unit {0})
  apply_namespaces [] = pure tt
  apply_namespaces (none ∷ ns) = apply_namespaces ns
  apply_namespaces (some n ∷ ns) = do
    _ ← wrap ("failed to Apply Namespace " <> n.name) (apply_namespace n)
    apply_namespaces ns

  -- `if p != nil { if _, err := apply(p); err != nil { return ... } }`
  abbrev pub apply_pointer :
      {T : Type 0} → Option T → String → (T → String) → (T → Act W T) → Act W (Unit {0})
  apply_pointer none what name apply = pure tt
  apply_pointer (some t) what name apply = do
    _ ← wrap_around ("failed to Apply " <> (what <> ": ")) (" - name: " <> name t) (apply t)
    pure tt

  unfoldable pub apply_namespaced : Dict Namespaced → Act W (Unit {0})
  apply_namespaced [] = pure tt
  apply_namespaced ((_, ns) ∷ rest) = do
    _ ← apply_pointer ns.role "Role" (λ r. r.name) apply_role
    _ ← apply_pointer ns.role_binding "RoleBinding" (λ b. b.name) apply_role_binding
    apply_namespaced rest

  unfoldable pub apply_rbac : Option Rbac → Act W (Unit {0})
  apply_rbac none = fail (failed "RBAC cannot be nil")
  apply_rbac (some rbac) = do
    _ ← apply_namespaces rbac.namespaces
    _ ← apply_pointer rbac.cluster_role "ClusterRole" (λ r. r.name) apply_cluster_role
    _ ←
        apply_pointer rbac.cluster_role_binding "ClusterRoleBinding" (λ b. b.name)
          apply_cluster_role_binding
    apply_namespaced rbac.namespaced

  -- `if err != nil && !errors.IsNotFound(err)`: an object that is gone already is no error.
  unfoldable pub delete_object : String → GroupVersionResource → String → String → Act W (Unit {0})
  delete_object what gvr ns name = do
    res ← attempt (c.delete gvr ns name)
    elim res [
      | inl _ ↦ pure tt
      | inr e ↦
          if is_not_found e then pure tt else fail (wrap_error ("failed to Delete " <> what) e)
    ]

  unfoldable pub delete_role : String → String → Act W (Unit {0})
  delete_role ns name = delete_object "Role" roles_gvr ns name

  unfoldable pub delete_role_binding : String → String → Act W (Unit {0})
  delete_role_binding ns name = delete_object "RoleBinding" role_bindings_gvr ns name

  unfoldable pub delete_cluster_role : String → Act W (Unit {0})
  delete_cluster_role name = delete_object "ClusterRole" cluster_roles_gvr "" name

  unfoldable pub delete_cluster_role_binding : String → Act W (Unit {0})
  delete_cluster_role_binding name =
      delete_object "ClusterRoleBinding" cluster_role_bindings_gvr "" name

  abbrev pub delete_pointer :
      {T : Type 0} → Option T → String → (T → Act W (Unit {0})) → Act W (Unit {0})
  delete_pointer none what delete = pure tt
  delete_pointer (some t) what delete = wrap ("failed to Delete " <> what) (delete t)

  unfoldable pub delete_namespaced : Dict Namespaced → Act W (Unit {0})
  delete_namespaced [] = pure tt
  delete_namespaced ((_, ns) ∷ rest) = do
    _ ← delete_pointer ns.role "Role" (λ r. delete_role r.namespace r.name)
    _ ← delete_pointer ns.role_binding "RoleBinding" (λ b. delete_role_binding b.namespace b.name)
    delete_namespaced rest

  unfoldable pub uninstall_rbac : Option Rbac → Act W (Unit {0})
  uninstall_rbac none = fail (failed "RBAC cannot be nil")
  uninstall_rbac (some rbac) = do
    _ ← delete_pointer rbac.cluster_role "ClusterRole" (λ r. delete_cluster_role r.name)
    _ ←
        delete_pointer rbac.cluster_role_binding "ClusterRoleBinding"
          (λ b. delete_cluster_role_binding b.name)
    delete_namespaced rbac.namespaced
