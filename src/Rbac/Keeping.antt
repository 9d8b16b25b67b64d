-- ===== src/Rbac/Keeping.antt =====
-- Properties of the world through `UninstallRBAC` of internal/tools/rbac/installer.go.
use composition_dynamic_cont.Common.{
  String, ◌<>◌, Option, none, some, [], ◌∷◌, ◌⊎◌, inl, inr, if◌then◌else◌,
}
use composition_dynamic_cont.Common.Dict.{Dict}
use composition_dynamic_cont.Common.Effect.{
  Error, wrap_error, is_not_found, Act, pure, fail, attempt, ◌>>=◌,
}
use composition_dynamic_cont.Common.Keeps.{Keeps, Keeps-bind, Keeps-wrap, Keeps-attempt, Keeps-if}
use composition_dynamic_cont.Kube.{GroupVersionResource}
use composition_dynamic_cont.Rbac.{
  Role, RoleBinding, ClusterRole, ClusterRoleBinding, Namespaced, Rbac,
}
use composition_dynamic_cont.Rbac.Client.{DynamicClient}
use composition_dynamic_cont.Rbac.Installer.{
  roles_gvr, role_bindings_gvr, cluster_roles_gvr, cluster_role_bindings_gvr, delete_object,
  delete_role, delete_role_binding, delete_cluster_role, delete_cluster_role_binding,
  delete_pointer, delete_namespaced, uninstall_rbac,
}

module _ {W : Type 0} (P : W → Type 0) (c : DynamicClient W)
    (kept : (g : GroupVersionResource) (ns name : String) → Keeps P (c.delete g ns name)) where
  -- How a deletion goes on once its result is known.
  tolerate : String → Unit {0} ⊎ Error → Act W (Unit {0})
  tolerate what res = elim res [
    | inl _ ↦ pure tt
    | inr e ↦ if is_not_found e then pure tt else fail (wrap_error ("failed to Delete " <> what) e)
  ]

  delete_object-Keeps :
      (what : String) (g : GroupVersionResource) (ns name : String)
      → Keeps P (delete_object c what g ns name)
  unfolding delete_object tolerate
  delete_object-Keeps what g ns name =
      Keeps-bind P (attempt (c.delete g ns name)) (tolerate what)
        (Keeps-attempt P _ (kept g ns name))
        λ res. elim res as (λ r. Keeps P (tolerate what r)) [
          | inl _ ↦ λ w p. p
          | inr e ↦ Keeps-if P (is_not_found e) _ _ (λ w p. p) (λ w p. p)
        ]

  delete_pointer-Keeps :
      {T : Type 0} (t : Option T) (what : String) (delete : T → Act W (Unit {0}))
      → ((x : T) → Keeps P (delete x))
      → Keeps P (delete_pointer c t what delete)
  delete_pointer-Keeps none what delete h = λ w p. p
  delete_pointer-Keeps (some t) what delete h = Keeps-wrap P _ (delete t) (h t)

  delete_namespaced-Keeps : (d : Dict Namespaced) → Keeps P (delete_namespaced c d)
  unfolding delete_namespaced delete_role delete_role_binding
  delete_namespaced-Keeps [] = λ w p. p
  delete_namespaced-Keeps ((k, ns) ∷ d) =
      let delete₁ = λ (r : Role). delete_role c r.namespace r.name in
      let delete₂ = λ (b : RoleBinding). delete_role_binding c b.namespace b.name in
      let step₁ = delete_pointer c ns.role "Role" delete₁ in
      let step₂ = delete_pointer c ns.role_binding "RoleBinding" delete₂ in
      Keeps-bind P step₁ (λ _. step₂ >>= λ _. delete_namespaced c d)
        (delete_pointer-Keeps ns.role "Role" delete₁
          (λ r. delete_object-Keeps "Role" roles_gvr r.namespace r.name))
        (λ _.
          Keeps-bind P step₂ (λ _. delete_namespaced c d)
            (delete_pointer-Keeps ns.role_binding "RoleBinding" delete₂
              (λ b. delete_object-Keeps "RoleBinding" role_bindings_gvr b.namespace b.name))
            (λ _. delete_namespaced-Keeps d))

  -- A property that the client's `Delete` keeps is kept by `UninstallRBAC`, however it ends.
  pub uninstall_rbac-Keeps : (rbac : Option Rbac) → Keeps P (uninstall_rbac c rbac)
  unfolding uninstall_rbac delete_cluster_role delete_cluster_role_binding
  uninstall_rbac-Keeps none = λ w p. p
  uninstall_rbac-Keeps (some rbac) =
      let delete₁ = λ (r : ClusterRole). delete_cluster_role c r.name in
      let delete₂ = λ (b : ClusterRoleBinding). delete_cluster_role_binding c b.name in
      let step₁ = delete_pointer c rbac.cluster_role "ClusterRole" delete₁ in
      let step₂ = delete_pointer c rbac.cluster_role_binding "ClusterRoleBinding" delete₂ in
      Keeps-bind P step₁ (λ _. step₂ >>= λ _. delete_namespaced c rbac.namespaced)
        (delete_pointer-Keeps rbac.cluster_role "ClusterRole" delete₁
          (λ r. delete_object-Keeps "ClusterRole" cluster_roles_gvr "" r.name))
        (λ _.
          Keeps-bind P step₂ (λ _. delete_namespaced c rbac.namespaced)
            (delete_pointer-Keeps rbac.cluster_role_binding "ClusterRoleBinding" delete₂
              (λ b. delete_object-Keeps "ClusterRoleBinding" cluster_role_bindings_gvr "" b.name))
            (λ _. delete_namespaced-Keeps rbac.namespaced))
