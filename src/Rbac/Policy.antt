-- ===== src/Rbac/Policy.antt =====
-- The steps of `ApplyRBAC`: what each leaves in the store.
use mathlib.Core.Path.{subst₂, subst}
use composition_dynamic_cont.Common.{
  String, false, Option, none, some, List, [], ◌∷◌, ◌≡◌, refl, sym, inl, inr, string_eq, arith,
  eq_iff, Bool-cases,
}
use composition_dynamic_cont.Common.Effect.{ok}
use composition_dynamic_cont.Common.Inversion.{run-cases}
use composition_dynamic_cont.Kube.{GroupVersionResource}
use composition_dynamic_cont.Rbac.{
  PolicyRule, Namespace, Role, RoleBinding, ClusterRole, ClusterRoleBinding,
}
use composition_dynamic_cont.Rbac.Client.{DynamicClient, View, IsStore, same_key, IsFaithful}
use composition_dynamic_cont.Rbac.Installer.{
  namespaces_gvr, roles_gvr, role_bindings_gvr, cluster_roles_gvr, cluster_role_bindings_gvr,
  apply_namespace, apply_role, apply_role_binding, apply_cluster_role, apply_cluster_role_binding,
  apply_namespaces, apply_pointer,
}
use composition_dynamic_cont.Rbac.Apply

module _ {W : Type 0} (c : DynamicClient W) (view : View W c.Unstructured) (S : IsStore c view)
    (role_faithful : IsFaithful c.role (λ t. t.rules))
    (cluster_role_faithful : IsFaithful c.cluster_role (λ t. t.rules)) where
  -- The role under this namespace and name has every one of the rules.
  abbrev pub RoleGrants : W → String → String → List PolicyRule → Type 0
  RoleGrants w n m rules = Apply.Grants c view S "Role" c.role roles_gvr n m (λ t. t.rules) w rules

  abbrev pub ClusterRoleGrants : W → String → List PolicyRule → Type 0
  ClusterRoleGrants w m rules =
      Apply.Grants c view S "ClusterRole" c.cluster_role cluster_roles_gvr "" m (λ t. t.rules) w
        rules

  -- No right of any role or cluster role is taken away.
  pub record Grows (w w' : W) : Type 0 where
    pub roles :
        (n m : String) (rules : List PolicyRule) → RoleGrants w n m rules → RoleGrants w' n m rules
    pub cluster_roles :
        (m : String) (rules : List PolicyRule)
        → ClusterRoleGrants w m rules
        → ClusterRoleGrants w' m rules

  pub Grows-refl : (w : W) → Grows w w
  Grows-refl w = record { roles = λ n m rules h. h; cluster_roles = λ m rules h. h }

  pub Grows-trans : {u v w : W} → Grows u v → Grows v w → Grows u w
  Grows-trans a b = record {
    roles = λ n m rules h. b.roles n m rules (a.roles n m rules h);
    cluster_roles = λ m rules h. b.cluster_roles m rules (a.cluster_roles m rules h);
  }

  -- A write under another resource takes no right away.
  Frame-Grows :
      (g : GroupVersionResource) (n m : String) {w w' : W}
      → ((n' m' : String) → same_key g roles_gvr n n' m m' ≡ false)
      → ((n' m' : String) → same_key g cluster_roles_gvr n n' m m' ≡ false)
      → ((g' : GroupVersionResource) (n' m' : String)
          → same_key g g' n n' m m' ≡ false
          → view w' g' n' m' ≡ view w g' n' m')
      → Grows w w'
  Frame-Grows g n m not_role not_cluster frame = record {
    roles = λ n' m' rules (t, u, p, q, cov).
        (t, u, rw (frame roles_gvr n' m' (not_role n' m')) p, q, cov);
    cluster_roles = λ m' rules (t, u, p, q, cov).
        (t, u, rw (frame cluster_roles_gvr "" m' (not_cluster "" m')) p, q, cov);
  }

  apply_namespace-Grows :
      (x r : Namespace) (w w' : W) → apply_namespace c x w ≡ (ok r, w') → Grows w w'
  unfolding apply_namespace
  apply_namespace-Grows x r w w' h =
      Frame-Grows namespaces_gvr "" x.name (λ n' m'. refl) (λ n' m'. refl)
        (Apply.replace_object-Frame c view S "Namespace" c.namespace namespaces_gvr "" x.name x r w
          w' h)

  pub apply_role_binding-Grows :
      (x r : RoleBinding) (w w' : W) → apply_role_binding c x w ≡ (ok r, w') → Grows w w'
  unfolding apply_role_binding
  apply_role_binding-Grows x r w w' h =
      Frame-Grows role_bindings_gvr x.namespace x.name (λ n' m'. refl) (λ n' m'. refl)
        (Apply.replace_object-Frame c view S "RoleBinding" c.role_binding role_bindings_gvr
          x.namespace x.name x r w w' h)

  pub apply_cluster_role_binding-Grows :
      (x r : ClusterRoleBinding) (w w' : W)
      → apply_cluster_role_binding c x w ≡ (ok r, w')
      → Grows w w'
  unfolding apply_cluster_role_binding
  apply_cluster_role_binding-Grows x r w w' h =
      Frame-Grows cluster_role_bindings_gvr "" x.name (λ n' m'. refl) (λ n' m'. refl)
        (Apply.replace_object-Frame c view S "ClusterRoleBinding" c.cluster_role_binding
          cluster_role_bindings_gvr "" x.name x r w w' h)

  role-Merged :
      (x r : Role) (w w' : W)
      → apply_role c x w ≡ (ok r, w')
      → Apply.Merged c view S "Role" c.role roles_gvr x.namespace x.name (λ t. t.rules) x.rules w w'
  unfolding apply_role
  role-Merged x r w w' h =
      Apply.merge_object-Merged c view S "Role" c.role roles_gvr x.namespace x.name (λ t. t.rules)
        (λ t rs. record t { rules = rs }) role_faithful (λ t rs. refl) x r w w' h

  apply_role-Grows : (x r : Role) (w w' : W) → apply_role c x w ≡ (ok r, w') → Grows w w'
  apply_role-Grows x r w w' h =
      let merged = role-Merged x r w w' h in
      record {
        roles = λ n m rules (t, u, p, q, cov).
            elim (Bool-cases (same_key roles_gvr roles_gvr x.namespace n x.name m)) [
              | inl same ↦
                  let here : x.namespace ≡ n =
                    ground (arith, eq_iff x.namespace n, eq_iff x.name m) in
                  let this : x.name ≡ m = ground (arith, eq_iff x.namespace n, eq_iff x.name m) in
                  subst₂ (λ a b. RoleGrants w' a b rules) here this
                    (merged.keeps rules (
                      subst₂ (λ a b. RoleGrants w a b rules) (sym here) (sym this)
                        (t, u, p, q, cov)))
              | inr other ↦ (t, u, rw (merged.frame roles_gvr n m other) p, q, cov)
            ];
        cluster_roles = λ m rules (t, u, p, q, cov).
            (t, u, rw (merged.frame cluster_roles_gvr "" m refl) p, q, cov);
      }

  pub cluster_role-Merged :
      (x r : ClusterRole) (w w' : W)
      → apply_cluster_role c x w ≡ (ok r, w')
      → Apply.Merged c view S "ClusterRole" c.cluster_role cluster_roles_gvr "" x.name
          (λ t. t.rules)
          x.rules
          w
          w'
  unfolding apply_cluster_role
  cluster_role-Merged x r w w' h =
      Apply.merge_object-Merged c view S "ClusterRole" c.cluster_role cluster_roles_gvr "" x.name
        (λ t. t.rules) (λ t rs. record t { rules = rs }) cluster_role_faithful (λ t rs. refl) x r w
        w' h

  pub apply_cluster_role-Grows :
      (x r : ClusterRole) (w w' : W) → apply_cluster_role c x w ≡ (ok r, w') → Grows w w'
  apply_cluster_role-Grows x r w w' h =
      let merged = cluster_role-Merged x r w w' h in
      record {
        roles =
            λ n m rules (t, u, p, q, cov). (t, u, rw (merged.frame roles_gvr n m refl) p, q, cov);
        cluster_roles = λ m rules (t, u, p, q, cov).
            elim (Bool-cases (same_key cluster_roles_gvr cluster_roles_gvr "" "" x.name m)) [
              | inl same ↦
                  let this : x.name ≡ m = (eq_iff x.name m).0 same in
                  subst (λ b. ClusterRoleGrants w' b rules) this
                    (merged.keeps rules
                      (subst (λ b. ClusterRoleGrants w b rules) (sym this) (t, u, p, q, cov)))
              | inr other ↦ (t, u, rw (merged.frame cluster_roles_gvr "" m other) p, q, cov)
            ];
      }

  pub apply_namespaces-Grows :
      (ns : List (Option Namespace)) (w w' : W) → apply_namespaces c ns w ≡ (ok tt, w') → Grows w w'
  unfolding apply_namespaces
  apply_namespaces-Grows [] w w' h = subst (Grows w) (ground arith) (Grows-refl w)
  apply_namespaces-Grows (none ∷ ns) w w' h = apply_namespaces-Grows ns w w' h
  apply_namespaces-Grows (some n ∷ ns) w w' h = elim (run-cases (apply_namespace c n w)) [
    | inl (r, w₁, done) ↦
        Grows-trans (apply_namespace-Grows n r w w₁ done)
          (apply_namespaces-Grows ns w₁ w' (ground arith))
    | inr bad ↦ absurd (ground arith)
  ]

  -- The role of an entry, where there is one, is granted.
  abbrev pub RoleGranted : W → Option Role → Type 0
  RoleGranted w none = Unit
  RoleGranted w (some r) = RoleGrants w r.namespace r.name r.rules

  abbrev pub ClusterRoleGranted : W → Option ClusterRole → Type 0
  ClusterRoleGranted w none = Unit
  ClusterRoleGranted w (some r) = ClusterRoleGrants w r.name r.rules

  pub RoleGranted-Grows :
      (r : Option Role) {w w' : W} → Grows w w' → RoleGranted w r → RoleGranted w' r
  RoleGranted-Grows none g h = tt
  RoleGranted-Grows (some r) g h = g.roles r.namespace r.name r.rules h

  pub ClusterRoleGranted-Grows :
      (r : Option ClusterRole) {w w' : W}
      → Grows w w'
      → ClusterRoleGranted w r
      → ClusterRoleGranted w' r
  ClusterRoleGranted-Grows none g h = tt
  ClusterRoleGranted-Grows (some r) g h = g.cluster_roles r.name r.rules h

  pub role_pointer :
      (p : Option Role) (w w' : W)
      → apply_pointer c p "Role" (λ r. r.name) (apply_role c) w ≡ (ok tt, w')
      → Grows w w' × RoleGranted w' p
  role_pointer none w w' h = (subst (Grows w) (ground arith) (Grows-refl w), tt)
  role_pointer (some x) w w' h = elim (run-cases (apply_role c x w)) [
    | inl (r, w₁, done) ↦
        let e : w₁ ≡ w' = ground arith in
        subst (λ v. Grows w v × RoleGrants v x.namespace x.name x.rules) e
          (apply_role-Grows x r w w₁ done, (role-Merged x r w w₁ done).grants)
    | inr bad ↦ absurd (ground arith)
  ]
