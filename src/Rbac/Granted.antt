-- ===== src/Rbac/Granted.antt =====
-- `ApplyRBAC` over a whole policy.
use mathlib.Core.Path.{subst}
use composition_dynamic_cont.Common.{Option, none, some, [], ◌∷◌, ◌≡◌, inl, inr, arith, All}
use composition_dynamic_cont.Common.Dict.{Dict}
use composition_dynamic_cont.Common.Effect.{ok}
use composition_dynamic_cont.Common.Inversion.{run-cases}
use composition_dynamic_cont.Rbac.{
  Role, RoleBinding, ClusterRole, ClusterRoleBinding, Namespaced, Rbac,
}
use composition_dynamic_cont.Rbac.Client.{DynamicClient, View, IsStore, IsFaithful}
use composition_dynamic_cont.Rbac.Installer.{
  apply_role, apply_role_binding, apply_cluster_role, apply_cluster_role_binding, apply_namespaces,
  apply_namespaced, apply_pointer, apply_rbac,
}
use composition_dynamic_cont.Rbac.Policy

module _ {W : Type 0} (c : DynamicClient W) (view : View W c.Unstructured) (S : IsStore c view)
    (role_faithful : IsFaithful c.role (λ t. t.rules))
    (cluster_role_faithful : IsFaithful c.cluster_role (λ t. t.rules)) where
  abbrev pub Grows : W → W → Type 0
  Grows = Policy.Grows c view S role_faithful cluster_role_faithful

  abbrev pub RoleGranted : W → Option Role → Type 0
  RoleGranted = Policy.RoleGranted c view S role_faithful cluster_role_faithful

  abbrev pub ClusterRoleGranted : W → Option ClusterRole → Type 0
  ClusterRoleGranted = Policy.ClusterRoleGranted c view S role_faithful cluster_role_faithful

  here : (w : W) → Grows w w
  here = Policy.Grows-refl c view S role_faithful cluster_role_faithful

  chain : {u v w : W} → Grows u v → Grows v w → Grows u w
  chain = Policy.Grows-trans c view S role_faithful cluster_role_faithful

  binding_pointer :
      (p : Option RoleBinding) (w w' : W)
      → apply_pointer c p "RoleBinding" (λ b. b.name) (apply_role_binding c) w ≡ (ok tt, w')
      → Grows w w'
  binding_pointer none w w' h = subst (Grows w) (ground arith) (here w)
  binding_pointer (some x) w w' h = elim (run-cases (apply_role_binding c x w)) [
    | inl (r, w₁, done) ↦
        subst (Grows w) (ground arith) (
          Policy.apply_role_binding-Grows c view S role_faithful cluster_role_faithful x r w w₁
            done)
    | inr bad ↦ absurd (ground arith)
  ]

  cluster_binding_pointer :
      (p : Option ClusterRoleBinding) (w w' : W)
      → apply_pointer c p "ClusterRoleBinding" (λ b. b.name) (apply_cluster_role_binding c) w
        ≡ (ok tt, w')
      → Grows w w'
  cluster_binding_pointer none w w' h = subst (Grows w) (ground arith) (here w)
  cluster_binding_pointer (some x) w w' h = elim (run-cases (apply_cluster_role_binding c x w)) [
    | inl (r, w₁, done) ↦ subst (Grows w) (ground arith) (
        Policy.apply_cluster_role_binding-Grows c view S role_faithful cluster_role_faithful x r w
          w₁ done)
    | inr bad ↦ absurd (ground arith)
  ]

  cluster_role_pointer :
      (p : Option ClusterRole) (w w' : W)
      → apply_pointer c p "ClusterRole" (λ r. r.name) (apply_cluster_role c) w ≡ (ok tt, w')
      → Grows w w' × ClusterRoleGranted w' p
  cluster_role_pointer none w w' h = (subst (Grows w) (ground arith) (here w), tt)
  cluster_role_pointer (some x) w w' h = elim (run-cases (apply_cluster_role c x w)) [
    | inl (r, w₁, done) ↦
        let e : w₁ ≡ w' = ground arith in
        subst (λ v. Grows w v × ClusterRoleGranted v (some x)) e
          (
            Policy.apply_cluster_role-Grows c view S role_faithful cluster_role_faithful x r w w₁
                done,
            (Policy.cluster_role-Merged c view S role_faithful cluster_role_faithful x r w w₁
                done).grants,
          )
    | inr bad ↦ absurd (ground arith)
  ]

  -- Every role of the map is granted.
  abbrev pub NamespacedGranted : W → Dict Namespaced → Type 0
  NamespacedGranted w = All (λ e. RoleGranted w e.1.role)

  apply_namespaced-Granted :
      (d : Dict Namespaced) (w w' : W)
      → apply_namespaced c d w ≡ (ok tt, w')
      → Grows w w' × NamespacedGranted w' d
  unfolding apply_namespaced
  apply_namespaced-Granted [] w w' h = (subst (Grows w) (ground arith) (here w), tt)
  apply_namespaced-Granted ((k, ns) ∷ d) w w' h =
      elim (run-cases (apply_pointer c ns.role "Role" (λ r. r.name) (apply_role c) w)) [
        | inl (_, w₁, done₁) ↦
            elim (run-cases (
              apply_pointer c ns.role_binding "RoleBinding" (λ b. b.name) (apply_role_binding c)
                w₁)) [
                  | inl (_, w₂, done₂) ↦
                      let (g₁, granted) =
                        Policy.role_pointer c view S role_faithful cluster_role_faithful ns.role w
                          w₁ done₁ in
                      let g₂ = binding_pointer ns.role_binding w₁ w₂ done₂ in
                      let (g₃, rest) = apply_namespaced-Granted d w₂ w' (ground arith) in
                      (
                        chain g₁ (chain g₂ g₃),
                        (
                          Policy.RoleGranted-Grows c view S role_faithful cluster_role_faithful
                              ns.role (chain g₂ g₃) granted,
                          rest,
                        ),
                      )
                  | inr bad ↦ absurd (ground arith)
                ]
        | inr bad ↦ absurd (ground arith)
      ]

  -- Over a store without other writers, whose calls may fail at any time, and with a conversion of
  -- roles and cluster roles that reads back the rules it has written, but for empty lists that it
  -- omits: if `ApplyRBAC` returns without an error, every role of the policy, in every namespace, and
  -- its cluster role are stored with all the rules that the policy wants, and no role or cluster role
  -- of the store, of this policy or not, has lost a rule. An empty list in a rule counts as none.
  -- This holds for every order in which the namespaces are visited.
  pub apply_rbac-Granted :
      (rbac : Rbac) (w w' : W)
      → apply_rbac c (some rbac) w ≡ (ok tt, w')
      → NamespacedGranted w' rbac.namespaced × ClusterRoleGranted w' rbac.cluster_role × Grows w w'
  unfolding apply_rbac
  apply_rbac-Granted rbac w w' h = elim (run-cases (apply_namespaces c rbac.namespaces w)) [
    | inl (_, w₁, done₁) ↦
        elim (run-cases (
          apply_pointer c rbac.cluster_role "ClusterRole" (λ r. r.name) (apply_cluster_role c)
            w₁)) [
              | inl (_, w₂, done₂) ↦
                  elim (run-cases (
                    apply_pointer c rbac.cluster_role_binding "ClusterRoleBinding" (λ b. b.name)
                      (apply_cluster_role_binding c) w₂)) [
                        | inl (_, w₃, done₃) ↦
                            let g₁ =
                              Policy.apply_namespaces-Grows c view S role_faithful
                                cluster_role_faithful rbac.namespaces w w₁ done₁ in
                            let (g₂, granted) =
                              cluster_role_pointer rbac.cluster_role w₁ w₂ done₂ in
                            let g₃ =
                              cluster_binding_pointer rbac.cluster_role_binding w₂ w₃ done₃ in
                            let (g₄, rest) =
                              apply_namespaced-Granted rbac.namespaced w₃ w' (ground arith) in
                            (
                              rest,
                              Policy.ClusterRoleGranted-Grows c view S role_faithful
                                  cluster_role_faithful rbac.cluster_role (chain g₃ g₄) granted,
                              chain g₁ (chain g₂ (chain g₃ g₄)),
                            )
                        | inr bad ↦ absurd (ground arith)
                      ]
              | inr bad ↦ absurd (ground arith)
            ]
    | inr bad ↦ absurd (ground arith)
  ]
