-- ===== src/Rbac/Uninstall.antt =====
-- What `UninstallRBAC` leaves in the store.
use mathlib.Core.Path.{subst}
use composition_dynamic_cont.Common.{
  String, false, Option, none, some, [], ◌∷◌, ◌≡◌, refl, ◌∙◌, inl, inr, ◌⊎◌, ◌==◌, string_eq, arith,
  All, Bool-cases,
}
use composition_dynamic_cont.Common.Dict.{Dict}
use composition_dynamic_cont.Common.Effect.{ok}
use composition_dynamic_cont.Common.Inversion.{run-cases, wrap_result-eq-ok}
use composition_dynamic_cont.Kube.{GroupVersionResource}
use composition_dynamic_cont.Rbac.{Namespaced, Rbac}
use composition_dynamic_cont.Rbac.Client.{DynamicClient, View, IsStore, same_key, Stored}
use composition_dynamic_cont.Rbac.Installer.{
  rbac_resource, roles_gvr, role_bindings_gvr, cluster_roles_gvr, cluster_role_bindings_gvr,
  delete_object, delete_role, delete_role_binding, delete_cluster_role, delete_cluster_role_binding,
  delete_namespaced, delete_pointer, uninstall_rbac,
}
use composition_dynamic_cont.Rbac.Apply.{same_key_refl}

module _ {W : Type 0} (c : DynamicClient W) (view : View W c.Unstructured)
    (S : IsStore c view) where
  abbrev pub Gone : W → GroupVersionResource → String → String → Type 0
  Gone w g n m = view w g n m ≡ none

  -- Nothing is written: what is stored under a key is deleted, or kept as it was. Outside the four
  -- resources of RBAC everything is kept.
  pub record Shrinks (w w' : W) : Type 0 where
    pub keeps :
        (g : GroupVersionResource) (n m : String) → Gone w' g n m ⊎ (view w' g n m ≡ view w g n m)
    pub others :
        (g : GroupVersionResource) (n m : String)
        → ("rbac.authorization.k8s.io" == g.group) ≡ false
        → view w' g n m ≡ view w g n m

  Shrinks-refl : (w : W) → Shrinks w w
  Shrinks-refl w = record { keeps = λ g n m. inr refl; others = λ g n m h. refl }

  Shrinks-trans : {u v w : W} → Shrinks u v → Shrinks v w → Shrinks u w
  Shrinks-trans a b = record {
    keeps = λ g n m. elim (b.keeps g n m) [
      | inl gone ↦ inl gone
      | inr same ↦ elim (a.keeps g n m) [ inl gone ↦ inl (same ∙ gone) | inr e ↦ inr (same ∙ e) ]
    ];
    others = λ g n m h. b.others g n m h ∙ a.others g n m h;
  }

  Gone-Shrinks :
      {w w' : W} (g : GroupVersionResource) (n m : String)
      → Shrinks w w'
      → Gone w g n m
      → Gone w' g n m
  Gone-Shrinks g n m s h = elim (s.keeps g n m) [ inl gone ↦ gone | inr e ↦ e ∙ h ]

  -- A deletion that returned: the key is gone.
  abbrev pub Deleted : GroupVersionResource → String → String → W → W → Type 0
  Deleted g n m w w' = Shrinks w w' × Gone w' g n m

  Stored-Deleted :
      (plural n m : String) {w w' : W}
      → Stored view (rbac_resource plural) n m w none w'
      → Deleted (rbac_resource plural) n m w w'
  Stored-Deleted plural n m st = (
    record {
      keeps = λ g' n' m'. elim (Bool-cases (same_key (rbac_resource plural) g' n n' m m')) [
        | inl same ↦ inl (st.at g' n' m' ∙ rw same)
        | inr other ↦ inr (st.at g' n' m' ∙ rw other)
      ];
      others = λ g' n' m' h. st.at g' n' m' ∙ rw h;
    },
    st.at (rbac_resource plural) n m ∙ rw (same_key_refl (rbac_resource plural) n m),
  )

  delete_object-Deleted :
      (what plural n m : String) (w w' : W)
      → delete_object c what (rbac_resource plural) n m w ≡ (ok tt, w')
      → Deleted (rbac_resource plural) n m w w'
  unfolding delete_object
  delete_object-Deleted what plural n m w w' h = elim (S.delete_lem (rbac_resource plural) n m w) [
    | inl (e, nf, did) ↦ absurd (ground arith)
    | inr (inl (e, nf, absent, did)) ↦
        subst (Deleted (rbac_resource plural) n m w) (ground arith) (Shrinks-refl w, absent)
    | inr (inr (w₁, did, st)) ↦
        subst (Deleted (rbac_resource plural) n m w) (ground arith) (Stored-Deleted plural n m st)
  ]

  -- A pointer of the policy: nil, or an object whose key is gone.
  abbrev pub PointerGone :
      {T : Type 0} → W → GroupVersionResource → (T → String) → (T → String) → Option T → Type 0
  PointerGone w g namespace name none = Unit
  PointerGone w g namespace name (some t) = Gone w g (namespace t) (name t)

  PointerGone-Shrinks :
      {T : Type 0} {w w' : W} (g : GroupVersionResource) (namespace name : T → String)
      (p : Option T)
      → Shrinks w w'
      → PointerGone w g namespace name p
      → PointerGone w' g namespace name p
  PointerGone-Shrinks g namespace name none s h = tt
  PointerGone-Shrinks g namespace name (some t) s h = Gone-Shrinks g (namespace t) (name t) s h

  delete_pointer-Deleted :
      {T : Type 0} (what plural : String) (namespace name : T → String) (p : Option T) (w w' : W)
      → delete_pointer c p what
          (λ t. delete_object c what (rbac_resource plural) (namespace t) (name t))
          w
        ≡ (ok tt, w')
      → Shrinks w w' × PointerGone w' (rbac_resource plural) namespace name p
  delete_pointer-Deleted what plural namespace name none w w' h =
      (subst (Shrinks w) (ground arith) (Shrinks-refl w), tt)
  delete_pointer-Deleted what plural namespace name (some t) w w' h =
      delete_object-Deleted what plural (namespace t) (name t) w w' (
        wrap_result-eq-ok _ _ (delete_object c what (rbac_resource plural) (namespace t) (name t) w)
          h)

  -- The role and the binding of every entry of the map are gone.
  abbrev pub NamespacedGone : W → Dict Namespaced → Type 0
  NamespacedGone w = All λ e.
      PointerGone w roles_gvr (λ r. r.namespace) (λ r. r.name) e.1.role
      × PointerGone w role_bindings_gvr (λ b. b.namespace) (λ b. b.name) e.1.role_binding

  delete_namespaced-Gone :
      (d : Dict Namespaced) (w w' : W)
      → delete_namespaced c d w ≡ (ok tt, w')
      → Shrinks w w' × NamespacedGone w' d
  unfolding delete_namespaced delete_role delete_role_binding
  delete_namespaced-Gone [] w w' h = (subst (Shrinks w) (ground arith) (Shrinks-refl w), tt)
  delete_namespaced-Gone ((k, ns) ∷ d) w w' h =
      elim (run-cases (delete_pointer c ns.role "Role" (λ r. delete_role c r.namespace r.name) w)) [
        | inl (_, w₁, done₁) ↦
            elim (run-cases (
              delete_pointer c ns.role_binding "RoleBinding"
                (λ b. delete_role_binding c b.namespace b.name) w₁)) [
                  | inl (_, w₂, done₂) ↦
                      let (s₁, gone₁) =
                        delete_pointer-Deleted "Role" "roles" (λ r. r.namespace) (λ r. r.name)
                          ns.role w w₁ done₁ in
                      let (s₂, gone₂) =
                        delete_pointer-Deleted "RoleBinding" "rolebindings" (λ b. b.namespace)
                          (λ b. b.name) ns.role_binding w₁ w₂ done₂ in
                      let (s₃, rest) = delete_namespaced-Gone d w₂ w' (ground arith) in
                      (
                        Shrinks-trans s₁ (Shrinks-trans s₂ s₃),
                        (
                          (
                            PointerGone-Shrinks roles_gvr _ _ ns.role (Shrinks-trans s₂ s₃) gone₁,
                            PointerGone-Shrinks role_bindings_gvr _ _ ns.role_binding s₃ gone₂,
                          ),
                          rest,
                        ),
                      )
                  | inr bad ↦ absurd (ground arith)
                ]
        | inr bad ↦ absurd (ground arith)
      ]

  -- Over a store without other writers, whose calls may fail at any time: if `UninstallRBAC` returns
  -- without an error, every role, role binding, cluster role and cluster role binding of the policy
  -- is gone, nothing new is stored under any key, and what lies outside the RBAC group, the
  -- namespaces among it, is untouched. Objects that were gone before are no error, and the order in
  -- which the namespaces are visited does not matter.
  pub uninstall_rbac-Gone :
      (rbac : Rbac) (w w' : W)
      → uninstall_rbac c (some rbac) w ≡ (ok tt, w')
      → NamespacedGone w' rbac.namespaced
        × PointerGone w' cluster_roles_gvr (λ _. "") (λ r. r.name) rbac.cluster_role
        × PointerGone w' cluster_role_bindings_gvr (λ _. "") (λ b. b.name) rbac.cluster_role_binding
        × Shrinks w w'
  unfolding uninstall_rbac delete_cluster_role delete_cluster_role_binding
  uninstall_rbac-Gone rbac w w' h =
      elim (run-cases
        (delete_pointer c rbac.cluster_role "ClusterRole" (λ r. delete_cluster_role c r.name) w)) [
          | inl (_, w₁, done₁) ↦
              elim (run-cases (
                delete_pointer c rbac.cluster_role_binding "ClusterRoleBinding"
                  (λ b. delete_cluster_role_binding c b.name) w₁)) [
                    | inl (_, w₂, done₂) ↦
                        let (s₁, gone₁) =
                          delete_pointer-Deleted "ClusterRole" "clusterroles" (λ _. "")
                            (λ r. r.name) rbac.cluster_role w w₁ done₁ in
                        let (s₂, gone₂) =
                          delete_pointer-Deleted "ClusterRoleBinding" "clusterrolebindings"
                            (λ _. "") (λ b. b.name) rbac.cluster_role_binding w₁ w₂ done₂ in
                        let (s₃, rest) =
                          delete_namespaced-Gone rbac.namespaced w₂ w' (ground arith) in
                        (
                          rest,
                          PointerGone-Shrinks cluster_roles_gvr _ _ rbac.cluster_role
                              (Shrinks-trans s₂ s₃) gone₁,
                          PointerGone-Shrinks cluster_role_bindings_gvr _ _
                              rbac.cluster_role_binding s₃ gone₂,
                          Shrinks-trans s₁ (Shrinks-trans s₂ s₃),
                        )
                    | inr bad ↦ absurd (ground arith)
                  ]
          | inr bad ↦ absurd (ground arith)
        ]
