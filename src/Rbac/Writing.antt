-- ===== src/Rbac/Writing.antt =====
-- Properties of the world through `ApplyRBAC` of internal/tools/rbac/installer.go.
use composition_dynamic_cont.Common.{
  String, ◌<>◌, false, not, Option, none, some, List, [], ◌∷◌, inl, inr, if◌then◌else◌,
}
use composition_dynamic_cont.Common.Dict.{Dict}
use composition_dynamic_cont.Common.Effect.{
  Error, wrap_error, is_not_found, Act, pure, fail, lift, wrap, ◌>>=◌,
}
use composition_dynamic_cont.Common.Preserves.{
  Preserves, Preserves-bind, Preserves-pure, Preserves-fail, Preserves-wrap, Preserves-wrap_around,
  Preserves-wrap-lift, Preserves-attempt, Preserves-if,
}
use composition_dynamic_cont.Kube.{GroupVersionResource}
use composition_dynamic_cont.Rbac.{
  PolicyRule, Namespace, Role, RoleBinding, ClusterRole, ClusterRoleBinding, Namespaced, Rbac,
}
use composition_dynamic_cont.Rbac.Client.{Codec, DynamicClient}
use composition_dynamic_cont.Rbac.Installer.{
  namespaces_gvr, roles_gvr, role_bindings_gvr, cluster_roles_gvr, cluster_role_bindings_gvr,
  merge_rules, create_object, update_object, replace_object, merge_object, apply_namespace,
  apply_role, apply_role_binding, apply_cluster_role, apply_cluster_role_binding, apply_namespaces,
  apply_pointer, apply_namespaced, apply_rbac,
}

module _ {W : Type 0} (P : W → Type 0) (c : DynamicClient W) where
  -- The three calls that `ApplyRBAC` makes.
  pub record Writes : Type 0 where
    pub got : (g : GroupVersionResource) (ns name : String) → Preserves P (c.get g ns name)
    pub created :
        (g : GroupVersionResource) (ns name : String) (u : c.Unstructured)
        → Preserves P (c.create g ns name u)
    pub updated :
        (g : GroupVersionResource) (ns name : String) (u : c.Unstructured)
        → Preserves P (c.update g ns name u)

  module _ (K : Writes) where
    module _ {T : Type 0} (what : String) (codec : Codec c.Unstructured T)
        (g : GroupVersionResource) (ns name : String) where
      create_object-Preserves :
          (u : c.Unstructured) → Preserves P (create_object c what codec g ns name u)
      unfolding create_object
      create_object-Preserves u =
          Preserves-bind (Preserves-wrap _ (K.created g ns name u))
            (λ res. Preserves-wrap-lift _ (codec.from_unstructured res))

      update_object-Preserves :
          (u : c.Unstructured) → Preserves P (update_object c what codec g ns name u)
      unfolding update_object
      update_object-Preserves u =
          Preserves-bind (Preserves-wrap _ (K.updated g ns name u))
            (λ res. Preserves-wrap-lift _ (codec.from_unstructured res))

      or_create : c.Unstructured → Error → Act W T
      or_create u e =
          if is_not_found e
          then create_object c what codec g ns name u
          else fail (wrap_error ("failed to Get " <> what) e)

      or_create-Preserves : (u : c.Unstructured) (e : Error) → Preserves P (or_create u e)
      unfolding or_create
      or_create-Preserves u e =
          Preserves-if (is_not_found e) (create_object-Preserves u) (Preserves-fail _)

      replace_object-Preserves : (t : T) → Preserves P (replace_object c what codec g ns name t)
      unfolding replace_object or_create
      replace_object-Preserves t =
          Preserves-bind (Preserves-wrap-lift _ (codec.to_unstructured t)) (λ u.
            Preserves-bind (Preserves-attempt (K.got g ns name)) (λ found.
              elim found
                as (λ x. Preserves P (elim x as (λ _. Act W T) [
                  | inl _ ↦ update_object c what codec g ns name u
                  | inr e ↦ or_create u e
                ])) [ inl _ ↦ update_object-Preserves u | inr e ↦ or_create-Preserves u e ]))

      module _ (rules : T → List PolicyRule) (with_rules : T → List PolicyRule → T) where
        merge_stored : T → c.Unstructured → Act W T
        merge_stored t stored =
            wrap ("failed to convert unstructured to " <> what)
              (lift (codec.from_unstructured stored))
            >>= λ existing.
                let (merged, modified) = merge_rules (rules existing) false (rules t) in
                if not modified then pure existing else do
                  m ←
                      wrap ("failed to convert " <> (what <> " to unstructured"))
                        (lift (codec.to_unstructured (with_rules existing merged)))
                  update_object c what codec g ns name m

        merge_stored-Preserves : (t : T) (u : c.Unstructured) → Preserves P (merge_stored t u)
        unfolding merge_stored
        merge_stored-Preserves t stored =
            Preserves-bind (Preserves-wrap-lift _ (codec.from_unstructured stored)) (λ existing.
              let (merged, modified) = merge_rules (rules existing) false (rules t) in
              Preserves-if (not modified) (Preserves-pure existing) (
                Preserves-bind
                  (Preserves-wrap-lift _ (codec.to_unstructured (with_rules existing merged)))
                  (λ m. update_object-Preserves m)))

        merge_object-Preserves :
            (t : T) → Preserves P (merge_object c what codec rules with_rules g ns name t)
        unfolding merge_object or_create merge_stored
        merge_object-Preserves t =
            Preserves-bind (Preserves-wrap-lift _ (codec.to_unstructured t)) (λ u.
              Preserves-bind (Preserves-attempt (K.got g ns name)) (λ found.
                elim found
                  as (λ x. Preserves P (elim x as (λ _. Act W T) [
                    | inr e ↦ or_create u e
                    | inl stored ↦ merge_stored t stored
                  ])) [
                    | inr e ↦ or_create-Preserves u e
                    | inl stored ↦ merge_stored-Preserves t stored
                  ]))

    apply_pointer-Preserves :
        {T : Type 0} (p : Option T) (what : String) (name : T → String) (apply : T → Act W T)
        → ((t : T) → Preserves P (apply t))
        → Preserves P (apply_pointer c p what name apply)
    apply_pointer-Preserves none what name apply h = Preserves-pure tt
    apply_pointer-Preserves (some t) what name apply h =
        Preserves-bind (Preserves-wrap_around _ _ (h t)) (λ _. Preserves-pure tt)

    apply_role-Preserves : (r : Role) → Preserves P (apply_role c r)
    unfolding apply_role
    apply_role-Preserves r =
        merge_object-Preserves "Role" c.role roles_gvr r.namespace r.name (λ t. t.rules)
          (λ t rules. record t { rules = rules }) r

    apply_role_binding-Preserves : (b : RoleBinding) → Preserves P (apply_role_binding c b)
    unfolding apply_role_binding
    apply_role_binding-Preserves b =
        replace_object-Preserves "RoleBinding" c.role_binding role_bindings_gvr b.namespace b.name b

    apply_cluster_role-Preserves : (r : ClusterRole) → Preserves P (apply_cluster_role c r)
    unfolding apply_cluster_role
    apply_cluster_role-Preserves r =
        merge_object-Preserves "ClusterRole" c.cluster_role cluster_roles_gvr "" r.name
          (λ t. t.rules) (λ t rules. record t { rules = rules }) r

    apply_cluster_role_binding-Preserves :
        (b : ClusterRoleBinding) → Preserves P (apply_cluster_role_binding c b)
    unfolding apply_cluster_role_binding
    apply_cluster_role_binding-Preserves b =
        replace_object-Preserves "ClusterRoleBinding" c.cluster_role_binding
          cluster_role_bindings_gvr "" b.name b

    apply_namespaces-Preserves :
        (ns : List (Option Namespace)) → Preserves P (apply_namespaces c ns)
    unfolding apply_namespaces apply_namespace
    apply_namespaces-Preserves [] = Preserves-pure tt
    apply_namespaces-Preserves (none ∷ ns) = apply_namespaces-Preserves ns
    apply_namespaces-Preserves (some n ∷ ns) =
        Preserves-bind
          (Preserves-wrap _
            (replace_object-Preserves "Namespace" c.namespace namespaces_gvr "" n.name n))
          (λ _. apply_namespaces-Preserves ns)

    apply_namespaced-Preserves : (d : Dict Namespaced) → Preserves P (apply_namespaced c d)
    unfolding apply_namespaced
    apply_namespaced-Preserves [] = Preserves-pure tt
    apply_namespaced-Preserves ((k, ns) ∷ d) =
        Preserves-bind
          (apply_pointer-Preserves ns.role "Role" (λ r. r.name) (apply_role c) apply_role-Preserves)
          (λ _.
            Preserves-bind
              (apply_pointer-Preserves ns.role_binding "RoleBinding" (λ b. b.name)
                (apply_role_binding c) apply_role_binding-Preserves)
              (λ _. apply_namespaced-Preserves d))

    -- A property that the three calls keep is kept by `ApplyRBAC`, however it ends.
    pub apply_rbac-Preserves : (rbac : Option Rbac) → Preserves P (apply_rbac c rbac)
    unfolding apply_rbac
    apply_rbac-Preserves none = Preserves-fail _
    apply_rbac-Preserves (some rbac) =
        Preserves-bind (apply_namespaces-Preserves rbac.namespaces) (λ _.
          Preserves-bind
            (apply_pointer-Preserves rbac.cluster_role "ClusterRole" (λ r. r.name)
              (apply_cluster_role c) apply_cluster_role-Preserves)
            (λ _.
              Preserves-bind
                (apply_pointer-Preserves rbac.cluster_role_binding "ClusterRoleBinding"
                  (λ b. b.name) (apply_cluster_role_binding c) apply_cluster_role_binding-Preserves)
                (λ _. apply_namespaced-Preserves rbac.namespaced)))
