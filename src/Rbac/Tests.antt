-- ===== src/Rbac/Tests.antt =====
-- Runs of the installer over the store of Memory.
use composition_dynamic_cont.Common.{String, false, none, some, List, [], ◌∷◌, ◌≡◌, refl, string_eq}
use composition_dynamic_cont.Common.Effect.{ok, is_not_found}
use composition_dynamic_cont.Rbac.{
  PolicyRule, Role, Rbac, create_namespace, init_role_binding, init_cluster_role_binding, rule_beq,
  slice_beq, list_beq,
}
use composition_dynamic_cont.Rbac.Installer.{
  apply_namespaces, apply_namespace, replace_object, update_object, create_object,
  apply_cluster_role, merge_object, apply_cluster_role_binding, apply_namespaced, apply_role,
  apply_role_binding, rule_exists, delete_object, delete_role, delete_role_binding,
  delete_cluster_role, delete_cluster_role_binding, delete_namespaced, apply_rbac, uninstall_rbac,
  merge_rules, roles_gvr, cluster_roles_gvr, cluster_role_bindings_gvr,
}
use composition_dynamic_cont.Rbac.Memory.{
  role_item, Memory, put, client, view, client-IsStore, role-IsFaithful, cluster_role-IsFaithful,
}
use composition_dynamic_cont.Rbac.Merge.{merge_rules_lem, Added}
use composition_dynamic_cont.Rbac.Granted
use composition_dynamic_cont.Rbac.Granted.{apply_rbac-Granted}
use composition_dynamic_cont.Rbac.Uninstall
use composition_dynamic_cont.Rbac.Uninstall.{uninstall_rbac-Gone}

abbrev rule : String → PolicyRule
rule plural = record {
  verbs = some ("*" ∷ []);
  api_groups = some ("" ∷ []);
  resources = some (plural ∷ []);
  resource_names = none;
  non_resource_urls = none;
}

abbrev role_with : List PolicyRule → Role
role_with rules = record { name = "release"; namespace = "apps"; rules = rules }

abbrev policy : Rbac
policy = record {
  namespaces = some (create_namespace "apps" "release" "default") ∷ none ∷ [];
  namespaced =
      (
        "apps",
        record {
          role = some (role_with (rule "pods" ∷ rule "services" ∷ []));
          role_binding = some (init_role_binding "release" "release" "apps" "sa" "krateo");
        },
      )
      ∷ [];
  cluster_role = some (record { name = "release"; rules = rule "nodes" ∷ [] });
  cluster_role_binding = some (init_cluster_role_binding "release" "release" "sa" "krateo");
}

-- The role is there already, with one rule that the policy wants and one that it does not.
abbrev before : Memory
before =
    put roles_gvr "apps" "release"
      (some (role_item (role_with (rule "secrets" ∷ rule "pods" ∷ [])))) (λ g n m. none)

abbrev after : Memory
after = (apply_rbac client (some policy) before).1

-- The installer returns without an error here.
applied : apply_rbac client (some policy) before ≡ (ok tt, after)
unfolding apply_rbac apply_namespaces apply_namespace replace_object update_object create_object
    is_not_found apply_cluster_role merge_object apply_cluster_role_binding apply_namespaced
    apply_role apply_role_binding merge_rules rule_exists rule_beq slice_beq list_beq
    create_namespace init_role_binding init_cluster_role_binding
applied = refl

after_role :
    after roles_gvr "apps" "release"
    ≡ some (role_item (role_with (rule "secrets" ∷ rule "pods" ∷ rule "services" ∷ [])))
unfolding apply_rbac apply_namespaces apply_namespace replace_object update_object create_object
    is_not_found apply_cluster_role merge_object apply_cluster_role_binding apply_namespaced
    apply_role apply_role_binding merge_rules rule_exists rule_beq slice_beq list_beq
    create_namespace init_role_binding init_cluster_role_binding
after_role = refl

apply_rbac-Granted_example :
    Granted.NamespacedGranted client view client-IsStore role-IsFaithful cluster_role-IsFaithful
      after policy.namespaced
    × Granted.ClusterRoleGranted client view client-IsStore role-IsFaithful cluster_role-IsFaithful
        after policy.cluster_role
    × Granted.Grows client view client-IsStore role-IsFaithful cluster_role-IsFaithful before after
apply_rbac-Granted_example =
    apply_rbac-Granted client view client-IsStore role-IsFaithful cluster_role-IsFaithful policy
      before after applied

abbrev gone : Memory
gone = (uninstall_rbac client (some policy) before).1

-- The bindings and the cluster role are not there, which is no error.
uninstalled : uninstall_rbac client (some policy) before ≡ (ok tt, gone)
unfolding uninstall_rbac delete_cluster_role delete_object is_not_found delete_cluster_role_binding
    delete_namespaced delete_role delete_role_binding init_role_binding init_cluster_role_binding
uninstalled = refl

uninstall_rbac-Gone_example :
    Uninstall.NamespacedGone client view client-IsStore gone policy.namespaced
    × Uninstall.PointerGone client view client-IsStore gone cluster_roles_gvr
        (λ _. "")
        (λ r. r.name)
        policy.cluster_role
    × Uninstall.PointerGone client view client-IsStore gone cluster_role_bindings_gvr
        (λ _. "")
        (λ b. b.name)
        policy.cluster_role_binding
    × Uninstall.Shrinks client view client-IsStore before gone
uninstall_rbac-Gone_example =
    uninstall_rbac-Gone client view client-IsStore policy before gone uninstalled

merge_rules_lem_example :
    let existing = rule "pods" ∷ [] in
    let wanted = rule "pods" ∷ rule "services" ∷ [] in
    let merged = (merge_rules existing false wanted).0 in
    ((added : List PolicyRule) × Added existing false wanted added)
    × (merge_rules merged false wanted ≡ (merged, false))
merge_rules_lem_example =
    merge_rules_lem (rule "pods" ∷ []) false (rule "pods" ∷ rule "services" ∷ [])
