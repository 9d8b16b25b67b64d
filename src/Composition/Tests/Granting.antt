-- ===== src/Composition/Tests/Granting.antt =====
-- Runs of the reconciler over the RBAC store of Rbac/Memory.
use composition_dynamic_cont.Common.{String, false, none, ◌≡◌, refl, string_eq}
use composition_dynamic_cont.Common.Effect.{ok}
use composition_dynamic_cont.Kube.{Object, GroupVersionResource}
use composition_dynamic_cont.Meta.{
  CompositionDefinitionInfo, calculate_release_name, get_release_name, set_release_name,
  is_gracefully_paused, get_gracefully_paused_time,
}
use composition_dynamic_cont.Archive.{Info}
use composition_dynamic_cont.Rbac.{Rbac}
use composition_dynamic_cont.Rbac.Memory.{
  Memory, client, view, client-IsStore, role-IsFaithful, cluster_role-IsFaithful,
}
use composition_dynamic_cont.Composition.Env.{Env}
use composition_dynamic_cont.Composition.Memory.{active}
use composition_dynamic_cont.Composition.Stored.{env_over}
use composition_dynamic_cont.Composition.Steps.{is_paused}
use composition_dynamic_cont.Composition.Create.{create}
use composition_dynamic_cont.Composition.Create.Granting.{
  Generated, IsNamed, IsDefined, PolicyGranted, deploy, create-Granted,
}
use composition_dynamic_cont.Composition.Create.{
  create_active, install_rbac, install_release, installed, upgraded, record_created,
}
use composition_dynamic_cont.Composition.Steps.{
  update_cr, get_package, deref, generate_rbac, action_config,
}
use composition_dynamic_cont.RbacGen.{
  generate, add_resource, add_resources, add_role_rule, empty_policy, new_rbac_gen, with_base_name,
  with_entry,
}
use composition_dynamic_cont.ChartInspector.{
  list_resources, validate, collect, build_query, set_query_if_not_empty,
}
use composition_dynamic_cont.Common.Dict.{lookup, insert}
use composition_dynamic_cont.Common.Effect.{is_not_found}
use composition_dynamic_cont.Rbac.Installer.{
  apply_rbac, apply_namespaces, apply_namespace, apply_namespaced, apply_role, apply_role_binding,
  apply_cluster_role, apply_cluster_role_binding, create_object, merge_object, merge_rules,
  replace_object, rule_exists, update_object,
}
use composition_dynamic_cont.Rbac.{
  create_namespace, init_cluster_role, init_cluster_role_binding, init_role, init_role_binding,
}
use composition_dynamic_cont.Composition.Support.{
  set_avaible_status, set_condition, set_final_condition, set_managed_resources, set_resources,
  set_status, populate_managed_resources,
}
use composition_dynamic_cont.Kube.{set_field}
use composition_dynamic_cont.Processor.{
  decode_loop, decode_min_release, decode_release, is_blank, blank_from, next_space,
}
use composition_dynamic_cont.Processor.Hasher.{get_hash, write}

abbrev env : Env Memory
env = env_over client (λ o w. (ok o, w))

abbrev empty_store : Memory
empty_store g n m = none

abbrev after : Memory
after = (create env active empty_store).1

created : create env active empty_store ≡ (ok tt, after)
unfolding create is_paused get_gracefully_paused_time is_gracefully_paused calculate_release_name
    set_release_name get_release_name create_active install_rbac install_release installed upgraded
    record_created update_cr get_package deref generate_rbac action_config generate add_resource
    add_resources add_role_rule empty_policy new_rbac_gen with_base_name with_entry list_resources
    validate collect build_query set_query_if_not_empty lookup insert is_not_found apply_rbac
    apply_namespaces apply_namespace apply_namespaced apply_role apply_role_binding
    apply_cluster_role apply_cluster_role_binding create_object merge_object merge_rules
    replace_object rule_exists update_object create_namespace init_cluster_role
    init_cluster_role_binding init_role init_role_binding set_avaible_status set_condition
    set_final_condition set_managed_resources set_resources set_status populate_managed_resources
    set_field decode_loop decode_min_release decode_release is_blank blank_from next_space get_hash
    write
created = refl

active-IsPaused : is_paused env active ≡ false
unfolding is_paused is_gracefully_paused get_gracefully_paused_time lookup
active-IsPaused = refl

create-Granted_example :
    (name : String) × (mg₁ : Object) × (pkg : Info) × (gvr : GroupVersionResource)
    × (info : CompositionDefinitionInfo) × (rbac : Rbac) × (granted : Memory) × IsNamed env view
        client-IsStore role-IsFaithful cluster_role-IsFaithful active name mg₁
    × IsDefined env view client-IsStore role-IsFaithful cluster_role-IsFaithful mg₁ pkg gvr info
    × Generated env view client-IsStore role-IsFaithful cluster_role-IsFaithful
        (get_release_name (set_release_name active name))
        mg₁
        gvr
        info
        rbac
    × PolicyGranted env view client-IsStore role-IsFaithful cluster_role-IsFaithful rbac granted
    × (deploy env view client-IsStore role-IsFaithful cluster_role-IsFaithful
          (get_release_name (set_release_name active name))
          mg₁
          pkg
          granted
        ≡ (ok tt, after))
create-Granted_example =
    create-Granted env view client-IsStore role-IsFaithful cluster_role-IsFaithful active
      empty_store after active-IsPaused created
