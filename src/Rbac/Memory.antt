-- ===== src/Rbac/Memory.antt =====
-- A store in memory, and the assumptions on the client at this store.
use composition_dynamic_cont.Common.{
  String, Option, none, some, refl, inl, inr, string_eq, if◌then◌else◌, arith, Option-cases,
}
use composition_dynamic_cont.Common.Effect.{not_found, failed, Outcome, ok, err, Act, is_not_found}
use composition_dynamic_cont.Kube.{GroupVersionResource}
use composition_dynamic_cont.Rbac.{Namespace, Role, RoleBinding, ClusterRole, ClusterRoleBinding}
use composition_dynamic_cont.Rbac.Client.{DynamicClient, View, IsStore, same_key, IsFaithful}

pub data Item : Type 0 where
  namespace_item : Namespace → Item
  role_item : Role → Item
  role_binding_item : RoleBinding → Item
  cluster_role_item : ClusterRole → Item
  cluster_role_binding_item : ClusterRoleBinding → Item

abbrev pub Memory : Type 0
Memory = GroupVersionResource → String → String → Option Item

abbrev pub put : GroupVersionResource → String → String → Option Item → Memory → Memory
put g n m v memory g' n' m' = if same_key g g' n n' m m' then v else memory g' n' m'

abbrev pub wrong_kind : {A : Type 0} → Outcome A
wrong_kind = err (failed "wrong kind")

abbrev pub get_item : GroupVersionResource → String → String → Act Memory Item
get_item g n m w = elim (w g n m) [ none ↦ (err (not_found m), w) | some u ↦ (ok u, w) ]

abbrev pub put_item : GroupVersionResource → String → String → Item → Act Memory Item
put_item g n m u w = (ok u, put g n m (some u) w)

abbrev pub delete_item : GroupVersionResource → String → String → Act Memory (Unit {0})
delete_item g n m w = elim (w g n m) [
  | none ↦ (err (not_found m), w)
  | some u ↦ (ok tt, put g n m none w)
]

abbrev pub client : DynamicClient Memory
client = record {
  Unstructured = Item;
  get = get_item;
  create = put_item;
  update = put_item;
  delete = delete_item;
  namespace = record {
    to_unstructured = λ n. ok (namespace_item n);
    from_unstructured = λ u. elim u [ namespace_item n ↦ ok n | _ ↦ wrong_kind ];
  };
  role = record {
    to_unstructured = λ r. ok (role_item r);
    from_unstructured = λ u. elim u [ role_item r ↦ ok r | _ ↦ wrong_kind ];
  };
  role_binding = record {
    to_unstructured = λ b. ok (role_binding_item b);
    from_unstructured = λ u. elim u [ role_binding_item b ↦ ok b | _ ↦ wrong_kind ];
  };
  cluster_role = record {
    to_unstructured = λ r. ok (cluster_role_item r);
    from_unstructured = λ u. elim u [ cluster_role_item r ↦ ok r | _ ↦ wrong_kind ];
  };
  cluster_role_binding = record {
    to_unstructured = λ b. ok (cluster_role_binding_item b);
    from_unstructured = λ u. elim u [ cluster_role_binding_item b ↦ ok b | _ ↦ wrong_kind ];
  };
}

abbrev pub view : View Memory Item
view w = w

pub client-IsStore : IsStore client view
unfolding is_not_found
client-IsStore = record {
  get_lem = λ g n m w. elim (Option-cases (w g n m)) [
    | inl absent ↦ inr (inl (not_found m, refl, absent, ground arith))
    | inr (u, present) ↦ inr (inr (u, present, ground arith))
  ];
  create_lem = λ g n m u w. inr (put g n m (some u) w, refl, record { at = λ g' n' m'. refl });
  update_lem = λ g n m u w. inr (put g n m (some u) w, refl, record { at = λ g' n' m'. refl });
  delete_lem = λ g n m w. elim (Option-cases (w g n m)) [
    | inl absent ↦ inr (inl (not_found m, refl, absent, ground arith))
    | inr (u, present) ↦
        inr (inr (put g n m none w, ground arith, record { at = λ g' n' m'. refl }))
  ];
}

pub role-IsFaithful : IsFaithful client.role (λ t. t.rules)
role-IsFaithful t u h = (t, ground arith, refl)

pub cluster_role-IsFaithful : IsFaithful client.cluster_role (λ t. t.rules)
cluster_role-IsFaithful t u h = (t, ground arith, refl)
