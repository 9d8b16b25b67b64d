-- ===== src/RbacGen/Laws.antt =====
-- The policy that `Generate` makes, by scope and by namespace.
use composition_dynamic_cont.Common.{
  String, ◌&&◌, Option, none, some, List, [], ◌∷◌, ◌==◌, string_eq, map, select,
}
use composition_dynamic_cont.Common.Dict.{Dict}
use composition_dynamic_cont.ChartInspector.{Resource}
use composition_dynamic_cont.Rbac.{
  PolicyRule, Namespace, Namespaced, ClusterRole, Rbac, create_namespace, init_role_binding,
}
use composition_dynamic_cont.RbacGen.{Gen, is_namespace}

-- The resources of one scope: "" for the cluster.
abbrev pub in_scope : String → List Resource → List Resource
in_scope ns = select (λ r. r.namespace == ns)

abbrev pub role_of : String → List PolicyRule → ClusterRole
role_of name rules = record { name = name; rules = rules }

module _ (g : Gen) (composition_namespace : String) where
  -- The namespaces among the resources of the cluster.
  abbrev pub namespaces_of : List Resource → List (Option Namespace)
  namespaces_of rs =
      map (λ r. some (create_namespace r.name g.base_name composition_namespace))
        (select (λ r. r.namespace == "" && is_namespace r) rs)

  -- The entry of a namespace whose role has these rules.
  abbrev pub entry_of : String → List PolicyRule → Namespaced
  entry_of ns rules = record {
    role = some (record { name = g.base_name; namespace = ns; rules = rules });
    role_binding = some (init_role_binding g.base_name g.base_name ns g.sa_name g.sa_namespace);
  }

  -- No entry where there are no rules.
  abbrev pub entry_for : String → List PolicyRule → Option Namespaced
  entry_for ns [] = none
  entry_for ns (r ∷ rules) = some (entry_of ns (r ∷ rules))
