-- ===== src/RbacGen.antt =====
-- internal/rbacgen/rbacgen.go: the policy for the resources of a release.
pub mod Laws
mod Tests
use mathlib.Core.Option
use composition_dynamic_cont.Common.{
  String, Bool, true, false, ◌&&◌, Option, none, some, List, [], ◌∷◌, ◌++◌, ◌==◌, string_eq,
  if◌then◌else◌,
}
use composition_dynamic_cont.Common.Dict.{Dict, lookup, insert}
use composition_dynamic_cont.Common.Effect.{Act, pure, wrap, ◌>>=◌}
use composition_dynamic_cont.Kube.{GroupVersionResource}
use composition_dynamic_cont.ChartInspector
use composition_dynamic_cont.ChartInspector.{Resource}
use composition_dynamic_cont.Rbac.{
  PolicyRule, Namespaced, Role, ClusterRole, Rbac, create_namespace, init_role, init_role_binding,
  init_cluster_role, init_cluster_role_binding,
}

pub record Parameters : Type 0 where
  pub composition_name : String
  pub composition_namespace : String
  pub composition_gvr : GroupVersionResource
  pub composition_definition_name : String
  pub composition_definition_namespace : String
  pub composition_definition_gvr : GroupVersionResource

pub record Gen : Type 0 where
  pub base_name : String
  pub sa_name : String
  pub sa_namespace : String

-- `NewRBACGen`, then `WithBaseName`.
unfoldable pub new_rbac_gen : String → String → Gen
new_rbac_gen sa_name sa_namespace = record {
  base_name = "";
  sa_name = sa_name;
  sa_namespace = sa_namespace;
}

unfoldable pub with_base_name : Gen → String → Gen
with_base_name g name = record g { base_name = name }

-- All verbs on the resource, with no resource names.
abbrev pub rule_of : Resource → PolicyRule
rule_of r = record {
  verbs = some ("*" ∷ []);
  api_groups = some (r.group ∷ []);
  resources = some (r.resource ∷ []);
  resource_names = none;
  non_resource_urls = none;
}

abbrev pub is_namespace : Resource → Bool
is_namespace r = r.group == "" && (r.resource == "namespaces" && r.version == "v1")

unfoldable pub add_role_rule : PolicyRule → Namespaced → Namespaced
add_role_rule rule e = record e {
  role = Option.map (λ (r : Role). record r { rules = r.rules ++ rule ∷ [] }) e.role;
}

module _ (g : Gen) (composition_namespace : String) where
  -- The entry that a namespace gets when its first resource is met.
  abbrev pub new_entry : String → Namespaced
  new_entry ns = record {
    role = some (init_role g.base_name ns);
    role_binding = some (init_role_binding g.base_name g.base_name ns g.sa_name g.sa_namespace);
  }

  -- The map with an entry for the namespace.
  unfoldable pub with_entry : String → Dict Namespaced → Namespaced
  with_entry ns d = elim (lookup ns d) [ none ↦ new_entry ns | some e ↦ e ]

  -- One round of the loop over the resources.
  unfoldable pub add_resource : Rbac → Resource → Rbac
  add_resource p r =
      if r.namespace == ""
      then record p {
        namespaces =
            if is_namespace r
            then p.namespaces
              ++ some (create_namespace r.name g.base_name composition_namespace) ∷ []
            else p.namespaces;
        cluster_role =
            Option.map (λ (c : ClusterRole). record c { rules = c.rules ++ rule_of r ∷ [] })
              p.cluster_role;
      }
      else record p {
        namespaced =
            insert r.namespace (add_role_rule (rule_of r) (with_entry r.namespace p.namespaced))
              p.namespaced;
      }

  unfoldable pub add_resources : Rbac → List Resource → Rbac
  add_resources p [] = p
  add_resources p (r ∷ rs) = add_resources (add_resource p r) rs

  unfoldable pub empty_policy : Rbac
  empty_policy = record {
    namespaces = [];
    namespaced = [];
    cluster_role = some (init_cluster_role g.base_name);
    cluster_role_binding =
        some (init_cluster_role_binding g.base_name g.base_name g.sa_name g.sa_namespace);
  }

-- `Generate`, over the inspector's `Resources`.
unfoldable pub generate :
    {W : Type 0}
    → (ChartInspector.Parameters → Act W (List Resource))
    → Gen
    → Parameters
    → Act W Rbac
generate inspect g p = do
  resources ← wrap "getting resources from chart-inspector" (
      inspect (record {
        composition_name = p.composition_name;
        composition_namespace = p.composition_namespace;
        composition_group = p.composition_gvr.group;
        composition_version = p.composition_gvr.version;
        composition_resource = p.composition_gvr.resource;
        composition_definition_name = p.composition_definition_name;
        composition_definition_namespace = p.composition_definition_namespace;
        composition_definition_group = p.composition_definition_gvr.group;
        composition_definition_version = p.composition_definition_gvr.version;
        composition_definition_resource = p.composition_definition_gvr.resource;
      }))
  pure (add_resources g p.composition_namespace (empty_policy g p.composition_namespace) resources)
