-- ===== src/Rbac.antt =====
-- internal/tools/rbac/rbac.go: the objects that grant a release its rights.
pub mod Client
pub mod Installer
pub mod Merge
pub mod Apply
pub mod Policy
pub mod Granted
pub mod Uninstall
pub mod Keeping
pub mod Writing
pub mod Memory
mod Tests
use composition_dynamic_cont.Common.{
  String, Bool, true, false, ◌&&◌, Option, none, some, List, [], ◌∷◌, ◌≡◌, ◌↔◌, refl, ◌==◌,
  string_eq, Eq, arith, eq_iff,
}
use composition_dynamic_cont.Common.Dict.{Dict}

-- A Go slice of texts: `none` is nil, which `reflect.DeepEqual` tells from an empty slice.
abbrev pub Slice : Type 0
Slice = Option (List String)

pub record PolicyRule : Type 0 where
  pub verbs : Slice
  pub api_groups : Slice
  pub resources : Slice
  pub resource_names : Slice
  pub non_resource_urls : Slice

pub record Namespace : Type 0 where
  pub name : String
  pub labels : Dict String
  pub annotations : Dict String

pub record Role : Type 0 where
  pub name : String
  pub namespace : String
  pub rules : List PolicyRule

pub record RoleRef : Type 0 where
  pub kind : String
  pub name : String
  pub api_group : String

pub record Subject : Type 0 where
  pub kind : String
  pub name : String
  pub namespace : String

pub record RoleBinding : Type 0 where
  pub name : String
  pub namespace : String
  pub role_ref : RoleRef
  pub subjects : List Subject

pub record ClusterRole : Type 0 where
  pub name : String
  pub rules : List PolicyRule

pub record ClusterRoleBinding : Type 0 where
  pub name : String
  pub role_ref : RoleRef
  pub subjects : List Subject

pub record Namespaced : Type 0 where
  pub role : Option Role
  pub role_binding : Option RoleBinding

-- `none` is a nil pointer. The map of roles is a list in the order in which Go happens to range
-- over it, which may be any.
pub record Rbac : Type 0 where
  pub namespaces : List (Option Namespace)
  pub namespaced : Dict Namespaced
  pub cluster_role : Option ClusterRole
  pub cluster_role_binding : Option ClusterRoleBinding

unfoldable pub create_namespace : String → String → String → Namespace
create_namespace name release_name release_namespace = record {
  name = name;
  labels = ("app.kubernetes.io/managed-by", "Helm") ∷ [];
  annotations =
      ("meta.helm.sh/release-name", release_name)
      ∷ ("meta.helm.sh/release-namespace", release_namespace)
      ∷ [];
}

unfoldable pub init_role : String → String → Role
init_role name namespace = record { name = name; namespace = namespace; rules = [] }

unfoldable pub init_role_binding : String → String → String → String → String → RoleBinding
init_role_binding name role_ref_name namespace sa_name sa_namespace = record {
  name = name;
  namespace = namespace;
  role_ref = record {
    kind = "Role";
    name = role_ref_name;
    api_group = "rbac.authorization.k8s.io";
  };
  subjects = record { kind = "ServiceAccount"; name = sa_name; namespace = sa_namespace } ∷ [];
}

unfoldable pub init_cluster_role : String → ClusterRole
init_cluster_role name = record { name = name; rules = [] }

unfoldable pub init_cluster_role_binding : String → String → String → String → ClusterRoleBinding
init_cluster_role_binding name role_ref_name sa_name sa_namespace = record {
  name = name;
  role_ref = record {
    kind = "ClusterRole";
    name = role_ref_name;
    api_group = "rbac.authorization.k8s.io";
  };
  subjects = record { kind = "ServiceAccount"; name = sa_name; namespace = sa_namespace } ∷ [];
}

-- `reflect.DeepEqual` at policy rules.
list_beq : List String → List String → Bool
list_beq [] [] = true
list_beq (x ∷ xs) (y ∷ ys) = x == y && list_beq xs ys
list_beq _ _ = false

slice_beq : Slice → Slice → Bool
slice_beq none none = true
slice_beq (some xs) (some ys) = list_beq xs ys
slice_beq _ _ = false

pub rule_beq : PolicyRule → PolicyRule → Bool
rule_beq r s =
    slice_beq r.verbs s.verbs
    && (slice_beq r.api_groups s.api_groups
        && (slice_beq r.resources s.resources
            && (slice_beq r.resource_names s.resource_names
                && slice_beq r.non_resource_urls s.non_resource_urls)))

list_beq_iff : (xs ys : List String) → (list_beq xs ys ≡ true) ↔ (xs ≡ ys)
unfolding list_beq
list_beq_iff [] [] = ground arith
list_beq_iff (x ∷ xs) (y ∷ ys) = ground (arith, eq_iff x y, list_beq_iff xs ys)
list_beq_iff [] (y ∷ ys) = ground arith
list_beq_iff (x ∷ xs) [] = ground arith

slice_beq_iff : (s t : Slice) → (slice_beq s t ≡ true) ↔ (s ≡ t)
unfolding slice_beq
slice_beq_iff none none = ground arith
slice_beq_iff (some xs) (some ys) = ground (arith, list_beq_iff xs ys)
slice_beq_iff none (some ys) = ground arith
slice_beq_iff (some xs) none = ground arith

-- Deep equality decides equality of rules.
pub rule_beq_iff : (r s : PolicyRule) → (rule_beq r s ≡ true) ↔ (r ≡ s)
unfolding rule_beq
rule_beq_iff r s = ground (
  arith,
  slice_beq_iff r.verbs s.verbs,
  slice_beq_iff r.api_groups s.api_groups,
  slice_beq_iff r.resources s.resources,
  slice_beq_iff r.resource_names s.resource_names,
  slice_beq_iff r.non_resource_urls s.non_resource_urls,
)
