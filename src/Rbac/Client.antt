-- ===== src/Rbac/Client.antt =====
-- The dynamic client of client-go and the converter of apimachinery, as the RBAC installer uses
-- them, and what is assumed of them.
use composition_dynamic_cont.Common.{
  String, Bool, true, false, ◌&&◌, ◌⊎◌, Option, none, some, List, [], map, ◌≡◌, ◌==◌, string_eq,
  if◌then◌else◌,
}
use composition_dynamic_cont.Common.Effect.{Error, is_not_found, Outcome, ok, err, Act}
use composition_dynamic_cont.Kube.{GroupVersionResource}
use composition_dynamic_cont.Rbac.{
  PolicyRule, Namespace, Role, RoleBinding, ClusterRole, ClusterRoleBinding,
}

-- `ToUnstructured` and `FromUnstructured` at one type.
pub record Codec (U T : Type 0) : Type 0 where
  pub to_unstructured : T → Outcome U
  pub from_unstructured : U → Outcome T

-- The second argument of each call is the namespace, "" for a cluster-scoped resource.
pub record DynamicClient (W : Type 0) : Type 1 where
  pub Unstructured : Type 0
  pub get : GroupVersionResource → String → String → Act W Unstructured
  pub create : GroupVersionResource → String → String → Unstructured → Act W Unstructured
  pub update : GroupVersionResource → String → String → Unstructured → Act W Unstructured
  pub delete : GroupVersionResource → String → String → Act W (Unit {0})
  pub namespace : Codec Unstructured Namespace
  pub role : Codec Unstructured Role
  pub role_binding : Codec Unstructured RoleBinding
  pub cluster_role : Codec Unstructured ClusterRole
  pub cluster_role_binding : Codec Unstructured ClusterRoleBinding

-- Whether two keys name one object of the API.
abbrev pub same_key : (g g' : GroupVersionResource) (n n' m m' : String) → Bool
same_key g g' n n' m m' =
    g.group == g'.group
    && (g.version == g'.version && (g.resource == g'.resource && (n == n' && m == m')))

-- What is stored under each key: the resource, the namespace and the name.
abbrev pub View : (W U : Type 0) → Type 0
View W U = W → GroupVersionResource → String → String → Option U

-- A call that fails leaves the store as it was.
abbrev pub Refused : {W A : Type 0} → W → Outcome A × W → Type 0
Refused {A} w r = (e : Error) × (r ≡ (err e, w))

-- Likewise, for any reason but a missing object.
abbrev pub Fails : {W A : Type 0} → W → Outcome A × W → Type 0
Fails {A} w r = (e : Error) × (is_not_found e ≡ false) × (r ≡ (err e, w))

-- The call stored `u` under the key, and every other key kept its value.
pub record Stored {W U : Type 0} (view : View W U) (g : GroupVersionResource) (n m : String) (w : W)
    (v : Option U) (w' : W) : Type 0 where
  pub at :
      (g' : GroupVersionResource) (n' m' : String)
      → view w' g' n' m' ≡ (if same_key g g' n n' m m' then v else view w g' n' m')

-- A store without other writers: any call may fail, and one that does not reads or writes the view.
pub record IsStore {W : Type 0} (c : DynamicClient W) (view : View W c.Unstructured) : Type 0 where
  pub get_lem :
      (g : GroupVersionResource) (n m : String) (w : W)
      → Fails w (c.get g n m w)
        ⊎ ((e : Error) × (is_not_found e ≡ true)
            × (view w g n m ≡ none)
            × (c.get g n m w ≡ (err e, w)))
        ⊎ ((u : c.Unstructured) × (view w g n m ≡ some u) × (c.get g n m w ≡ (ok u, w)))
  pub create_lem :
      (g : GroupVersionResource) (n m : String) (u : c.Unstructured) (w : W)
      → Refused w (c.create g n m u w)
        ⊎ ((w' : W) × (c.create g n m u w ≡ (ok u, w')) × Stored view g n m w (some u) w')
  pub update_lem :
      (g : GroupVersionResource) (n m : String) (u : c.Unstructured) (w : W)
      → Refused w (c.update g n m u w)
        ⊎ ((w' : W) × (c.update g n m u w ≡ (ok u, w')) × Stored view g n m w (some u) w')
  pub delete_lem :
      (g : GroupVersionResource) (n m : String) (w : W)
      → Fails w (c.delete g n m w)
        ⊎ ((e : Error) × (is_not_found e ≡ true)
            × (view w g n m ≡ none)
            × (c.delete g n m w ≡ (err e, w)))
        ⊎ ((w' : W) × (c.delete g n m w ≡ (ok tt, w')) × Stored view g n m w none w')

-- The fields of a rule that are tagged `omitempty` lose the difference of an empty list and nil.
abbrev pub drop_empty : Option (List String) → Option (List String)
drop_empty (some []) = none
drop_empty xs = xs

abbrev pub normal : PolicyRule → PolicyRule
normal r = record {
  verbs = r.verbs;
  api_groups = drop_empty r.api_groups;
  resources = drop_empty r.resources;
  resource_names = drop_empty r.resource_names;
  non_resource_urls = drop_empty r.non_resource_urls;
}

-- What is converted and stored is read back with the same rules, but for empty lists that the
-- conversion omits.
abbrev pub IsFaithful : {U T : Type 0} → Codec U T → (T → List PolicyRule) → Type 0
IsFaithful {U} {T} k rules =
    (t : T) (u : U)
    → k.to_unstructured t ≡ ok u
    → (t' : T) × (k.from_unstructured u ≡ ok t') × (map normal (rules t') ≡ map normal (rules t))
