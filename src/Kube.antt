-- ===== src/Kube.antt =====
-- Objects of the Kubernetes API as the controller handles them (`unstructured.Unstructured`), and
-- the functions of unstructured-runtime, plumbing and apimachinery that it calls on them. Those
-- functions are the fields of `Runtime`; `IsLawful` states what they document.
use composition_dynamic_cont.Common.{String, Option, List, ◌≡◌, ◌==◌, string_eq, if◌then◌else◌}
use composition_dynamic_cont.Common.Dict.{Dict, insert, erase}
use composition_dynamic_cont.Common.Effect.{Outcome}

pub record GroupVersionKind : Type 0 where
  pub group : String
  pub version : String
  pub kind : String

pub record GroupVersionResource : Type 0 where
  pub group : String
  pub version : String
  pub resource : String

-- internal/composition/support.go
pub record ManagedResource : Type 0 where
  pub api_version : String
  pub resource : String
  pub name : String
  pub namespace : String
  pub path : String

-- A value under `status`: the Go types that the controller tells apart.
mutual
  pub data Value : Type 0 where
    null : Value
    text : String → Value
    resources : List ManagedResource → Value
    object : Fields → Value
    other : String → Value

  pub data Fields : Type 0 where
    end : Fields
    field : String → Value → Fields → Fields

unfoldable pub set_field : String → Value → Fields → Fields
set_field k v end = field k v end
set_field k v (field j w m) = if j == k then field k v m else field j w (set_field k v m)

-- `metav1.Condition`, less its transition time.
pub record Condition : Type 0 where
  pub type : String
  pub status : String
  pub reason : String
  pub message : String

pub record Object : Type 0 where
  pub gvk : GroupVersionKind
  pub api_version : String
  pub name : String
  pub namespace : String
  pub uid : String
  pub labels : Dict String
  pub annotations : Dict String
  pub status : Option Value
  pub conditions : List Condition

-- `nested_string` and `set_nested_field` are `maps.NestedString` and `maps.SetNestedField` of
-- plumbing, for a path below `status`.
pub record Runtime : Type 0 where
  pub add_annotation : String → String → Object → Object
  pub remove_annotation : String → Object → Object
  pub nested_string : Object → String → Outcome String
  pub set_nested_field : String → String → Object → Outcome Object
  pub get_condition : Object → String → String → Option Condition
  pub set_conditions : Condition → Object → Outcome Object
  pub available : Condition
  pub unavailable : Condition
  pub type_ready : String

pub record IsLawful (r : Runtime) : Type 0 where
  pub add_annotation_lem :
      (k v : String) (o : Object)
      → r.add_annotation k v o ≡ record o { annotations = insert k v o.annotations }
  pub remove_annotation_lem :
      (k : String) (o : Object)
      → r.remove_annotation k o ≡ record o { annotations = erase k o.annotations }
