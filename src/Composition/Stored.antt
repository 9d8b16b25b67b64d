-- ===== src/Composition/Stored.antt =====
-- An environment that stores the digest of a status. The world is that digest.
use composition_dynamic_cont.Common.{
  String, true, false, Option, none, some, [], ◌∷◌, ◌≡◌, refl, ap, sym, subst, ◌==◌, string_eq,
  eq_refl, eq_iff, if◌then◌else◌, arith, inl, inr, Bool-cases,
}
use composition_dynamic_cont.Common.Dict.{insert, erase}
use composition_dynamic_cont.Common.Effect.{Outcome, not_found, failed, ok, err, panic, Act}
use composition_dynamic_cont.Kube.{
  Object, Runtime, Value, Fields, null, text, resources, object, other, end, field, set_field,
}
use composition_dynamic_cont.Processor.{Release, settled}
use composition_dynamic_cont.Rbac.Client.{DynamicClient, Codec}
use composition_dynamic_cont.ChartInspector.{Http}
use composition_dynamic_cont.Composition.Env.{Env, HelmClient}
use composition_dynamic_cont.Composition.Memory.{condition, info, sites}
use composition_dynamic_cont.Composition.Support.Written.{IsStatusStore, ok-injective}
use composition_dynamic_cont.Composition.Settled.{HoldsDigest}

abbrev text_of : Value → Outcome String
text_of (text s) = ok s
text_of _ = err (failed "not a string")

abbrev find_text : String → Fields → Outcome String
find_text k end = ok ""
find_text k (field j v m) = if j == k then text_of v else find_text k m

find_text-set_field :
    (k : String) (v : String) (m : Fields) → find_text k (set_field k (text v) m) ≡ ok v
unfolding set_field
find_text-set_field k v end = rw (eq_refl k)
find_text-set_field k v (field j w m) = elim (Bool-cases (j == k)) [
  | inl same ↦ rw (same, eq_refl k)
  | inr differ ↦ rw (differ, differ) (find_text-set_field k v m)
]

find_text-set_field_other :
    (k j : String) (v : String) (m : Fields)
    → (k == j) ≡ false
    → find_text j (set_field k (text v) m) ≡ find_text j m
unfolding set_field
find_text-set_field_other k j v end differ = rw differ
find_text-set_field_other k j v (field i w m) differ =
    ground (arith, find_text-set_field_other k j v m differ, eq_iff i k, eq_iff i j, eq_iff k j)

abbrev read_status : Option Value → String → Outcome String
read_status (some (object m)) k = find_text k m
read_status _ k = ok ""

abbrev write_status : Option Value → String → String → Outcome (Option Value)
write_status none v k = ok (some (object (field k (text v) end)))
write_status (some (object m)) v k = ok (some (object (set_field k (text v) m)))
write_status _ v k = err (failed "not a map")

abbrev put_status : Object → Outcome (Option Value) → Outcome Object
put_status o (ok s) = ok (record o { status = s })
put_status o (err e) = err e
put_status o panic = panic

abbrev pub runtime : Runtime
runtime = record {
  add_annotation = λ k v o. record o { annotations = insert k v o.annotations };
  remove_annotation = λ k o. record o { annotations = erase k o.annotations };
  nested_string = λ o k. read_status o.status k;
  set_nested_field = λ v k o. put_status o (write_status o.status v k);
  get_condition = λ o type reason. none;
  set_conditions = λ c o. ok (record o { conditions = c ∷ [] });
  available = condition "Available";
  unavailable = condition "Unavailable";
  type_ready = "Ready";
}

set-same :
    (v k : String) (o o' : Object) (s : Option Value)
    → put_status o (write_status s v k) ≡ ok o'
    → read_status o'.status k ≡ ok v
set-same v k o o' none h =
    subst (λ x. read_status x.status k ≡ ok v) (ok-injective h) (rw (eq_refl k))
set-same v k o o' (some (object m)) h =
    subst (λ x. read_status x.status k ≡ ok v) (ok-injective h) (find_text-set_field k v m)
set-same v k o o' (some null) h = absurd (ground arith)
set-same v k o o' (some (text s)) h = absurd (ground arith)
set-same v k o o' (some (resources rs)) h = absurd (ground arith)
set-same v k o o' (some (other s)) h = absurd (ground arith)

set-other :
    (v k j : String) (o o' : Object) (s : Option Value)
    → (k == j) ≡ false
    → put_status o (write_status s v k) ≡ ok o'
    → read_status o'.status j ≡ read_status s j
set-other v k j o o' none differ h =
    subst (λ x. read_status x.status j ≡ ok "") (ok-injective h) (rw differ)
set-other v k j o o' (some (object m)) differ h =
    subst (λ x. read_status x.status j ≡ find_text j m) (ok-injective h)
      (find_text-set_field_other k j v m differ)
set-other v k j o o' (some null) differ h = absurd (ground arith)
set-other v k j o o' (some (text s)) differ h = absurd (ground arith)
set-other v k j o o' (some (resources rs)) differ h = absurd (ground arith)
set-other v k j o o' (some (other s)) differ h = absurd (ground arith)

pub runtime-IsStatusStore : IsStatusStore runtime
runtime-IsStatusStore = record {
  set_same = λ v k mg mg' h. set-same v k mg mg' mg.status h;
  set_other = λ v k j mg mg' differ h. set-other v k j mg mg' mg.status differ h;
  set_conditions_other =
      λ c j mg mg' differ h. ap (λ x. read_status x.status j) (sym (ok-injective h));
  add_annotation_other = λ k v j mg. refl;
  remove_annotation_other = λ k j mg. refl;
}

abbrev pub release : Release
release = record { status = settled; revision = 1; chart_version = "1.0.0"; manifest = b'a' ∷ [] }

abbrev codec : {T : Type 0} → Codec (Unit {0}) T
codec = record { to_unstructured = λ t. ok tt; from_unstructured = λ u. err (failed "no object") }

module _ {W : Type 0} where
  abbrev pub done : {A : Type 0} → A → Act W A
  done a w = (ok a, w)

  -- The chart inspector names one pod.
  abbrev http : Http W
  http = record {
    Body = Unit {0};
    join_path = λ server path. ok server;
    new_request = λ u. ok [];
    get = λ u query. done (200, tt);
    read_all = λ body. ok "";
    decimal = λ n. "";
    token = λ body. ok true;
    elements = λ body.
        ok record {
          group = "";
          version = "v1";
          resource = "pods";
          name = "site";
          namespace = "apps";
        }
        ∷ [];
    rest = λ body. ok [];
  }

  abbrev helm : HelmClient W (Unit {0}) (Unit {0})
  helm = record {
    new_client = λ ns. done tt;
    get_release = λ ns name. done (some release);
    rollback = λ ns name revision history. done (some release);
    upgrade = λ ns name url config history w. ((some release, none), w);
    install = λ ns name url config w. ((some release, none), w);
    uninstall = λ ns name. done tt;
  }

  -- A cluster without RBAC objects.
  abbrev pub client : DynamicClient W
  client = record {
    Unstructured = Unit {0};
    get = λ g ns name w. (err (not_found name), w);
    create = λ g ns name u. done u;
    update = λ g ns name u. done u;
    delete = λ g ns name. done tt;
    namespace = codec;
    role = codec;
    role_binding = codec;
    cluster_role = codec;
    cluster_role_binding = codec;
  }

  -- The environment over a client of the cluster and an update of the status.
  abbrev pub env_over : DynamicClient W → (Object → Act W Object) → Env W
  env_over client update_status = record {
    sa_name = "cdc";
    sa_namespace = "krateo";
    safe_release_name = false;
    chart_inspector_url = "http://inspector";
    krateo_namespace = "krateo";
    helm_max_history = 10;
    mapper = none;
    package_info_getter = some (λ o. done info);
    runtime = runtime;
    rand = record { safe_encode_string = λ s. s; string_8 = "qwertyui" };
    clock = record { Time = String; format = λ t. t; parse = λ s. some s; now = "t" };
    http = http;
    new_dynamic = done tt;
    client = client;
    from_api_version_and_kind =
        λ version kind. record { group = ""; version = version; kind = kind };
    gvk_to_gvr = λ gvk. done sites;
    update = λ o. done o;
    update_status = update_status;
    event = λ o reason action message w. w;
    Values = Unit {0};
    PostRenderer = Unit {0};
    helm = helm;
    values_from_spec = λ o. ok tt;
    inject_global_values = λ values o ns. done tt;
    label_post_render_from_spec = λ o ns. done tt;
    decoder = λ bytes. record { objects = []; last = bytes; failure = none };
  }

abbrev World : Type 0
World = Outcome String

abbrev pub env : Env World
env = env_over client (λ o w. (ok o, runtime.nested_string o "digest"))

pub env-HoldsDigest : HoldsDigest env (λ w. w)
env-HoldsDigest = record {
  update_status_stored = λ mg. record { at = λ w w' a ran. ap (λ r. r.1) (sym ran) };
  update_kept = λ mg d w p. p;
  event_kept = λ mg reason action message w. refl;
}
