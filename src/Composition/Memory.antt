-- ===== src/Composition/Memory.antt =====
-- An environment in memory. The world is the release, and every upgrade fails.
use composition_dynamic_cont.Common.{
  String, true, false, Option, none, some, [], ◌∷◌, refl, string_eq,
}
use composition_dynamic_cont.Common.Dict.{Dict, insert, erase}
use composition_dynamic_cont.Common.Effect.{not_found, failed, ok, err, Act}
use composition_dynamic_cont.Kube.{GroupVersionResource, Object, Runtime, IsLawful, Condition}
use composition_dynamic_cont.Meta.{gracefully_paused_key, gracefully_paused_time_key}
use composition_dynamic_cont.ChartInspector.{Http}
use composition_dynamic_cont.Archive.{Info, static_get}
use composition_dynamic_cont.Processor.{Release, settled}
use composition_dynamic_cont.Rbac.Client.{DynamicClient, Codec}
use composition_dynamic_cont.Composition.Env.{Env, ActionConfig, HelmClient}

abbrev pub World : Type 0
World = Option Release

abbrev pub no_world : World
no_world = none

abbrev pub composition : Dict String → Object
composition annotations = record {
  gvk = record { group = "g"; version = "v1"; kind = "Site" };
  api_version = "g/v1";
  name = "site";
  namespace = "apps";
  uid = "0123456789abcdef";
  labels = [];
  annotations = annotations;
  status = none;
  conditions = [];
}

abbrev pub active : Object
active = composition []

abbrev pub asked : Object
asked = composition ((gracefully_paused_key, "true") ∷ [])

abbrev pub paused : Object
paused = composition ((gracefully_paused_key, "true") ∷ (gracefully_paused_time_key, "t") ∷ [])

abbrev pub release : Release
release = record { status = settled; revision = 1; chart_version = "1.0.0"; manifest = b' ' ∷ [] }

abbrev pub condition : String → Condition
condition reason = record { type = "Ready"; status = "True"; reason = reason; message = "" }

abbrev pub runtime : Runtime
runtime = record {
  add_annotation = λ k v o. record o { annotations = insert k v o.annotations };
  remove_annotation = λ k o. record o { annotations = erase k o.annotations };
  nested_string = λ o k. ok "old";
  set_nested_field = λ v k o. ok o;
  get_condition = λ o type reason. none;
  set_conditions = λ c o. ok (record o { conditions = c ∷ [] });
  available = condition "Available";
  unavailable = condition "Unavailable";
  type_ready = "Ready";
}

pub runtime-IsLawful : IsLawful runtime
runtime-IsLawful = record {
  add_annotation_lem = λ k v o. refl;
  remove_annotation_lem = λ k o. refl;
}

abbrev pub done : {A : Type 0} → A → Act World A
done a w = (ok a, w)

abbrev pub codec : {T : Type 0} → Codec (Unit {0}) T
codec = record { to_unstructured = λ t. ok tt; from_unstructured = λ u. err (failed "no object") }

abbrev pub client : DynamicClient World
client = record {
  Unstructured = Unit {0};
  get = λ g ns name w. (err (not_found name), w);
  create = λ g ns name u. done u;
  update = λ g ns name u. done u;
  delete = λ g ns name. done tt;
  namespace = codec;
  role = codec;
  role_binding = codec;
  cluster_role = codec;
  cluster_role_binding = codec;
}

abbrev pub http : Http World
http = record {
  Body = Unit {0};
  join_path = λ server path. ok server;
  new_request = λ u. ok [];
  get = λ u query. done (200, tt);
  read_all = λ body. ok "";
  decimal = λ n. "";
  token = λ body. ok true;
  elements = λ body. [];
  rest = λ body. ok [];
}

-- Every upgrade fails.
abbrev pub helm : HelmClient World (Unit {0}) (Unit {0})
helm = record {
  new_client = λ ns. done tt;
  get_release = λ ns name w. (ok w, w);
  rollback = λ ns name revision history w. (ok w, w);
  upgrade = λ ns name url config history w. ((none, some (failed "timeout")), w);
  install = λ ns name url config w. ((some release, none), some release);
  uninstall = λ ns name w. (ok tt, none);
}

abbrev pub info : Info
info = record {
  url = "oci://charts/site";
  version = "1.0.0";
  repo = "";
  auth = some (record { username = ""; password = "" });
  insecure_skip_tls_verify = false;
  composition_definition_info = some (record {
    namespace = "krateo";
    name = "site";
    gvr = record { group = "core"; version = "v1"; resource = "definitions" };
  });
}

abbrev pub sites : GroupVersionResource
sites = record { group = "g"; version = "v1"; resource = "sites" }

abbrev pub env_with : (Object → Act World Info) → Env World
env_with getter = record {
  sa_name = "cdc";
  sa_namespace = "krateo";
  safe_release_name = false;
  chart_inspector_url = "http://inspector";
  krateo_namespace = "krateo";
  helm_max_history = 10;
  mapper = some (record { rest_mapping = λ gvk. done false; reset = none });
  package_info_getter = some getter;
  runtime = runtime;
  rand = record { safe_encode_string = λ s. s; string_8 = "qwertyui" };
  clock = record { Time = String; format = λ t. t; parse = λ s. some s; now = "t" };
  http = http;
  new_dynamic = done tt;
  client = client;
  from_api_version_and_kind = λ version kind. record { group = ""; version = version; kind = kind };
  gvk_to_gvr = λ gvk. done sites;
  update = λ o. done o;
  update_status = λ o. done o;
  event = λ o reason action message w. w;
  Values = Unit {0};
  PostRenderer = Unit {0};
  helm = helm;
  values_from_spec = λ o. ok tt;
  inject_global_values = λ values o ns. done tt;
  label_post_render_from_spec = λ o ns. done tt;
  decoder = λ bytes. record { objects = []; last = bytes; failure = none };
}

abbrev pub env : Env World
env = env_with (λ o. done info)

abbrev pub static_env : Env World
static_env = env_with (static_get "charts/site.tgz")

abbrev pub config : ActionConfig (Unit {0}) (Unit {0})
config = record {
  chart_version = "1.0.0";
  chart_name = "";
  username = "";
  password = "";
  insecure_skip_tls_verify = false;
  values = tt;
  post_renderer = tt;
}
