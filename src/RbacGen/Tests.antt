-- ===== src/RbacGen/Tests.antt =====
-- The policy for a small release.
use composition_dynamic_cont.Common.{String, List, [], ◌∷◌, ◌≡◌, refl}
use composition_dynamic_cont.ChartInspector.{Resource}
use composition_dynamic_cont.RbacGen.{Gen, new_rbac_gen, with_base_name}
use composition_dynamic_cont.RbacGen.Laws

abbrev gen : Gen
gen = record { base_name = "site"; sa_name = "cdc"; sa_namespace = "krateo" }

gen_lem : with_base_name (new_rbac_gen "cdc" "krateo") "site" ≡ gen
unfolding with_base_name new_rbac_gen
gen_lem = refl

abbrev resource : String → String → String → Resource
resource plural namespace name = record {
  group = "";
  version = "v1";
  resource = plural;
  name = name;
  namespace = namespace;
}

abbrev release : List Resource
release =
    resource "namespaces" "" "web"
    ∷ resource "pods" "web" "front"
    ∷ resource "services" "web" "front"
    ∷ []

abbrev web : String
web = "web"
