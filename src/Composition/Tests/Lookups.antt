-- ===== src/Composition/Tests/Lookups.antt =====
-- The questions to a REST mapper that fails, in the environment of Stored. The world is their number.
use composition_dynamic_cont.Common.{ℕ, ◌+◌, ◌*◌, ◌≤◌, some, [], ◌∷◌, length, arith}
use composition_dynamic_cont.Common.Effect.{failed, ok, err}
use composition_dynamic_cont.Processor.{MinimalMetadata}
use composition_dynamic_cont.Composition.Env.{Env, RestMapper}
use composition_dynamic_cont.Composition.Stored.{client, env_over}
use composition_dynamic_cont.Composition.Support.{populate_managed_resources}
use composition_dynamic_cont.Composition.Support.Lookups.{
  CountsMapper, populate_managed_resources-Within,
}

abbrev mapper : RestMapper ℕ
mapper = record { rest_mapping = λ gvk w. (err (failed "no match"), w + 1); reset = some (λ w. w) }

abbrev env : Env ℕ
env = record (env_over client (λ o w. (ok o, w))) { mapper = some mapper }

abbrev pod : MinimalMetadata
pod = record {
  api_version = "v1";
  kind = "Pod";
  name = "site";
  namespace = "apps";
  annotations = [];
}

mapper-Counts : CountsMapper (λ w. w) (some mapper)
mapper-Counts = (λ gvk. record { at = λ w. omega arith }, λ w. omega arith)

populate_managed_resources-Within_example :
    (populate_managed_resources env (pod ∷ []) "apps" 0).1 ≤ 0 + 2 * length (pod ∷ [])
populate_managed_resources-Within_example =
    populate_managed_resources-Within (λ w. w) env (pod ∷ []) "apps" mapper-Counts
      (λ gvk. record { at = λ w. omega arith }) 0
