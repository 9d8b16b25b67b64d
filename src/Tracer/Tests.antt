-- ===== src/Tracer/Tests.antt =====
-- Runs of the tracer.
use composition_dynamic_cont.Common.{true, false, some, [], ◌∷◌, ◌++◌, ◌≡◌, ◌⊎◌}
use composition_dynamic_cont.Common.Text.{split_slash}
use composition_dynamic_cont.Tracer.{Resource, Tracer, Request, traced, round_trip}
use composition_dynamic_cont.Tracer.Laws.{is_recorded, round_trip_lem}

abbrev empty : Tracer
empty = record { resources = [] }

abbrev deletion : Request
deletion = record {
  method = "DELETE";
  path = "/api/v1/namespaces/web/pods/front";
  field_manager = "";
}

round_trip_lem_example :
    ((round_trip empty deletion false).resources ≡ [])
    ⊎ ((r : Resource) × (is_recorded deletion false ≡ true)
        × (traced (split_slash deletion.path) ≡ some r)
        × ((round_trip empty deletion false).resources ≡ [] ++ r ∷ []))
round_trip_lem_example = round_trip_lem empty deletion false
