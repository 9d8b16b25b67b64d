-- ===== src/Tracer.antt =====
-- internal/tools/tracer/tracer.go: the resources that a helm run writes, read off the request paths.
pub mod Laws
mod Tests
use composition_dynamic_cont.Common.{
  ℕ, zero, suc, String, Bool, true, false, not, ◌&&◌, ◌||◌, Option, none, some, List, [], ◌∷◌, ◌++◌,
  ◌==◌, nat_eq, string_eq, if◌then◌else◌, ltb, length,
}
use composition_dynamic_cont.Common.Text.{split_slash}

pub record Resource : Type 0 where
  pub group : String
  pub version : String
  pub resource : String
  pub name : String
  pub namespace : String

pub record Tracer : Type 0 where
  pub resources : List Resource

-- `split[i]`, read only below the length.
abbrev piece : List String → ℕ → String
piece [] i = ""
piece (p ∷ ps) zero = p
piece (p ∷ ps) (suc i) = piece ps i

abbrev has_prefix : List String → Bool
has_prefix split = piece split 1 == "apis" || piece split 1 == "api"

-- The four shapes of a path that `RoundTrip` records.
unfoldable pub traced : List String → Option Resource
traced split =
    if length split == 8 && (has_prefix split && piece split 4 == "namespaces")
    then some (record {
      group = piece split 2;
      version = piece split 3;
      resource = piece split 6;
      namespace = piece split 5;
      name = piece split 7;
    })
    else if length split == 7 && (has_prefix split && piece split 3 == "namespaces")
    then some (record {
      group = "";
      version = piece split 2;
      resource = piece split 5;
      namespace = piece split 4;
      name = piece split 6;
    })
    else if length split == 6 && has_prefix split
    then some (record {
      group = piece split 2;
      version = piece split 3;
      resource = piece split 4;
      namespace = "";
      name = piece split 5;
    })
    else if length split == 5 && has_prefix split
    then some (record {
      group = "";
      version = piece split 2;
      resource = piece split 3;
      namespace = "";
      name = piece split 4;
    })
    else none

-- `field_manager` is the query parameter of that name, "" where there is none.
pub record Request : Type 0 where
  pub method : String
  pub path : String
  pub field_manager : String

trace : Tracer → List String → Tracer
trace t split =
    if ltb 2 (length split)
    then elim (traced split) [ none ↦ t | some r ↦ record { resources = t.resources ++ r ∷ [] } ]
    else t

-- `RoundTrip`, given whether the nested round tripper returned an error.
unfoldable pub round_trip : Tracer → Request → Bool → Tracer
unfolding trace
round_trip t req true = t
round_trip t req false =
    if not (req.method == "GET") && (req.method == "DELETE" || not (req.field_manager == ""))
    then trace t (split_slash req.path)
    else t
