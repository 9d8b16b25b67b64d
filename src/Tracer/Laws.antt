-- ===== src/Tracer/Laws.antt =====
-- Which requests the tracer records, and which it leaves out.
use composition_dynamic_cont.Common.{
  Bool, true, false, not, ◌&&◌, ◌||◌, some, [], ◌∷◌, ◌++◌, ◌≡◌, refl, ◌⊎◌, inl, inr, ◌==◌, nat_eq,
  string_eq, ltb, length, arith, Bool-cases, Option-cases,
}
use composition_dynamic_cont.Common.Text.{split_slash}
use composition_dynamic_cont.Tracer.{Resource, Tracer, Request, traced, trace, round_trip}

-- A request that succeeds and either deletes, or writes on behalf of a named field manager.
abbrev pub is_recorded : Request → Bool → Bool
is_recorded req is_error =
    not is_error
    && (not (req.method == "GET") && (req.method == "DELETE" || not (req.field_manager == "")))

-- A round trip never drops what was recorded, adds one resource at most, and adds none for a request
-- that failed, that reads, or that writes without a field manager unless it deletes.
pub round_trip_lem :
    (t : Tracer) (req : Request) (is_error : Bool)
    → ((round_trip t req is_error).resources ≡ t.resources)
      ⊎ ((r : Resource) × (is_recorded req is_error ≡ true)
          × (traced (split_slash req.path) ≡ some r)
          × ((round_trip t req is_error).resources ≡ t.resources ++ r ∷ []))
unfolding round_trip trace
round_trip_lem t req true = inl refl
round_trip_lem t req false = elim (Bool-cases (is_recorded req false)) [
  | inl recorded ↦ elim (Bool-cases (ltb 2 (length (split_slash req.path)))) [
    | inl long ↦ elim (Option-cases (traced (split_slash req.path))) [
      | inl other ↦ inl (ground arith)
      | inr (r, found) ↦ inr (r, recorded, found, ground arith)
    ]
    | inr short ↦ inl (ground arith)
  ]
  | inr ignored ↦ inl (ground arith)
]
