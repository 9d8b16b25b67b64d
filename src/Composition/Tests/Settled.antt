-- ===== src/Composition/Tests/Settled.antt =====
-- Runs of the reconciler in the environment of Stored.
use composition_dynamic_cont.Common.{
  String, false, some, [], ◌∷◌, ◌≡◌, ◌≢◌, refl, ap, ◌∙◌, ◌==◌, string_eq, eq_iff, arith,
  if◌then◌else◌,
}
use composition_dynamic_cont.Common.Effect.{Outcome, ok}
use composition_dynamic_cont.Kube.{Object, text, object, end, field, set_field}
use composition_dynamic_cont.Common.Dict.{lookup}
use composition_dynamic_cont.Meta.{is_gracefully_paused, get_gracefully_paused_time}
use composition_dynamic_cont.Processor.{
  Release, compute_release_digest, decode_release, decode_min_release, decode_loop, is_blank,
}
use composition_dynamic_cont.Processor.Hasher.{get_hash, write, sum_hash_strings}
use composition_dynamic_cont.Composition.Memory.{active, info}
use composition_dynamic_cont.Composition.Stored.{
  release, env, runtime-IsStatusStore, env-HoldsDigest,
}
use composition_dynamic_cont.Composition.Steps.{is_paused, update_cr, get_package}
use composition_dynamic_cont.Composition.Support.{
  set_status, set_resources, set_managed_resources, populate_managed_resources, set_condition,
  set_avaible_status, set_final_condition,
}
use composition_dynamic_cont.Composition.Update.{
  update, update_active, update_from_release, stamp_pause,
}
use composition_dynamic_cont.Composition.Observe.{out_of_date, compare_releases, finish}
use composition_dynamic_cont.Composition.Settled.{Found, update-settles}

active-IsPaused : is_paused env active ≡ false
unfolding is_paused is_gracefully_paused get_gracefully_paused_time lookup
active-IsPaused = refl

abbrev digest_written : Outcome String
digest_written = (update env active (ok "")).1

update-test : update env active (ok "") ≡ (ok tt, digest_written)
unfolding update update_active update_from_release stamp_pause is_paused is_gracefully_paused
    get_gracefully_paused_time update_cr get_package set_status set_resources set_managed_resources
    populate_managed_resources set_condition set_avaible_status set_final_condition
    decode_min_release decode_release decode_loop set_field lookup is_blank
update-test = refl

abbrev text_value : Outcome String → String
text_value (ok s) = s
text_value _ = ""

-- The composition with the digest that was written.
abbrev next : Object
next = record active {
  status = some (object (field "digest" (text (text_value digest_written)) end));
}

next-reads : env.runtime.nested_string next "digest" ≡ digest_written
unfolding update update_active update_from_release stamp_pause is_paused is_gracefully_paused
    get_gracefully_paused_time update_cr get_package set_status set_resources set_managed_resources
    populate_managed_resources set_condition set_avaible_status set_final_condition
    decode_min_release decode_release decode_loop set_field lookup is_blank
next-reads = refl

written-test : (text_value digest_written == "") ≡ false
unfolding update update_active update_from_release stamp_pause is_paused is_gracefully_paused
    get_gracefully_paused_time update_cr get_package set_status set_resources set_managed_resources
    populate_managed_resources set_condition set_avaible_status set_final_condition
    decode_min_release decode_release decode_loop set_field lookup is_blank get_hash write
written-test = refl

written-ne-empty : digest_written ≢ ok ""
written-ne-empty e =
    absurd (ground (arith, written-test, eq_iff (text_value digest_written) "", ap text_value e))

-- The release before the update, and the release that an upgrade then makes: a new revision of the
-- same manifest.
abbrev before : Release
before = record release { manifest = b'b' ∷ [] }

abbrev next_revision : Release
next_revision = record release { revision = 2 }

next_revision-test : compute_release_digest (some next_revision) ≡ digest_written
unfolding update update_active update_from_release stamp_pause is_paused is_gracefully_paused
    get_gracefully_paused_time update_cr get_package set_status set_resources set_managed_resources
    populate_managed_resources set_condition set_avaible_status set_final_condition
    decode_min_release decode_release decode_loop set_field lookup is_blank compute_release_digest
    write sum_hash_strings
next_revision-test = refl

is_ok : digest_written ≡ ok (text_value digest_written)
unfolding update update_active update_from_release stamp_pause is_paused is_gracefully_paused
    get_gracefully_paused_time update_cr get_package set_status set_resources set_managed_resources
    populate_managed_resources set_condition set_avaible_status set_final_condition
    decode_min_release decode_release decode_loop set_field lookup is_blank
is_ok = refl

update-settles_example :
    (rel : Release) × (digest : String) × Found env active rel
    × (digest_written ≡ ok digest)
    × (compute_release_digest (some rel) ≡ ok digest)
    × (compare_releases env next info (some before) (some next_revision) (ok "") ≡ (
        if text_value digest_written == digest
        then (if before.chart_version == next_revision.chart_version
            then finish env next info digest (text_value digest_written) (ok "")
            else (ok out_of_date, ok ""))
        else (ok out_of_date, ok "")))
update-settles_example =
    update-settles env runtime-IsStatusStore (λ w. w) env-HoldsDigest active (ok "") digest_written
      (λ bytes h. refl) active-IsPaused update-test written-ne-empty next info (ok "") next-reads
      before next_revision (text_value digest_written) (next_revision-test ∙ is_ok)
