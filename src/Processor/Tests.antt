-- ===== src/Processor/Tests.antt =====
-- A release with one object, and a decoder that reads it.
use Prim.Native.String.{len}
use composition_dynamic_cont.Processor.Hasher.{offset_basis, write}
use composition_dynamic_cont.Processor.Hasher.Bounds.{IsBytes}
use composition_dynamic_cont.Processor.Hasher.Hexadecimal.{value}
use composition_dynamic_cont.Processor.Digest.{compute_release_digest-value}
use composition_dynamic_cont.Common.{
  ◌≤◌, ◌<◌, ◌^◌, refl, arith, false, String, none, some, [], ◌∷◌, ◌≡◌, if◌then◌else◌,
}
use mathlib.Core.List.{append-nil}
use composition_dynamic_cont.Common.Effect.{ok, err}
use composition_dynamic_cont.Processor.{
  Release, settled, Decoder, is_blank, decode_release, compute_release_digest,
}
use composition_dynamic_cont.Processor.Laws.{
  ReadsAll, named_objects, digest_of, decode_release-compute_release_digest,
}

abbrev release : Release
release = record {
  status = settled;
  revision = 1;
  chart_version = "1.0.0";
  manifest = b'a' ∷ b'b' ∷ [];
}

-- Each document is one object, whose API version is "v1".
abbrev decoder : Decoder String
decoder bytes = record { objects = (bytes, "v1") ∷ []; last = []; failure = none }

decoder-ReadsAll : ReadsAll decoder
decoder-ReadsAll bytes h = append-nil bytes

decode_release-compute_release_digest_example :
    (compute_release_digest (some release) ≡ ok (digest_of (λ (s : String). s) release.manifest))
    × (decode_release (λ (s : String). s) decoder (some release) ≡ (
        if is_blank release.manifest then ok ([], "") else elim (decoder release.manifest).failure [
          | none ↦ ok (
            named_objects (λ (s : String). s) (decoder release.manifest).objects,
            digest_of (λ (s : String). s) release.manifest,
          )
          | some e ↦ err e
        ]))
decode_release-compute_release_digest_example =
    decode_release-compute_release_digest (λ (s : String). s) decoder release decoder-ReadsAll

release-IsBytes : IsBytes release.manifest
release-IsBytes = omega arith

release_text : is_blank release.manifest ≡ false
unfolding is_blank
release_text = refl

compute_release_digest-value_example :
    (digest : String) × (compute_release_digest (some release) ≡ ok digest)
    × (len digest ≤ 16)
    × (value digest ≡ write offset_basis release.manifest)
    × (write offset_basis release.manifest < 2 ^ 64)
compute_release_digest-value_example =
    compute_release_digest-value release release-IsBytes release_text
