-- ===== src/Processor.antt =====
-- internal/tools/processor and internal/tools/hasher: the objects and the digest of a release.
pub mod Hasher
pub mod Laws
pub mod Digest
mod Tests
use mathlib.Core.Option
use composition_dynamic_cont.Common.{
  ℕ, String, Bool, true, false, not, ◌&&◌, ◌||◌, Option, none, some, List, [], ◌∷◌, ◌++◌, ◌==◌,
  string_eq, nat_eq, if◌then◌else◌, ltb,
}
use composition_dynamic_cont.Common.Dict.{Dict}
use composition_dynamic_cont.Common.Effect.{Error, Outcome, ok, err, panic}
use composition_dynamic_cont.Processor.Hasher.{offset_basis, write, get_hash, sum_hash_strings}

-- internal/tools/processor/types.go
pub record MinimalMetadata : Type 0 where
  pub api_version : String
  pub kind : String
  pub name : String
  pub namespace : String
  pub annotations : Dict String

unfoldable pub set_namespace : MinimalMetadata → String → MinimalMetadata
set_namespace m namespace = record m { namespace = namespace }

unfoldable pub set_name : MinimalMetadata → String → MinimalMetadata
set_name m name = record m { name = name }

unfoldable pub set_annotations : MinimalMetadata → Dict String → MinimalMetadata
set_annotations m annotations = record m { annotations = annotations }

pub data ReleaseStatus : Type 0 where
  pending_install pending_upgrade pending_rollback settled : ReleaseStatus

-- `helm.Release` of plumbing, as far as it is read. The manifest is its bytes in UTF-8.
pub record Release : Type 0 where
  pub status : ReleaseStatus
  pub revision : ℕ
  pub chart_version : String
  pub manifest : List ℕ

-- How far the bytes of a white space character have been read.
pub data Space : Type 0 where
  start after_c2 after_e1 after_e1_9a after_e2 after_e2_80 after_e2_81 after_e3 after_e3_80
        no_space :
      Space

from_start : ℕ → Space
from_start b =
    if b == b' ' || (ltb 8 b && ltb b 14)
    then start
    else if b == 0xc2
    then after_c2
    else if b == 0xe1
    then after_e1
    else if b == 0xe2
    then after_e2
    else if b == 0xe3
    then after_e3
    else no_space

expect : Bool → Space → Space
expect found next = if found then next else no_space

unfoldable pub next_space : Space → ℕ → Space
unfolding from_start expect
next_space start b = from_start b
next_space after_c2 b = expect (b == 0x85 || b == 0xa0) start
next_space after_e1 b = expect (b == 0x9a) after_e1_9a
next_space after_e1_9a b = expect (b == 0x80) start
next_space after_e2 b = if b == 0x80 then after_e2_80 else expect (b == 0x81) after_e2_81
next_space after_e2_80 b =
    expect ((ltb 0x7f b && ltb b 0x8b) || (b == 0xa8 || (b == 0xa9 || b == 0xaf))) start
next_space after_e2_81 b = expect (b == 0x9f) start
next_space after_e3 b = expect (b == 0x80) after_e3_80
next_space after_e3_80 b = expect (b == 0x80) start
next_space no_space b = no_space

abbrev pub is_start : Space → Bool
is_start start = true
is_start _ = false

unfoldable pub blank_from : Space → List ℕ → Bool
blank_from s [] = is_start s
blank_from s (b ∷ bytes) = blank_from (next_space s b) bytes

-- `strings.TrimSpace(s) == ""`: the text is all Unicode white space.
unfoldable pub is_blank : List ℕ → Bool
unfolding blank_from next_space
is_blank bytes = blank_from start bytes

-- What the YAML decoder of apimachinery does with a reader until its first error: the objects with
-- the bytes that it read for each, then the bytes read last, and the error unless that was `io.EOF`.
pub record Decoded (T : Type 0) : Type 0 where
  pub objects : List (List ℕ × T)
  pub last : List ℕ
  pub failure : Option Error

abbrev pub Decoder : Type 0 → Type 0
Decoder T = List ℕ → Decoded T

module _ {T : Type 0} (get_api_version : T → String) where
  -- The loop of `DecodeRelease`. The `TeeReader` writes what is read to the hash.
  unfoldable pub decode_loop :
      List T → ℕ → List (List ℕ × T) → List ℕ → Option Error → Outcome (List T × String)
  decode_loop objects h [] last none = ok (objects, get_hash (write h last))
  decode_loop objects h [] last (some e) = err e
  decode_loop objects h ((chunk, obj) ∷ more) last failure =
      decode_loop (if get_api_version obj == "" then objects else objects ++ obj ∷ [])
        (write h chunk) more last failure

  unfoldable pub decode_release : Decoder T → Option Release → Outcome (List T × String)
  decode_release decoder none = ok ([], "")
  decode_release decoder (some rel) =
      if is_blank rel.manifest
      then ok ([], "")
      else let run = decoder rel.manifest in
        decode_loop [] offset_basis run.objects run.last run.failure

-- `DecodeMinRelease`
unfoldable pub decode_min_release :
    Decoder MinimalMetadata → Option Release → Outcome (List MinimalMetadata × String)
decode_min_release decoder rel = decode_release (λ m. m.api_version) decoder rel

-- `DecodeUnstructuredRelease`: the same at the type of whole objects.
unfoldable pub decode_unstructured_release :
    {U : Type 0} → (U → String) → Decoder U → Option Release → Outcome (List U × String)
decode_unstructured_release get_api_version decoder rel = decode_release get_api_version decoder rel

-- A nil release is dereferenced.
unfoldable pub compute_release_digest : Option Release → Outcome String
compute_release_digest none = panic
compute_release_digest (some rel) =
    if is_blank rel.manifest
    then ok ""
    else ok (get_hash (sum_hash_strings offset_basis (rel.manifest ∷ [])))
