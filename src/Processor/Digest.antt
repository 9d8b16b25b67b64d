-- ===== src/Processor/Digest.antt =====
-- The digest of a release as a number: `ComputeReleaseDigest` of
-- internal/tools/processor/processor.go over internal/tools/hasher/hasher.go.
use Prim.Native.String.{len}
use composition_dynamic_cont.Common.{◌^◌, ◌≤◌, ◌<◌, String, false, some, ◌≡◌, ap, arith}
use composition_dynamic_cont.Common.Effect.{ok}
use composition_dynamic_cont.Processor.{Release, is_blank, compute_release_digest}
use composition_dynamic_cont.Processor.Hasher.{offset_basis, write, get_hash, sum_hash_strings-one}
use composition_dynamic_cont.Processor.Hasher.Bounds.{IsBytes, write-lt}
use composition_dynamic_cont.Processor.Hasher.Hexadecimal.{value, value-get_hash}

-- The digest of a manifest that is not blank is the 64-bit hash of its bytes, in full: it stays below
-- 2 ^ 64 for a manifest of any length, its text has at most sixteen hexadecimal digits, and the text
-- is read back as the hash.
pub compute_release_digest-value :
    (rel : Release)
    → IsBytes rel.manifest
    → is_blank rel.manifest ≡ false
    → let hash = write offset_basis rel.manifest in
      (digest : String) × (compute_release_digest (some rel) ≡ ok digest)
      × (len digest ≤ 16)
      × (value digest ≡ hash)
      × (hash < 2 ^ 64)
unfolding compute_release_digest
compute_release_digest-value rel bytes text =
    let small = write-lt offset_basis rel.manifest (omega arith) bytes in
    let (short, back) = value-get_hash (write offset_basis rel.manifest) small in
    (
      get_hash (write offset_basis rel.manifest),
      rw text (ap (λ n. ok (get_hash n)) (sum_hash_strings-one offset_basis rel.manifest)),
      short,
      back,
      small,
    )
