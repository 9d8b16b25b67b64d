-- ===== src/Processor/Laws.antt =====
-- The two ways to the digest of a release.
use mathlib.Core.List.{append-nil, append_assoc}
use composition_dynamic_cont.Common.{
  ℕ, String, false, not, none, some, List, [], ◌∷◌, ◌++◌, ◌≡◌, refl, ap, ap₂, sym, ◌∙◌, ◌==◌,
  string_eq, if◌then◌else◌, map, select, Bool-cases, Option-cases, inl, inr,
}
use composition_dynamic_cont.Common.Effect.{Error, ok, err}
use composition_dynamic_cont.Processor.{
  Release, Decoder, is_blank, decode_loop, decode_release, compute_release_digest,
}
use composition_dynamic_cont.Processor.Hasher.{
  offset_basis, write, get_hash, write-append, sum_hash_strings-one,
}

-- The bytes that the decoder read, in order.
abbrev pub read_chunks : {T : Type 0} → List (List ℕ × T) → List ℕ → List ℕ
read_chunks [] last = last
read_chunks ((chunk, _) ∷ more) last = chunk ++ read_chunks more last

-- The decoder reports the end of the input only when it has read all of it.
abbrev pub ReadsAll : {T : Type 0} → Decoder T → Type 0
ReadsAll decoder =
    (bytes : List ℕ)
    → (decoder bytes).failure ≡ none
    → read_chunks (decoder bytes).objects (decoder bytes).last ≡ bytes

module _ {T : Type 0} (get_api_version : T → String) where
  -- The decoded objects that have an API version.
  abbrev pub named_objects : List (List ℕ × T) → List T
  named_objects objects = select (λ o. not (get_api_version o == "")) (map (λ p. p.1) objects)

  decode_loop-ok :
      (acc : List T) (h : ℕ) (objects : List (List ℕ × T)) (last : List ℕ)
      → decode_loop get_api_version acc h objects last none
        ≡ ok (acc ++ named_objects objects, get_hash (write h (read_chunks objects last)))
  unfolding decode_loop
  decode_loop-ok acc h [] last = rw append-nil
  decode_loop-ok acc h ((chunk, obj) ∷ objects) last =
      decode_loop-ok (if get_api_version obj == "" then acc else acc ++ obj ∷ []) (write h chunk)
        objects last
      ∙ ap₂ (λ (os : List T) (n : ℕ). ok (os, get_hash n)) regroup
          (sym (write-append h chunk (read_chunks objects last)))
    where
      regroup :
          (if get_api_version obj == "" then acc else acc ++ obj ∷ []) ++ named_objects objects
          ≡ acc ++ named_objects ((chunk, obj) ∷ objects)
      regroup = elim (Bool-cases (get_api_version obj == "")) [
        | inl e ↦ rw e
        | inr e ↦ rw e (append_assoc acc (obj ∷ []) _)
      ]

  abbrev pub digest_of : List ℕ → String
  digest_of manifest = if is_blank manifest then "" else get_hash (write offset_basis manifest)

  decode_loop-err :
      (acc : List T) (h : ℕ) (objects : List (List ℕ × T)) (last : List ℕ) (e : Error)
      → decode_loop get_api_version acc h objects last (some e) ≡ err e
  unfolding decode_loop
  decode_loop-err acc h [] last e = refl
  decode_loop-err acc h ((chunk, obj) ∷ objects) last e =
      decode_loop-err (if get_api_version obj == "" then acc else acc ++ obj ∷ []) (write h chunk)
        objects last e

  digest_of-text :
      (manifest : List ℕ)
      → is_blank manifest ≡ false
      → digest_of manifest ≡ get_hash (write offset_basis manifest)
  digest_of-text manifest text = rw text

  -- Decoding a release gives the objects of its manifest that have an API version, in order, and the
  -- digest that `ComputeReleaseDigest` gives without decoding, so the digest that one operation stores
  -- is the one that a later operation compares with. Decoding fails exactly with the decoder's own
  -- error, where the manifest is not blank. A blank manifest has no objects and the empty digest. The
  -- decoder reads the whole manifest unless it fails.
  pub decode_release-compute_release_digest :
      (decoder : Decoder T) (rel : Release)
      → ReadsAll decoder
      → (compute_release_digest (some rel) ≡ ok (digest_of rel.manifest))
        × (decode_release get_api_version decoder (some rel) ≡ (
            if is_blank rel.manifest then ok ([], "") else elim (decoder rel.manifest).failure [
              | none ↦ ok (named_objects (decoder rel.manifest).objects, digest_of rel.manifest)
              | some e ↦ err e
            ]))
  unfolding decode_release compute_release_digest
  decode_release-compute_release_digest decoder rel reads_all =
      elim (Bool-cases (is_blank rel.manifest)) [
        | inl blank ↦ (rw (blank), rw (blank))
        | inr text ↦ (
          rw (text) (ap (λ n. ok (get_hash n)) (sum_hash_strings-one offset_basis rel.manifest)),
          elim (Option-cases (decoder rel.manifest).failure) [
            | inl complete ↦
                rw (text, complete)
                  (decode_loop-ok [] offset_basis (decoder rel.manifest).objects _
                    ∙ ap
                        (λ bytes. ok (
                          named_objects (decoder rel.manifest).objects,
                          get_hash (write offset_basis bytes),
                        ))
                        (reads_all rel.manifest complete)
                    ∙ ap (λ d. ok (named_objects (decoder rel.manifest).objects, d))
                        (sym (digest_of-text rel.manifest text)))
            | inr (e, failed) ↦ rw (text, failed) (decode_loop-err [] offset_basis _ _ e)
          ],
        )
      ]
