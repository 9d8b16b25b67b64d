-- ===== src/Composition/Settled.antt =====
-- A composition that `Update` has written, and the next `Observe`.
use composition_dynamic_cont.Common.{
  String, ◌<>◌, false, none, some, List, ◌≡◌, ◌≢◌, ap, eq_iff, sym, ◌∙◌, subst, ◌==◌, string_eq,
  if◌then◌else◌, arith, Bool-cases, Option-cases, inl, inr,
}
use composition_dynamic_cont.Common.Effect.{failed, Outcome, ok, Act, fail, pure, lift, wrap, ◌>>=◌}
use composition_dynamic_cont.Common.Keeps.{Keeps, Keeps-bind, Keeps-wrap, Keeps-if}
use composition_dynamic_cont.Common.Ensures.{
  Ensures, Ensures-any, Ensures-lift, Ensures-wrap, Ensures-ran, Leaves, Leaves-bind, Leaves-keep,
  Leaves-wrap, Leaves-fail, Leaves-map,
}
use composition_dynamic_cont.Kube.{Object}
use composition_dynamic_cont.Meta.{
  get_release_name, is_gracefully_paused, set_gracefully_paused_time, gracefully_paused_time_key,
}
use composition_dynamic_cont.Archive.{Info}
use composition_dynamic_cont.Processor.{
  Release, Decoder, is_blank, decode_release, decode_min_release, compute_release_digest,
}
use composition_dynamic_cont.Processor.Laws.{ReadsAll, decode_release-compute_release_digest}
use composition_dynamic_cont.Composition.Env.{Env}
use composition_dynamic_cont.Composition.Steps.{
  reason_paused, paused_message, is_paused, deref, update_cr, get_package, run,
}
use composition_dynamic_cont.Composition.Support.{
  StatusManagerOpts, available, set_status, set_managed_resources, populate_managed_resources,
}
use composition_dynamic_cont.Composition.Support.Written.{IsStatusStore, set_status-Ensures}
use composition_dynamic_cont.Composition.Update.{
  mark_paused, stamp_pause, update_from_release, update_active, update,
}
use composition_dynamic_cont.Composition.Observe.{
  previous_digest, finish, out_of_date, compare_versions, compare_releases,
}

decode_release-digest :
    {T : Type 0} (get_api_version : T → String) (decoder : Decoder T) (rel : Release)
    (objects : List T) (digest : String)
    → ReadsAll decoder
    → decode_release get_api_version decoder (some rel) ≡ ok (objects, digest)
    → compute_release_digest (some rel) ≡ ok digest
decode_release-digest get_api_version decoder rel objects digest reads_all h =
    let (computed, decoded) =
      decode_release-compute_release_digest get_api_version decoder rel reads_all in
    elim (Bool-cases (is_blank rel.manifest)) [
      | inl blank ↦ ground arith
      | inr text ↦ elim (Option-cases (decoder rel.manifest).failure) [
        | inl complete ↦ ground arith
        | inr (e, stopped) ↦ absurd (ground arith)
      ]
    ]

module _ {W : Type 0} (env : Env W) where
  -- The digest in the status of the stored object. Only an update of the status changes it.
  pub record HoldsDigest (stored : W → Outcome String) : Type 0 where
    pub update_status_stored :
        (mg : Object)
        → Leaves (λ w. stored w ≡ env.runtime.nested_string mg "digest") (env.update_status mg)
    pub update_kept : (mg : Object) (d : String) → Keeps (λ w. stored w ≡ ok d) (env.update mg)
    pub event_kept :
        (mg : Object) (reason action message : String) (w : W)
        → stored (env.event mg reason action message w) ≡ stored w

  -- A digest that is not empty is the one that is compared, whatever the digest of the old release.
  compare_releases-at :
      (mg : Object) (pkg : Info) (old new : Release) (digest upgraded : String) (w : W)
      → (digest == "") ≡ false
      → env.runtime.nested_string mg "digest" ≡ ok digest
      → compute_release_digest (some new) ≡ ok upgraded
      → compare_releases env mg pkg (some old) (some new) w ≡ (
          if upgraded == digest
          then (if old.chart_version == new.chart_version
              then finish env mg pkg digest upgraded w
              else (ok out_of_date, w))
          else (ok out_of_date, w))
  unfolding compare_releases compare_versions previous_digest deref
  compare_releases-at mg pkg old new digest upgraded w given reads made =
      elim (Bool-cases (upgraded == digest)) [
        | inl same ↦ elim (Bool-cases (old.chart_version == new.chart_version)) [
          | inl version ↦ rw (made, reads, given, same, version)
          | inr version ↦ rw (made, reads, given, same, version)
        ]
        | inr other ↦ rw (made, reads, given, other)
      ]

  -- A release that `Update` has found under the name of the composition.
  abbrev pub Found : Object → Release → Type 0
  Found mg rel =
      (w : W) × (w' : W) × (env.helm.get_release mg.namespace (get_release_name mg) w
        ≡ (ok (some rel), w'))

  module _ (R : IsStatusStore env.runtime) (stored : W → Outcome String)
      (H : HoldsDigest stored) where
    update_cr-Keeps : (mg : Object) (d : String) → Keeps (λ w. stored w ≡ ok d) (update_cr env mg)
    unfolding update_cr
    update_cr-Keeps mg d =
        Keeps-wrap _ "updating cr with values" (env.update mg) (H.update_kept mg d)

    stamp_pause-Keeps :
        (mg : Object) (d : String) → Keeps (λ w. stored w ≡ ok d) (stamp_pause env mg)
    unfolding stamp_pause mark_paused
    stamp_pause-Keeps mg d =
        Keeps-if _ (is_gracefully_paused mg)
          (mark_paused env (set_gracefully_paused_time env.clock env.runtime mg env.clock.now))
          (pure (env.runtime.remove_annotation gracefully_paused_time_key mg))
          (λ w p. H.event_kept _ _ _ _ w ∙ p) (λ w p. p)

    -- What follows the update of the status.
    abbrev close : Object → Act W (Unit {0})
    close mg = stamp_pause env mg >>= λ stamped. update_cr env stamped >>= λ _. pure tt

    close-Keeps : (mg : Object) (d : String) → Keeps (λ w. stored w ≡ ok d) (close mg)
    close-Keeps mg d =
        Keeps-bind _ (stamp_pause env mg) (λ stamped. update_cr env stamped >>= λ _. pure tt)
          (stamp_pause-Keeps mg d)
          (λ stamped.
            Keeps-bind _ (update_cr env stamped) (λ _. pure tt) (update_cr-Keeps stamped d)
              (λ _ w p. p))

    update_status-Leaves :
        (mg : Object) (d : String)
        → env.runtime.nested_string mg "digest" ≡ ok d
        → Leaves (λ w. stored w ≡ ok d) (env.update_status mg)
    update_status-Leaves mg d reads = record {
      at = λ w w' a ran. (H.update_status_stored mg).at w w' a ran ∙ reads;
    }

    abbrev write_status : Object → StatusManagerOpts → Act W (Unit {0})
    write_status mg opts = wrap "setting status" (set_status env mg opts) >>= λ mg'.
        wrap "updating cr status with values" (env.update_status mg') >>= close

    write_status-Leaves :
        (mg : Object) (opts : StatusManagerOpts)
        → Leaves (λ w. stored w ≡ ok opts.digest) (write_status mg opts)
    write_status-Leaves mg opts =
        Leaves-bind (Ensures-wrap "setting status" (set_status-Ensures env R mg opts)) (λ mg' set.
          Leaves-keep close
            (Leaves-wrap "updating cr status with values"
              (update_status-Leaves mg' opts.digest set.digest))
            (λ mg₃. close-Keeps mg₃ opts.digest))

    decoded-Ensures :
        (rel : Release)
        → ReadsAll env.decoder
        → Ensures
            (λ r. compute_release_digest (some rel) ≡ ok r.1)
            (wrap "decoding release" (lift {W = W} (decode_min_release env.decoder (some rel))))
    unfolding decode_min_release
    decoded-Ensures rel reads_all = Ensures-wrap "decoding release" (
        Ensures-lift _ (λ (objects, digest) h.
          decode_release-digest _ env.decoder rel objects digest reads_all h))

    update_from_release-Leaves :
        (mg : Object) (pkg : Info) (rel : Release)
        → ReadsAll env.decoder
        → Leaves
            (λ w.
              (digest : String) × (compute_release_digest (some rel) ≡ ok digest)
              × (stored w ≡ ok digest))
            (update_from_release env mg pkg rel)
    unfolding update_from_release
    update_from_release-Leaves mg pkg rel reads_all =
        Leaves-bind
          (Ensures-any (
            wrap "getting previous digest from status"
              (lift (env.runtime.nested_string mg "digest"))))
          (λ previous _. Leaves-bind (decoded-Ensures rel reads_all) (λ (all, digest) made.
            Leaves-bind
              (Ensures-any (
                wrap "populating managed resources"
                  (populate_managed_resources env all mg.namespace)))
              (λ managed _.
                Leaves-bind (Ensures-any (lift (set_managed_resources mg managed))) (λ mg₁ _.
                  Leaves-bind
                    {f = λ _. write_status mg₁ record {
                      force = false;
                      chart_url = pkg.url;
                      chart_version = pkg.version;
                      resources = all;
                      previous_digest = previous;
                      digest = digest;
                      message = "Composition values updated";
                      condition_type = available;
                    }}
                    (Ensures-any (
                      run (
                        env.event mg₁ "CompositionUpdated" "Update"
                          ("Updated composition: " <> mg₁.name))))
                    (λ _ _.
                      Leaves-map (λ w holds. (digest, made, holds)) (write_status-Leaves mg₁ _))))))

    abbrev SettledWith : Object → W → Type 0
    SettledWith mg w =
        (rel : Release) × (digest : String) × Found mg rel
        × (compute_release_digest (some rel) ≡ ok digest)
        × (stored w ≡ ok digest)

    update_active-Leaves :
        (mg : Object) → ReadsAll env.decoder → Leaves (SettledWith mg) (update_active env mg)
    unfolding update_active
    update_active-Leaves mg reads_all = Leaves-bind (Ensures-any (get_package env mg)) (λ pkg _.
        Leaves-bind (Ensures-any (wrap "creating helm client" (env.helm.new_client mg.namespace)))
          (λ _ _.
            Leaves-bind
              (Ensures-wrap "getting helm release"
                (Ensures-ran (env.helm.get_release mg.namespace (get_release_name mg))))
              (λ rel.
                elim rel
                  as (λ o.
                    ((w : W) × (w' : W) × (env.helm.get_release mg.namespace (get_release_name mg) w
                        ≡ (ok o, w')))
                    → Leaves {A = Unit {0}} (SettledWith mg) (elim o as (λ _. Act W (Unit {0})) [
                      | none ↦ fail (failed "release not found after upgrade")
                      | some found ↦ update_from_release env mg pkg found
                    ])) [
                      | none ↦ λ _. Leaves-fail (failed "release not found after upgrade")
                      | some found ↦ λ came.
                          Leaves-map (λ w (digest, made, holds). (found, digest, came, made, holds))
                            (update_from_release-Leaves mg pkg found reads_all)
                    ])))

    update-Leaves :
        (mg : Object)
        → ReadsAll env.decoder
        → is_paused env mg ≡ false
        → Leaves (SettledWith mg) (update env mg)
    unfolding update
    update-Leaves mg reads_all active =
        Leaves-bind (Ensures-any (wrap "creating dynamic client" env.new_dynamic)) (λ _ _.
          subst
            (λ b. Leaves (SettledWith mg) (
              if b
              then run (env.event mg reason_paused "Update" paused_message)
              else update_active env mg))
            (sym active) (update_active-Leaves mg reads_all))

    not_empty : (o : Outcome String) (d : String) → o ≢ ok "" → o ≡ ok d → (d == "") ≡ false
    not_empty o d given is = elim (Bool-cases (d == "")) [
      | inl empty ↦ absurd (given (is ∙ ap ok ((eq_iff d "").0 empty)))
      | inr other ↦ other
    ]

    -- If `Update` returns without an error on a composition that is not paused, it has found a
    -- release under the composition's name, and the status that the cluster then holds has the
    -- digest of that release, through all the writes that follow. When `Observe` later compares an
    -- old release with an upgraded one, on an object that has this digest, then it takes the digest of
    -- the old release from the status, whatever the old release is: where the digest of the upgraded
    -- release is that of the release that `Update` found, and the chart version is the same, it goes
    -- on to report the composition as up to date, and it does not ask for another update; elsewhere it
    -- reports it as out of date, and writes nothing. The digest is not empty, the status reads back
    -- what was set, only an update of the status changes the stored digest, and the decoder reads the
    -- whole manifest unless it fails.
    pub update-settles :
        (mg : Object) (w w' : W)
        → ReadsAll env.decoder
        → is_paused env mg ≡ false
        → update env mg w ≡ (ok tt, w')
        → stored w' ≢ ok ""
        → (mg' : Object) (pkg : Info) (v : W) → env.runtime.nested_string mg' "digest" ≡ stored w'
        → (old new : Release) (upgraded : String) → compute_release_digest (some new) ≡ ok upgraded
        → (rel : Release) × (digest : String) × Found mg rel
          × (stored w' ≡ ok digest)
          × (compute_release_digest (some rel) ≡ ok digest)
          × (compare_releases env mg' pkg (some old) (some new) v ≡ (
              if upgraded == digest
              then (if old.chart_version == new.chart_version
                  then finish env mg' pkg digest upgraded v
                  else (ok out_of_date, v))
              else (ok out_of_date, v)))
    update-settles mg w w' reads_all active ran given mg' pkg v reads old new upgraded made =
        let (rel, digest, found, computed, holds) =
          (update-Leaves mg reads_all active).at w w' tt ran in
        (
          rel,
          digest,
          found,
          holds,
          computed,
          compare_releases-at mg' pkg old new digest upgraded v
              (not_empty (stored w') digest given holds) (reads ∙ holds) made,
        )
