-- ===== src/Composition/Support/Written.antt =====
-- What `setStatus` has written, read back.
use composition_dynamic_cont.Common.{
  String, Bool, true, false, not, ◌&&◌, ◌≡◌, refl, ap, sym, ◌∙◌, ◌==◌, string_eq, if◌then◌else◌,
  arith, ◌⊎◌, inl, inr,
}
use composition_dynamic_cont.Common.Effect.{Outcome, ok, err, panic, lift, wrap, wrap_outcome}
use composition_dynamic_cont.Common.Ensures.{
  Ensures, Ensures-bind, Ensures-any, Ensures-lift, Ensures-wrap,
}
use composition_dynamic_cont.Kube.{Object, Condition, Runtime}
use composition_dynamic_cont.Composition.Env.{Env}
use composition_dynamic_cont.Composition.Support.{
  StatusManagerOpts, available, reconcile_gracefully_paused_type, has_message, set_condition,
  set_avaible_status, set_gracefully_paused_condition, set_resources, set_final_condition,
  set_status,
}

-- A field of the status reads back what was set, and keeps it where another field or an annotation
-- is set, and, but for the field of the conditions, where a condition is set.
pub record IsStatusStore (r : Runtime) : Type 0 where
  pub set_same :
      (v k : String) (mg mg' : Object)
      → r.set_nested_field v k mg ≡ ok mg'
      → r.nested_string mg' k ≡ ok v
  pub set_other :
      (v k j : String) (mg mg' : Object)
      → (k == j) ≡ false
      → r.set_nested_field v k mg ≡ ok mg'
      → r.nested_string mg' j ≡ r.nested_string mg j
  pub set_conditions_other :
      (c : Condition) (j : String) (mg mg' : Object)
      → (j == "conditions") ≡ false
      → r.set_conditions c mg ≡ ok mg'
      → r.nested_string mg' j ≡ r.nested_string mg j
  pub add_annotation_other :
      (k v j : String) (mg : Object)
      → r.nested_string (r.add_annotation k v mg) j ≡ r.nested_string mg j
  pub remove_annotation_other :
      (k j : String) (mg : Object)
      → r.nested_string (r.remove_annotation k mg) j ≡ r.nested_string mg j

wrap_outcome-eq-ok :
    {A : Type 0} (s : String) (o : Outcome A) (a : A) → wrap_outcome s o ≡ ok a → o ≡ ok a
wrap_outcome-eq-ok s (ok x) a h = h
wrap_outcome-eq-ok s (err e) a h = absurd (ground arith)
wrap_outcome-eq-ok s panic a h = absurd (ground arith)

pub ok-injective : {A : Type 0} {a b : A} → ok a ≡ ok b → a ≡ b
ok-injective {a} {b} h = ground arith

if-eq-ok :
    {A : Type 0} (b : Bool) (x y : Outcome A) (a : A)
    → (if b then x else y) ≡ ok a
    → (x ≡ ok a) ⊎ (y ≡ ok a)
if-eq-ok true x y a h = inl h
if-eq-ok false x y a h = inr h

module _ {W : Type 0} (env : Env W) (R : IsStatusStore env.runtime) where
  abbrev Reads : String → String → Object → Type 0
  Reads k v mg = env.runtime.nested_string mg k ≡ ok v

  set_condition-kept :
      (cond : Condition) (message : String) (force : Bool) (j : String) (mg mg' : Object)
      → (j == "conditions") ≡ false
      → set_condition env.runtime cond message force mg ≡ ok mg'
      → env.runtime.nested_string mg' j ≡ env.runtime.nested_string mg j
  unfolding set_condition
  set_condition-kept cond message force j mg mg' differ h =
      elim (if-eq-ok
        (not force && has_message (env.runtime.get_condition mg cond.type cond.reason) message)
        (ok mg)
        (wrap_outcome "setting condition"
          (env.runtime.set_conditions (record cond { message = message }) mg))
        mg' h) [
          | inl same ↦ ap (λ o. env.runtime.nested_string o j) (sym (ok-injective same))
          | inr set ↦
              R.set_conditions_other (record cond { message = message }) j mg mg' differ
                (wrap_outcome-eq-ok "setting condition" _ mg' set)
        ]

  set_final_condition-kept :
      (opts : StatusManagerOpts) (j : String) (mg mg' : Object)
      → (j == "conditions") ≡ false
      → set_final_condition env mg opts ≡ ok mg'
      → env.runtime.nested_string mg' j ≡ env.runtime.nested_string mg j
  unfolding set_final_condition set_avaible_status set_gracefully_paused_condition
  set_final_condition-kept opts j mg mg' differ =
      elim opts.condition_type
        as (λ x.
          (elim x [
            | reconcile_gracefully_paused_type ↦
                set_gracefully_paused_condition env.runtime mg opts.force
            | available ↦ set_avaible_status env.runtime mg opts.message opts.force
          ])
            ≡ ok mg'
          → env.runtime.nested_string mg' j ≡ env.runtime.nested_string mg j) [
            | reconcile_gracefully_paused_type ↦ set_condition-kept _ _ opts.force j mg mg' differ
            | available ↦ set_condition-kept _ opts.message opts.force j mg mg' differ
          ]

  -- The four fields that the options give.
  pub record IsWritten (opts : StatusManagerOpts) (mg : Object) : Type 0 where
    pub previous : Reads "previousDigest" opts.previous_digest mg
    pub digest : Reads "digest" opts.digest mg
    pub url : Reads "helmChartUrl" opts.chart_url mg
    pub version : Reads "helmChartVersion" opts.chart_version mg

  set_field-Ensures :
      (text v k : String) (mg : Object)
      → Ensures
          (λ mg'. env.runtime.set_nested_field v k mg ≡ ok mg')
          (wrap text (lift {W = W} (env.runtime.set_nested_field v k mg)))
  set_field-Ensures text v k mg = Ensures-wrap text (Ensures-lift _ (λ mg' h. h))

  pub set_status-Ensures :
      (mg : Object) (opts : StatusManagerOpts) → Ensures (IsWritten opts) (set_status env mg opts)
  unfolding set_status
  set_status-Ensures mg opts =
      Ensures-bind (Ensures-any (set_resources env mg opts.resources)) (λ mg₁ _.
        Ensures-bind
          (set_field-Ensures "setting previous digest in status" opts.previous_digest
            "previousDigest" mg₁)
          (λ mg₂ set₂.
            Ensures-bind (set_field-Ensures "setting digest in status" opts.digest "digest" mg₂)
              (λ mg₃ set₃.
                Ensures-bind
                  (set_field-Ensures "setting chart URL in status" opts.chart_url "helmChartUrl"
                    mg₃)
                  (λ mg₄ set₄.
                    Ensures-bind
                      (set_field-Ensures "setting chart version in status" opts.chart_version
                        "helmChartVersion" mg₄)
                      (λ mg₅ set₅. Ensures-lift (set_final_condition env mg₅ opts) (λ mg₆ set₆.
                        let final : (j : String)
                            → (j == "conditions") ≡ false
                            → env.runtime.nested_string mg₆ j ≡ env.runtime.nested_string mg₅ j =
                          λ j differ. set_final_condition-kept opts j mg₅ mg₆ differ set₆ in
                        record {
                          previous =
                              final _ refl
                              ∙ R.set_other _ _ _ mg₄ mg₅ refl set₅
                              ∙ R.set_other _ _ _ mg₃ mg₄ refl set₄
                              ∙ R.set_other _ _ _ mg₂ mg₃ refl set₃
                              ∙ R.set_same _ _ mg₁ mg₂ set₂;
                          digest =
                              final _ refl
                              ∙ R.set_other _ _ _ mg₄ mg₅ refl set₅
                              ∙ R.set_other _ _ _ mg₃ mg₄ refl set₄
                              ∙ R.set_same _ _ mg₂ mg₃ set₃;
                          url =
                              final _ refl
                              ∙ R.set_other _ _ _ mg₄ mg₅ refl set₅
                              ∙ R.set_same _ _ mg₃ mg₄ set₄;
                          version = final _ refl ∙ R.set_same _ _ mg₄ mg₅ set₅;
                        }))))))
