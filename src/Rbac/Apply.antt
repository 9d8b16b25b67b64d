-- ===== src/Rbac/Apply.antt =====
-- What applying a role, a binding or a namespace leaves in the store.
use composition_dynamic_cont.Common.{
  String, true, false, Option, none, some, List, ◌≡◌, refl, ap, map, subst, ◌∙◌, inl, inr,
  string_eq, arith, eq_refl, Bool-cases,
}
use composition_dynamic_cont.Common.Effect.{Outcome-cases, ok}
use composition_dynamic_cont.Kube.{GroupVersionResource}
use composition_dynamic_cont.Rbac.{PolicyRule}
use composition_dynamic_cont.Rbac.Client.{
  Codec, DynamicClient, View, IsStore, Stored, same_key, IsFaithful, normal,
}
use composition_dynamic_cont.Rbac.Installer.{
  merge_rules, create_object, update_object, replace_object, merge_object,
}
use composition_dynamic_cont.Rbac.Merge.{
  Covers, Covers-refl, Covers-same, Covers-of_unmodified, merge_rules-Covers,
  merge_rules-Covers_old,
}

pub same_key_refl : (g : GroupVersionResource) (n m : String) → same_key g g n n m m ≡ true
same_key_refl g n m =
    rw (eq_refl g.group, eq_refl g.version, eq_refl g.resource, eq_refl n, eq_refl m)

module _ {W : Type 0} (c : DynamicClient W) (view : View W c.Unstructured) (S : IsStore c view)
    {T : Type 0} (what : String) (codec : Codec c.Unstructured T) (g : GroupVersionResource)
    (n m : String) where
  create_object-Stored :
      (u : c.Unstructured) (w w' : W) (t : T)
      → create_object c what codec g n m u w ≡ (ok t, w')
      → Stored view g n m w (some u) w' × (codec.from_unstructured u ≡ ok t)
  unfolding create_object
  create_object-Stored u w w' t h = elim (S.create_lem g n m u w) [
    | inl (e, failed) ↦ absurd (ground arith)
    | inr (w₁, done, st) ↦
        (subst (λ v. Stored view g n m w (some u) v) (ground arith) st, ground arith)
  ]

  update_object-Stored :
      (u : c.Unstructured) (w w' : W) (t : T)
      → update_object c what codec g n m u w ≡ (ok t, w')
      → Stored view g n m w (some u) w' × (codec.from_unstructured u ≡ ok t)
  unfolding update_object
  update_object-Stored u w w' t h = elim (S.update_lem g n m u w) [
    | inl (e, failed) ↦ absurd (ground arith)
    | inr (w₁, done, st) ↦
        (subst (λ v. Stored view g n m w (some u) v) (ground arith) st, ground arith)
  ]

  -- Every key but this one keeps its value.
  abbrev pub Frame : W → W → Type 0
  Frame w w' =
      (g' : GroupVersionResource) (n' m' : String)
      → same_key g g' n n' m m' ≡ false
      → view w' g' n' m' ≡ view w g' n' m'

  Stored-Frame : {w w' : W} {v : Option c.Unstructured} → Stored view g n m w v w' → Frame w w'
  Stored-Frame st g' n' m' ne = st.at g' n' m' ∙ rw ne

  Stored-at : {w w' : W} {v : Option c.Unstructured} → Stored view g n m w v w' → view w' g n m ≡ v
  Stored-at st = st.at g n m ∙ rw (same_key_refl g n m)

  read_unique :
      (w : W) (t s : T) (u v : c.Unstructured)
      → view w g n m ≡ some u
      → codec.from_unstructured u ≡ ok t
      → view w g n m ≡ some v
      → codec.from_unstructured v ≡ ok s
      → t ≡ s
  read_unique w t s u v p q p' q' = ground arith

  -- A replacement that returned has touched no other key.
  pub replace_object-Frame :
      (t r : T) (w w' : W) → replace_object c what codec g n m t w ≡ (ok r, w') → Frame w w'
  unfolding replace_object
  replace_object-Frame t r w w' h = elim (Outcome-cases (codec.to_unstructured t)) [
    | inl (u, converts) ↦ elim (S.get_lem g n m w) [
      | inl (e, nf, got) ↦ absurd (ground arith)
      | inr (inl (e, nf, absent, got)) ↦
          Stored-Frame (create_object-Stored u w w' r (ground arith)).0
      | inr (inr (v, present, got)) ↦ Stored-Frame (update_object-Stored u w w' r (ground arith)).0
    ]
    | inr bad ↦ absurd (ground arith)
  ]

  module _ (rules : T → List PolicyRule) where
    -- The stored object has every one of the rules.
    abbrev pub Grants : W → List PolicyRule → Type 0
    Grants w wanted =
        (t : T) × (u : c.Unstructured) × (view w g n m ≡ some u)
        × (codec.from_unstructured u ≡ ok t)
        × Covers (rules t) wanted

    -- What a merge does to the store: it grants the wanted rules, takes none away, and touches no
    -- other key.
    pub record Merged (wanted : List PolicyRule) (w w' : W) : Type 0 where
      pub grants : Grants w' wanted
      pub keeps : (old : List PolicyRule) → Grants w old → Grants w' old
      pub frame : Frame w w'

    unchanged :
        (wanted : List PolicyRule) (existing : T) (v : c.Unstructured) (w w' : W)
        → view w g n m ≡ some v
        → codec.from_unstructured v ≡ ok existing
        → Covers (rules existing) wanted
        → w ≡ w'
        → Merged wanted w w'
    unchanged wanted existing v w w' present reads cov e = subst (Merged wanted w) e (record {
      grants = (existing, v, present, reads, cov);
      keeps = λ old grants. grants;
      frame = λ g' n' m' ne. refl;
    })

    module _ (with_rules : T → List PolicyRule → T) (faithful : IsFaithful codec rules)
        (lens : (t : T) (rs : List PolicyRule) → rules (with_rules t rs) ≡ rs) where
      created :
          (t r : T) (u : c.Unstructured) (w w' : W)
          → codec.to_unstructured t ≡ ok u
          → view w g n m ≡ none
          → create_object c what codec g n m u w ≡ (ok r, w')
          → Merged (rules t) w w'
      created t r u w w' converts absent made =
          let (st, _) = create_object-Stored u w w' r made in
          let (t', reads, same) = faithful t u converts in
          record {
            grants = (
              t',
              u,
              Stored-at st,
              reads,
              Covers-same (rules t) (rules t') (rules t) same (Covers-refl (rules t)),
            );
            keeps = λ old (t₀, u₀, present, _, _). absurd (cc (absent, present));
            frame = Stored-Frame st;
          }

      -- The stored object is `existing`, and its rules cover the old ones.
      updated :
          (wanted : List PolicyRule) (existing r : T) (v u : c.Unstructured) (w w' : W)
          → view w g n m ≡ some v
          → codec.from_unstructured v ≡ ok existing
          → codec.to_unstructured
              (with_rules existing (merge_rules (rules existing) false wanted).0)
            ≡ ok u
          → update_object c what codec g n m u w ≡ (ok r, w')
          → Merged wanted w w'
      updated wanted existing r v u w w' present reads converts made =
          let (st, _) = update_object-Stored u w w' r made in
          let merged = (merge_rules (rules existing) false wanted).0 in
          let t = with_rules existing merged in
          let (t', reads', same) = faithful t u converts in
          let found : (rs : List PolicyRule) → Covers merged rs → Grants w' rs = λ rs cov. (
            t',
            u,
            Stored-at st,
            reads',
            Covers-same merged (rules t') rs (same ∙ ap (map normal) (lens existing merged)) cov,
          ) in
          record {
            grants = found wanted (merge_rules-Covers (rules existing) false wanted);
            keeps = λ old (t₀, u₀, p₀, r₀, cov). found old (
                merge_rules-Covers_old (rules existing) false wanted old (
                  subst (λ x. Covers (rules x) old)
                    (read_unique w t₀ existing u₀ v p₀ r₀ present reads) cov));
            frame = Stored-Frame st;
          }

      -- A merge that returned has granted the wanted rules, whichever way it went.
      pub merge_object-Merged :
          (t r : T) (w w' : W)
          → merge_object c what codec rules with_rules g n m t w ≡ (ok r, w')
          → Merged (rules t) w w'
      unfolding merge_object
      merge_object-Merged t r w w' h = elim (Outcome-cases (codec.to_unstructured t)) [
        | inl (u, converts) ↦ elim (S.get_lem g n m w) [
          | inl (e, nf, got) ↦ absurd (ground arith)
          | inr (inl (e, nf, absent, got)) ↦ created t r u w w' converts absent (ground arith)
          | inr (inr (v, present, got)) ↦ elim (Outcome-cases (codec.from_unstructured v)) [
            | inl (existing, reads) ↦
                let merged = merge_rules (rules existing) false (rules t) in
                elim (Bool-cases merged.1) [
                  | inl changed ↦
                      elim (Outcome-cases (codec.to_unstructured (with_rules existing merged.0))) [
                        | inl (x, stores) ↦
                            updated (rules t) existing r v x w w' present reads stores
                              (ground arith)
                        | inr bad ↦ absurd (ground arith)
                      ]
                  | inr same ↦
                      unchanged (rules t) existing v w w' present reads
                        (Covers-of_unmodified (rules existing) (rules t) same) (ground arith)
                ]
            | inr bad ↦ absurd (ground arith)
          ]
        ]
        | inr bad ↦ absurd (ground arith)
      ]
