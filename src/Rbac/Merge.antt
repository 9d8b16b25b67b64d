-- ===== src/Rbac/Merge.antt =====
-- What merging the wanted rules into those of an existing role gives.
use mathlib.Core.List.{append_assoc, append-nil}
use composition_dynamic_cont.Common.{
  Bool, true, false, List, [], ◌∷◌, ◌++◌, ◌≡◌, refl, ap, sym, subst, ◌||◌, not, ◌∙◌, arith, All,
  Bool-cases, ◌⊎◌, inl, inr, map,
}
use composition_dynamic_cont.Rbac.{PolicyRule, rule_beq, rule_beq_iff}
use composition_dynamic_cont.Rbac.Client.{normal}
use composition_dynamic_cont.Rbac.Installer.{rule_exists, merge_rules}

-- The rule is one of the rules.
abbrev pub Has : PolicyRule → List PolicyRule → Type 0
Has r [] = ⊥
Has r (x ∷ rules) = (x ≡ r) ⊎ Has r rules

-- Every wanted rule is one of the rules.
abbrev pub Holds : List PolicyRule → List PolicyRule → Type 0
Holds rules wanted = All (λ r. Has r rules) wanted

-- Likewise, where an empty list and nil are the same, as in what is stored.
abbrev pub Covers : List PolicyRule → List PolicyRule → Type 0
Covers rules wanted = All (λ r. Has (normal r) (map normal rules)) wanted

-- Each of these rules is neither among the existing ones nor among those before it.
abbrev pub AreNew : List PolicyRule → List PolicyRule → Type 0
AreNew existing [] = Unit {0}
AreNew existing (x ∷ added) = ¬ Has x existing × AreNew (existing ++ x ∷ []) added

-- The first list is some of the second, in the same order.
abbrev pub IsPartOf : List PolicyRule → List PolicyRule → Type 0
IsPartOf [] ys = Unit {0}
IsPartOf (x ∷ xs) [] = ⊥
IsPartOf (x ∷ xs) (y ∷ ys) = ((x ≡ y) × IsPartOf xs ys) ⊎ IsPartOf (x ∷ xs) ys

abbrev pub is_empty : List PolicyRule → Bool
is_empty [] = true
is_empty (_ ∷ _) = false

rule_exists-Has :
    (rules : List PolicyRule) (r : PolicyRule) → rule_exists rules r ≡ true → Has r rules
unfolding rule_exists
rule_exists-Has [] r h = absurd (ground arith)
rule_exists-Has (x ∷ rules) r h = elim (Bool-cases (rule_beq x r)) [
  | inl same ↦ inl ((rule_beq_iff x r).0 same)
  | inr other ↦ inr (rule_exists-Has rules r (ground (arith, other, h)))
]

Has-rule_exists :
    (rules : List PolicyRule) (r : PolicyRule) → Has r rules → rule_exists rules r ≡ true
unfolding rule_exists
Has-rule_exists [] r none = elim none [ ]
Has-rule_exists (x ∷ rules) r (inl same) = rw ((rule_beq_iff x r).1 same) refl
Has-rule_exists (x ∷ rules) r (inr more) = ground (arith, Has-rule_exists rules r more)

Has-append_left :
    (rules more : List PolicyRule) (r : PolicyRule) → Has r rules → Has r (rules ++ more)
Has-append_left [] more r none = elim none [ ]
Has-append_left (x ∷ rules) more r (inl same) = inl same
Has-append_left (x ∷ rules) more r (inr h) = inr (Has-append_left rules more r h)

Has-concat : (rules : List PolicyRule) (r : PolicyRule) → Has r (rules ++ r ∷ [])
Has-concat [] r = inl refl
Has-concat (x ∷ rules) r = inr (Has-concat rules r)

Has-normal :
    (rules : List PolicyRule) (r : PolicyRule) → Has r rules → Has (normal r) (map normal rules)
Has-normal [] r none = elim none [ ]
Has-normal (x ∷ rules) r (inl same) = inl (ap normal same)
Has-normal (x ∷ rules) r (inr h) = inr (Has-normal rules r h)

Holds-Covers : (rules wanted : List PolicyRule) → Holds rules wanted → Covers rules wanted
Holds-Covers rules [] h = tt
Holds-Covers rules (r ∷ wanted) (h, hs) = (Has-normal rules r h, Holds-Covers rules wanted hs)

Holds-suffix : (before rules : List PolicyRule) → Holds (before ++ rules) rules
Holds-suffix before [] = tt
Holds-suffix before (r ∷ rules) = (
  subst (Has r) (append_assoc before (r ∷ []) rules)
      (Has-append_left (before ++ r ∷ []) rules r (Has-concat before r)),
  subst (λ rs. Holds rs rules) (append_assoc before (r ∷ []) rules)
      (Holds-suffix (before ++ r ∷ []) rules),
)

pub Covers-refl : (rules : List PolicyRule) → Covers rules rules
Covers-refl rules = Holds-Covers rules rules (Holds-suffix [] rules)

pub Covers-same :
    (rules rules' wanted : List PolicyRule)
    → map normal rules' ≡ map normal rules
    → Covers rules wanted
    → Covers rules' wanted
Covers-same rules rules' wanted same h =
    subst (λ rs. All (λ r. Has (normal r) rs) wanted) (sym same) h

merge_rules-present :
    (existing : List PolicyRule) (modified : Bool) (x : PolicyRule) (wanted : List PolicyRule)
    → rule_exists existing x ≡ true
    → merge_rules existing modified (x ∷ wanted) ≡ merge_rules existing modified wanted
unfolding merge_rules
merge_rules-present existing modified x wanted h = rw h

merge_rules-absent :
    (existing : List PolicyRule) (modified : Bool) (x : PolicyRule) (wanted : List PolicyRule)
    → rule_exists existing x ≡ false
    → merge_rules existing modified (x ∷ wanted) ≡ merge_rules (existing ++ x ∷ []) true wanted
unfolding merge_rules
merge_rules-absent existing modified x wanted h = rw h

-- What a merge adds: new rules, some of the wanted ones in their order, until all are there.
abbrev pub Added : List PolicyRule → Bool → List PolicyRule → List PolicyRule → Type 0
Added existing modified wanted added =
    (merge_rules existing modified wanted ≡ (existing ++ added, modified || not (is_empty added)))
    × AreNew existing added
    × IsPartOf added wanted
    × Holds (existing ++ added) wanted

IsPartOf-tail :
    (xs : List PolicyRule) (y : PolicyRule) (ys : List PolicyRule)
    → IsPartOf xs ys
    → IsPartOf xs (y ∷ ys)
IsPartOf-tail [] y ys h = tt
IsPartOf-tail (x ∷ xs) y ys h = inr h

merge_rules-Added :
    (existing : List PolicyRule) (modified : Bool) (wanted : List PolicyRule)
    → (added : List PolicyRule) × Added existing modified wanted added
unfolding merge_rules
merge_rules-Added existing modified [] = ([], (rw append-nil (ground arith), tt, tt, tt))
merge_rules-Added existing modified (x ∷ wanted) = elim (Bool-cases (rule_exists existing x)) [
  | inl h ↦
      let (added, (e, new, part, holds)) = merge_rules-Added existing modified wanted in
      (
        added,
        (
          rw h e,
          new,
          IsPartOf-tail added x wanted part,
          (Has-append_left existing added x (rule_exists-Has existing x h), holds),
        ),
      )
  | inr h ↦
      let wider = existing ++ x ∷ [] in
      let (added, (e, new, part, holds)) = merge_rules-Added wider true wanted in
      let moved : wider ++ added ≡ existing ++ x ∷ added = append_assoc existing (x ∷ []) added in
      (
        x ∷ added,
        (
          rw h (e ∙ rw moved (ground arith)),
          (λ has. absurd (ground (arith, h, Has-rule_exists existing x has)), new),
          inl (refl, part),
          (
            subst (Has x) moved (Has-append_left wider added x (Has-concat existing x)),
            subst (λ rs. Holds rs wanted) moved holds,
          ),
        ),
      )
]

merge_rules-Holds :
    (existing : List PolicyRule) (modified : Bool) (wanted : List PolicyRule)
    → Holds (merge_rules existing modified wanted).0 wanted
merge_rules-Holds existing modified wanted =
    let (added, (e, _, _, holds)) = merge_rules-Added existing modified wanted in
    subst (λ m. Holds m.0 wanted) (sym e) holds

pub merge_rules-Covers :
    (existing : List PolicyRule) (modified : Bool) (wanted : List PolicyRule)
    → Covers (merge_rules existing modified wanted).0 wanted
merge_rules-Covers existing modified wanted =
    Holds-Covers _ wanted (merge_rules-Holds existing modified wanted)

Has-normal_left :
    (rules more : List PolicyRule) (r : PolicyRule)
    → Has r (map normal rules)
    → Has r (map normal (rules ++ more))
Has-normal_left [] more r none = elim none [ ]
Has-normal_left (x ∷ rules) more r (inl same) = inl same
Has-normal_left (x ∷ rules) more r (inr h) = inr (Has-normal_left rules more r h)

Covers-append_left :
    (rules more old : List PolicyRule) → Covers rules old → Covers (rules ++ more) old
Covers-append_left rules more [] h = tt
Covers-append_left rules more (r ∷ old) (h, hs) =
    (Has-normal_left rules more (normal r) h, Covers-append_left rules more old hs)

-- Rules that were there before a merge are there after it.
pub merge_rules-Covers_old :
    (existing : List PolicyRule) (modified : Bool) (wanted old : List PolicyRule)
    → Covers existing old
    → Covers (merge_rules existing modified wanted).0 old
merge_rules-Covers_old existing modified wanted old h =
    let (added, (e, _, _, _)) = merge_rules-Added existing modified wanted in
    subst (λ m. Covers m.0 old) (sym e) (Covers-append_left existing added old h)

-- Nothing is added where all is there.
merge_rules_of_Holds :
    (existing : List PolicyRule) (modified : Bool) (wanted : List PolicyRule)
    → Holds existing wanted
    → merge_rules existing modified wanted ≡ (existing, modified)
unfolding merge_rules
merge_rules_of_Holds existing modified [] h = refl
merge_rules_of_Holds existing modified (x ∷ wanted) (h, hs) =
    rw (Has-rule_exists existing x h) (merge_rules_of_Holds existing modified wanted hs)

is_empty-eq_nil : (rs : List PolicyRule) → is_empty rs ≡ true → rs ≡ []
is_empty-eq_nil [] h = refl
is_empty-eq_nil (r ∷ rs) h = cc

-- Where no change is reported the existing rules were enough.
pub Covers-of_unmodified :
    (existing wanted : List PolicyRule)
    → (merge_rules existing false wanted).1 ≡ false
    → Covers existing wanted
Covers-of_unmodified existing wanted h =
    let (added, (e, _, _, holds)) = merge_rules-Added existing false wanted in
    let none_added = is_empty-eq_nil added (ground arith) in
    let kept : existing ++ added ≡ existing =
      ap (λ rs. existing ++ rs) none_added ∙ append-nil existing in
    Holds-Covers existing wanted (subst (λ rs. Holds rs wanted) kept holds)

-- Merging puts rules behind the existing ones, and reports a change exactly if there are any (or
-- one was reported before). Each of the rules that it adds is neither among the existing ones nor
-- among those added before it, they are some of the wanted rules, in the order wanted, and with
-- them every wanted rule is there. A second merge of the same rules changes nothing.
pub merge_rules_lem :
    (existing : List PolicyRule) (modified : Bool) (wanted : List PolicyRule)
    → let merged = (merge_rules existing modified wanted).0 in
      ((added : List PolicyRule) × Added existing modified wanted added)
      × (merge_rules merged false wanted ≡ (merged, false))
merge_rules_lem existing modified wanted = (
  merge_rules-Added existing modified wanted,
  merge_rules_of_Holds _ false wanted (merge_rules-Holds existing modified wanted),
)
