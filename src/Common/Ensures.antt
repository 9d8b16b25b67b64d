-- ===== src/Common/Ensures.antt =====
-- What the value of a call that returned satisfies: one rule for each way to build a call.
use mathlib.Core.Path.{◌≡◌, subst, sym}
use Prim.Native.String.{String}
use mathlib.Core.Bool.{Bool, true, false}
use composition_dynamic_cont.Common.Base.{if◌then◌else◌}
use mathlib.Core.Logic.{◌⊎◌, inl, inr}
use native.Mathlib.Omega.{arith}
use composition_dynamic_cont.Common.Effect.{
  Error, Outcome, ok, Act, pure, fail, lift, wrap, attempt, attempt_result, ◌>>=◌,
}
use composition_dynamic_cont.Common.Keeps.{Keeps, Keeps-at}
use composition_dynamic_cont.Common.Inversion.{
  then_run-eq-ok, >>=-eq-ok, attempt_result-eq-ok, lift-eq-ok, wrap-eq-ok,
}

-- What the value of an attempt satisfies that did not fail.
abbrev pub Succeeded : {A : Type 0} → (A → Type 0) → A ⊎ Error → Type 0
Succeeded P (inl a) = P a
Succeeded P (inr e) = Unit

module _ {W : Type 0} where
  pub record Ensures {A : Type 0} (P : A → Type 0) (m : Act W A) : Type 0 where
    pub at : (w w' : W) (a : A) → m w ≡ (ok a, w') → P a

  module _ {A B : Type 0} {P : A → Type 0} {Q : B → Type 0} {m : Act W A} {f : A → Act W B} where
    pub Ensures-bind : Ensures P m → ((a : A) → P a → Ensures Q (f a)) → Ensures Q (m >>= f)
    Ensures-bind hm hf = record {
      at = λ w w' b h.
          let (a, w₁, ran, rest) = then_run-eq-ok (m w) f h in
          (hf a (hm.at w w₁ a ran)).at w₁ w' b rest;
    }

  pub Ensures-pure : {A : Type 0} {P : A → Type 0} (a : A) → P a → Ensures P (pure a)
  Ensures-pure {P} a p = record { at = λ w w' b h. subst P (ground arith) p }

  pub Ensures-fail : {A : Type 0} {P : A → Type 0} (e : Error) → Ensures P (fail e)
  Ensures-fail e = record { at = λ w w' b h. absurd (ground arith) }

  -- A call of which nothing is known.
  pub Ensures-any : {A : Type 0} (m : Act W A) → Ensures (λ _. Unit) m
  Ensures-any m = record { at = λ w w' b h. tt }

  Ensures-attempt_result :
      {A : Type 0} (P : A → Type 0) (r : Outcome A × W) (w' : W) (x : A ⊎ Error)
      → ((a : A) → r ≡ (ok a, w') → P a)
      → attempt_result r ≡ (ok x, w')
      → Succeeded P x
  Ensures-attempt_result P r w' x p h = elim (attempt_result-eq-ok r h) [
    | inl (a, is_a, ran) ↦ subst (Succeeded P) (sym is_a) (p a ran)
    | inr (e, is_e, ran) ↦ subst (Succeeded P) (sym is_e) tt
  ]

  pub Ensures-attempt :
      {A : Type 0} {P : A → Type 0} {m : Act W A} → Ensures P m → Ensures (Succeeded P) (attempt m)
  Ensures-attempt {P} {m} hm = record {
    at = λ w w' x h. Ensures-attempt_result P (m w) w' x (λ a. hm.at w w' a) h;
  }

  pub Ensures-lift :
      {A : Type 0} {P : A → Type 0} (o : Outcome A)
      → ((a : A) → o ≡ ok a → P a)
      → Ensures P (lift {W = W} o)
  Ensures-lift o p = record { at = λ w w' a h. p a (lift-eq-ok o w h).0 }

  pub Ensures-wrap :
      {A : Type 0} {P : A → Type 0} (s : String) {m : Act W A} → Ensures P m → Ensures P (wrap s m)
  Ensures-wrap s {m} hm = record { at = λ w w' a h. hm.at w w' a (wrap-eq-ok s m w h) }

  -- The value of a call came of a run of it.
  pub Ensures-ran :
      {A : Type 0} (m : Act W A) → Ensures (λ a. (w : W) × (w' : W) × (m w ≡ (ok a, w'))) m
  Ensures-ran m = record { at = λ w w' a h. (w, w', h) }

  -- What holds of the world behind a call that returned.
  pub record Leaves {A : Type 0} (Q : W → Type 0) (m : Act W A) : Type 0 where
    pub at : (w w' : W) (a : A) → m w ≡ (ok a, w') → Q w'

  module _ {A B : Type 0} {Q : W → Type 0} {m : Act W A} where
    pub Leaves-bind :
        {P : A → Type 0} {f : A → Act W B}
        → Ensures P m
        → ((a : A) → P a → Leaves Q (f a))
        → Leaves Q (m >>= f)
    Leaves-bind {f} hm hf = record {
      at = λ w w' b h.
          let (a, w₁, ran, rest) = then_run-eq-ok (m w) f h in
          (hf a (hm.at w w₁ a ran)).at w₁ w' b rest;
    }

    pub Leaves-keep :
        (f : A → Act W B) → Leaves Q m → ((a : A) → Keeps Q (f a)) → Leaves Q (m >>= f)
    Leaves-keep f hm hf = record {
      at = λ w w' b h.
          let (a, w₁, ran, rest) = then_run-eq-ok (m w) f h in
          Keeps-at Q (f a) w₁ w' (ok b) (hf a) (hm.at w w₁ a ran) rest;
    }

  pub Leaves-wrap :
      {A : Type 0} {Q : W → Type 0} (s : String) {m : Act W A} → Leaves Q m → Leaves Q (wrap s m)
  Leaves-wrap s {m} hm = record { at = λ w w' a h. hm.at w w' a (wrap-eq-ok s m w h) }

  pub Leaves-fail : {A : Type 0} {Q : W → Type 0} (e : Error) → Leaves Q (fail {A = A} e)
  Leaves-fail e = record { at = λ w w' b h. absurd (ground arith) }

  pub Leaves-map :
      {A : Type 0} {Q R : W → Type 0} {m : Act W A}
      → ((w : W) → Q w → R w)
      → Leaves Q m
      → Leaves R m
  Leaves-map f hm = record { at = λ w w' a h. f w' (hm.at w w' a h) }

  -- The branch that is not taken need not be read.
  pub Leaves-if-false :
      {A : Type 0} {Q : W → Type 0} (b : Bool) (m : Act W A) {k : Act W A}
      → b ≡ false
      → Leaves Q k
      → Leaves Q (if b then m else k)
  Leaves-if-false true m off hk = absurd (ground arith)
  Leaves-if-false false m off hk = hk

-- What holds between the two parts of a sequence, and how the second part went on from there.
pub Leaves-then :
    {W A B : Type 0} {P : W → Type 0} {m : Act W A} (f : A → Act W B)
    → Leaves P m
    → Leaves (λ w'. (a : A) × (b : B) × (w₁ : W) × P w₁ × (f a w₁ ≡ (ok b, w'))) (m >>= f)
Leaves-then {m} f hm = record {
  at = λ w w' b ran.
      let (a, w₁, done, rest) = >>=-eq-ok m f w ran in (a, b, w₁, hm.at w w₁ a done, rest);
}
