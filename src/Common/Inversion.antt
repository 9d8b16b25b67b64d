-- ===== src/Common/Inversion.antt =====
-- Inversion of calls that returned.
use mathlib.Core.Path.{◌≡◌, refl}
use mathlib.Core.Logic.{◌⊎◌, inl, inr}
use native.Mathlib.Omega.{arith}
use Prim.Native.String.{String}
use composition_dynamic_cont.Common.Effect.{
  Error, Outcome, ok, err, panic, Act, lift, wrap, wrap_around, wrap_result, attempt,
  attempt_result, then_run, ◌>>=◌,
}

module _ {W A : Type 0} where
  pub run-cases :
      (x : Outcome A × W)
      → ((a : A) × (w : W) × (x ≡ (ok a, w)))
        ⊎ ((e : Error) × (w : W) × (x ≡ (err e, w)))
        ⊎ ((w : W) × (x ≡ (panic, w)))
  run-cases (ok a, w) = inl (a, w, refl)
  run-cases (err e, w) = inr (inl (e, w, refl))
  run-cases (panic, w) = inr (inr (w, refl))

  pub then_run-eq-ok :
      {B : Type 0} (r : Outcome A × W) (f : A → Act W B) {b : B} {w' : W}
      → then_run r f ≡ (ok b, w')
      → (a : A) × (w₁ : W) × (r ≡ (ok a, w₁)) × (f a w₁ ≡ (ok b, w'))
  then_run-eq-ok (ok a, w₁) f h = (a, w₁, refl, h)
  then_run-eq-ok (err e, w₁) f h = absurd (ground arith)
  then_run-eq-ok (panic, w₁) f h = absurd (ground arith)

  -- A sequence that returned ran both its parts.
  pub >>=-eq-ok :
      {B : Type 0} (m : Act W A) (f : A → Act W B) (w : W) {b : B} {w' : W}
      → (m >>= f) w ≡ (ok b, w')
      → (a : A) × (w₁ : W) × (m w ≡ (ok a, w₁)) × (f a w₁ ≡ (ok b, w'))
  >>=-eq-ok m f w h = then_run-eq-ok (m w) f h

  pub wrap_result-eq-ok :
      (s t : String) (r : Outcome A × W) {a : A} {w' : W}
      → wrap_result s t r ≡ (ok a, w')
      → r ≡ (ok a, w')
  wrap_result-eq-ok s t (ok a, w₁) h = h
  wrap_result-eq-ok s t (err e, w₁) h = absurd (ground arith)
  wrap_result-eq-ok s t (panic, w₁) h = absurd (ground arith)

  pub wrap-eq-ok :
      (s : String) (m : Act W A) (w : W) {a : A} {w' : W}
      → wrap s m w ≡ (ok a, w')
      → m w ≡ (ok a, w')
  wrap-eq-ok s m w h = wrap_result-eq-ok _ _ (m w) h

  pub wrap_around-eq-ok :
      (s t : String) (m : Act W A) (w : W) {a : A} {w' : W}
      → wrap_around s t m w ≡ (ok a, w')
      → m w ≡ (ok a, w')
  wrap_around-eq-ok s t m w h = wrap_result-eq-ok s t (m w) h

  pub lift-eq-ok :
      (o : Outcome A) (w : W) {a : A} {w' : W} → lift o w ≡ (ok a, w') → (o ≡ ok a) × (w ≡ w')
  lift-eq-ok o w h = (ground arith, ground arith)

  pub attempt_result-eq-ok :
      (r : Outcome A × W) {x : A ⊎ Error} {w' : W}
      → attempt_result r ≡ (ok x, w')
      → ((a : A) × (x ≡ inl a) × (r ≡ (ok a, w'))) ⊎ ((e : Error) × (x ≡ inr e) × (r ≡ (err e, w')))
  attempt_result-eq-ok (ok a, w₁) h = inl (a, ground arith, ground arith)
  attempt_result-eq-ok (err e, w₁) h = inr (e, ground arith, ground arith)
  attempt_result-eq-ok (panic, w₁) h = absurd (ground arith)

  pub attempt-eq-ok :
      (m : Act W A) (w : W) {x : A ⊎ Error} {w' : W}
      → attempt m w ≡ (ok x, w')
      → ((a : A) × (x ≡ inl a) × (m w ≡ (ok a, w')))
        ⊎ ((e : Error) × (x ≡ inr e) × (m w ≡ (err e, w')))
  attempt-eq-ok m w h = attempt_result-eq-ok (m w) h

-- A call that returns a value and an error.
pub both-cases :
    {W A B : Type 0} (r : (A × B) × W) → (a : A) × (b : B) × (w : W) × (r ≡ ((a, b), w))
both-cases ((a, b), w) = (a, b, w, refl)
