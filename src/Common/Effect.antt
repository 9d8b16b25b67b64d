-- ===== src/Common/Effect.antt =====
-- Errors as values, a Go panic, and effects on a world outside the program.
use Prim.Native.String.{String, ◌++◌ as ◌<>◌}
use mathlib.Core.Path.{◌≡◌, refl}
use mathlib.Core.Logic.{◌⊎◌, inl, inr}
use mathlib.Core.Bool.{Bool, true, false}

-- An error that `apierrors.IsNotFound` accepts, any other error, and `fmt.Errorf` with `%w`, whose
-- text stands between two others.
pub data Error : Type 0 where
  not_found : String → Error
  failed : String → Error
  wrapped : String → Error → String → Error

-- `err.Error()`
unfoldable pub error_text : Error → String
error_text (not_found s) = s
error_text (failed s) = s
error_text (wrapped before e after) = before <> (error_text e <> after)

-- `errors.IsNotFound`, which looks through the wrapping.
unfoldable pub is_not_found : Error → Bool
is_not_found (not_found s) = true
is_not_found (failed s) = false
is_not_found (wrapped before e after) = is_not_found e

-- `fmt.Errorf("before: %w", err)`
abbrev pub wrap_error : String → Error → Error
wrap_error before e = wrapped (before <> ": ") e ""

-- How a call ends. A panic unwinds the whole reconciliation.
pub data Outcome {ℓ} (A : Type ℓ) : Type ℓ where
  ok : A → Outcome A
  err : Error → Outcome A
  panic : Outcome A

abbrev pub wrap_outcome {ℓ} : {A : Type ℓ} → String → Outcome A → Outcome A
wrap_outcome before (ok a) = ok a
wrap_outcome before (err e) = err (wrap_error before e)
wrap_outcome before panic = panic

pub Outcome-cases {ℓ} :
    {A : Type ℓ} (o : Outcome A)
    → ((a : A) × (o ≡ ok a)) ⊎ ((e : Error) × (o ≡ err e)) ⊎ (o ≡ panic)
Outcome-cases (ok a) = inl (a, refl)
Outcome-cases (err e) = inr (inl (e, refl))
Outcome-cases panic = inr (inr refl)

-- A call that reads and changes the world outside the program.
abbrev pub Act : Type 0 → Type 0 → Type 0
Act W A = W → Outcome A × W

module _ {W : Type 0} where
  abbrev pub pure : {A : Type 0} → A → Act W A
  pure a w = (ok a, w)

  abbrev pub fail : {A : Type 0} → Error → Act W A
  fail e w = (err e, w)

  -- A nil dereference, an index out of range or a failed type assertion.
  abbrev pub crash : {A : Type 0} → Act W A
  crash w = (panic, w)

  abbrev pub lift : {A : Type 0} → Outcome A → Act W A
  lift o w = (o, w)

  abbrev pub then_run : {A B : Type 0} → Outcome A × W → (A → Act W B) → Outcome B × W
  then_run (ok a, w) f = f a w
  then_run (err e, w) f = (err e, w)
  then_run (panic, w) f = (panic, w)

  infixl 5 ◌>>=◌ ◌>>◌
  abbrev pub ◌>>=◌ : {A B : Type 0} → Act W A → (A → Act W B) → Act W B
  ◌>>=◌ m f w = then_run (m w) f

  abbrev pub ◌>>◌ : {A B : Type 0} → Act W A → Act W B → Act W B
  ◌>>◌ m k = m >>= λ _. k

  -- `if err != nil { return ..., fmt.Errorf("before%wafter", err) }`
  abbrev pub wrap_result : {A : Type 0} → String → String → Outcome A × W → Outcome A × W
  wrap_result before after (ok a, w) = (ok a, w)
  wrap_result before after (err e, w) = (err (wrapped before e after), w)
  wrap_result before after (panic, w) = (panic, w)

  abbrev pub wrap : {A : Type 0} → String → Act W A → Act W A
  wrap before m w = wrap_result (before <> ": ") "" (m w)

  abbrev pub wrap_around : {A : Type 0} → String → String → Act W A → Act W A
  wrap_around before after m w = wrap_result before after (m w)

  -- The error of a call as a value, for code that looks at it.
  abbrev pub attempt_result : {A : Type 0} → Outcome A × W → Outcome (A ⊎ Error) × W
  attempt_result (panic, w) = (panic, w)
  attempt_result (ok a, w) = (ok (inl a), w)
  attempt_result (err e, w) = (ok (inr e), w)

  abbrev pub attempt : {A : Type 0} → Act W A → Act W (A ⊎ Error)
  attempt m w = attempt_result (m w)
