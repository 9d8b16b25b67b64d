-- ===== src/Common/Keeps.antt =====
-- Calls that keep a property of the world, however they end.
use Prim.Native.String.{String}
use mathlib.Core.Path.{◌≡◌, ap, subst}
use mathlib.Core.Bool.{Bool, true, false}
use composition_dynamic_cont.Common.Base.{if◌then◌else◌}
use composition_dynamic_cont.Common.Effect.{
  Outcome, ok, err, panic, Act, lift, wrap, wrap_result, attempt, attempt_result, then_run, ◌>>=◌,
}

module _ {W : Type 0} (P : W → Type 0) where
  abbrev pub Keeps : {A : Type 0} → Act W A → Type 0
  Keeps m = (w : W) → P w → P (m w).1

  Keeps-then_run :
      {A B : Type 0} (r : Outcome A × W) (f : A → Act W B)
      → P r.1
      → ((a : A) → Keeps (f a))
      → P (then_run r f).1
  Keeps-then_run (ok a, w) f p h = h a w p
  Keeps-then_run (err e, w) f p h = p
  Keeps-then_run (panic, w) f p h = p

  pub Keeps-bind :
      {A B : Type 0} (m : Act W A) (f : A → Act W B)
      → Keeps m
      → ((a : A) → Keeps (f a))
      → Keeps (m >>= f)
  Keeps-bind m f hm hf w p = Keeps-then_run (m w) f (hm w p) hf

  pub Keeps-wrap_result :
      {A : Type 0} (s t : String) (r : Outcome A × W) → P r.1 → P (wrap_result s t r).1
  Keeps-wrap_result s t (ok a, w) p = p
  Keeps-wrap_result s t (err e, w) p = p
  Keeps-wrap_result s t (panic, w) p = p

  pub Keeps-wrap : {A : Type 0} (s : String) (m : Act W A) → Keeps m → Keeps (wrap s m)
  Keeps-wrap s m h w p = Keeps-wrap_result _ _ (m w) (h w p)

  Keeps-attempt_result : {A : Type 0} (r : Outcome A × W) → P r.1 → P (attempt_result r).1
  Keeps-attempt_result (ok a, w) p = p
  Keeps-attempt_result (err e, w) p = p
  Keeps-attempt_result (panic, w) p = p

  pub Keeps-attempt : {A : Type 0} (m : Act W A) → Keeps m → Keeps (attempt m)
  Keeps-attempt m h w p = Keeps-attempt_result (m w) (h w p)

  pub Keeps-lift : {A : Type 0} (o : Outcome A) → Keeps (lift o)
  Keeps-lift o w p = p

  pub Keeps-if :
      {A : Type 0} (b : Bool) (m k : Act W A) → Keeps m → Keeps k → Keeps (if b then m else k)
  Keeps-if true m k hm hk = hm
  Keeps-if false m k hm hk = hk

  pub Keeps-at :
      {A : Type 0} (m : Act W A) (w w' : W) (o : Outcome A) → Keeps m → P w → m w ≡ (o, w') → P w'
  Keeps-at m w w' o h p ran = subst P (ap (λ r. r.1) ran) (h w p)
