-- ===== src/Common/Preserves.antt =====
-- `Keeps` as a record, so that a call is read off the goal: one rule for each way to build a call.
use Prim.Native.String.{String}
use mathlib.Core.Bool.{Bool}
use composition_dynamic_cont.Common.Base.{if◌then◌else◌}
use composition_dynamic_cont.Common.Effect.{
  Error, Outcome, Act, pure, fail, crash, lift, wrap, wrap_around, attempt, ◌>>=◌,
}
use composition_dynamic_cont.Common.Keeps.{
  Keeps, Keeps-bind, Keeps-wrap, Keeps-wrap_result, Keeps-attempt, Keeps-if,
}

module _ {W : Type 0} where
  pub record Preserves (P : W → Type 0) {A : Type 0} (m : Act W A) : Type 0 where
    pub at : Keeps P m

  module _ {P : W → Type 0} where
    pub Preserves-bind :
        {A B : Type 0} {m : Act W A} {f : A → Act W B}
        → Preserves P m
        → ((a : A) → Preserves P (f a))
        → Preserves P (m >>= f)
    Preserves-bind {m} {f} hm hf = record { at = Keeps-bind P m f hm.at (λ a. (hf a).at) }

    pub Preserves-pure : {A : Type 0} (a : A) → Preserves P (pure a)
    Preserves-pure a = record { at = λ w p. p }

    pub Preserves-fail : {A : Type 0} (e : Error) → Preserves P (fail {A = A} e)
    Preserves-fail e = record { at = λ w p. p }

    pub Preserves-crash : {A : Type 0} → Preserves P (crash {A = A})
    Preserves-crash = record { at = λ w p. p }

    pub Preserves-lift : {A : Type 0} (o : Outcome A) → Preserves P (lift o)
    Preserves-lift o = record { at = λ w p. p }

    pub Preserves-wrap :
        {A : Type 0} (s : String) {m : Act W A} → Preserves P m → Preserves P (wrap s m)
    Preserves-wrap s {m} h = record { at = Keeps-wrap P s m h.at }

    pub Preserves-wrap_around :
        {A : Type 0} (s t : String) {m : Act W A} → Preserves P m → Preserves P (wrap_around s t m)
    Preserves-wrap_around s t {m} h = record {
      at = λ w p. Keeps-wrap_result P s t (m w) (h.at w p);
    }

    -- A call that only makes an error of a result.
    pub Preserves-wrap-lift :
        {A : Type 0} (s : String) (o : Outcome A) → Preserves P (wrap s (lift o))
    Preserves-wrap-lift s o = Preserves-wrap s (Preserves-lift o)

    pub Preserves-attempt : {A : Type 0} {m : Act W A} → Preserves P m → Preserves P (attempt m)
    Preserves-attempt {m} h = record { at = Keeps-attempt P m h.at }

    pub Preserves-if :
        {A : Type 0} (b : Bool) {m k : Act W A}
        → Preserves P m
        → Preserves P k
        → Preserves P (if b then m else k)
    Preserves-if b {m} {k} hm hk = record { at = Keeps-if P b m k hm.at hk.at }
