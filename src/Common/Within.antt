-- ===== src/Common/Within.antt =====
-- How often a call asks something: a bound for each way to build a call.
use Prim.Native.Nat.{ℕ, ◌+◌, ◌≤◌}
use Prim.Native.String.{String}
use native.Mathlib.Omega.{arith}
use composition_dynamic_cont.Common.Effect.{
  Error, Outcome, ok, err, panic, Act, pure, fail, wrap, wrap_result, attempt, attempt_result,
  then_run, ◌>>=◌,
}

module _ {W : Type 0} (asked : W → ℕ) where
  -- However the call ends, it has asked at most so many times.
  pub record Within (k : ℕ) {A : Type 0} (m : Act W A) : Type 0 where
    pub at : (w : W) → asked (m w).1 ≤ asked w + k

  then_run-Within :
      {A B : Type 0} (j k n : ℕ) (r : Outcome A × W) (f : A → Act W B)
      → asked r.1 ≤ n + j
      → ((a : A) → Within k (f a))
      → asked (then_run r f).1 ≤ n + (j + k)
  then_run-Within j k n (ok a, w) f h hf = let rest = (hf a).at w in omega arith
  then_run-Within j k n (err e, w) f h hf = omega arith
  then_run-Within j k n (panic, w) f h hf = omega arith

  pub Within-bind :
      {A B : Type 0} {m : Act W A} {f : A → Act W B} (j k : ℕ)
      → Within j m
      → ((a : A) → Within k (f a))
      → Within (j + k) (m >>= f)
  Within-bind {m} {f} j k hm hf = record {
    at = λ w. then_run-Within j k (asked w) (m w) f (hm.at w) hf;
  }

  pub Within-pure : {A : Type 0} (a : A) → Within 0 (pure a)
  Within-pure a = record { at = λ w. omega arith }

  pub Within-fail : {A : Type 0} (e : Error) → Within 0 (fail {A = A} e)
  Within-fail e = record { at = λ w. omega arith }

  wrap_result-Within :
      {A : Type 0} (s t : String) (n : ℕ) (r : Outcome A × W)
      → asked r.1 ≤ n
      → asked (wrap_result s t r).1 ≤ n
  wrap_result-Within s t n (ok a, w) h = h
  wrap_result-Within s t n (err e, w) h = h
  wrap_result-Within s t n (panic, w) h = h

  pub Within-wrap :
      {A : Type 0} (s : String) (k : ℕ) {m : Act W A} → Within k m → Within k (wrap s m)
  Within-wrap s k {m} h = record { at = λ w. wrap_result-Within _ _ (asked w + k) (m w) (h.at w) }

  attempt_result-Within :
      {A : Type 0} (n : ℕ) (r : Outcome A × W) → asked r.1 ≤ n → asked (attempt_result r).1 ≤ n
  attempt_result-Within n (ok a, w) h = h
  attempt_result-Within n (err e, w) h = h
  attempt_result-Within n (panic, w) h = h

  pub Within-attempt : {A : Type 0} (k : ℕ) {m : Act W A} → Within k m → Within k (attempt m)
  Within-attempt k {m} h = record { at = λ w. attempt_result-Within (asked w + k) (m w) (h.at w) }

  pub Within-more : {A : Type 0} (j k : ℕ) {m : Act W A} → j ≤ k → Within j m → Within k m
  Within-more j k fits h = record { at = λ w. let spent = h.at w in omega arith }
