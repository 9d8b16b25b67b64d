-- ===== src/Processor/Hasher/Hexadecimal.antt =====
-- The text of a hash: `GetHash` of internal/tools/hasher/hasher.go, read back.
use Prim.Native.Char.{code}
use Prim.Native.String
use Prim.Native.String.{String, len, [], ◌∷◌}
use mathlib.Core.Path.{◌≡◌}
use mathlib.Core.Logic.{inl, inr}
use native.Mathlib.Omega.{arith}
use text.Mathlib.TextLemmas.{nil-append, cons-append}
use text.Mathlib.TextPositions.{len-append}
use composition_dynamic_cont.Common.{
  ℕ, zero, suc, ◌+◌, ◌-◌, ◌*◌, ◌/◌, ◌%◌, ◌^◌, ◌≤◌, ◌<◌, ◌==◌, nat_eq, if◌then◌else◌, ltb,
  Bool-cases,
}
use composition_dynamic_cont.Processor.Hasher.{digit, hex, get_hash}

-- The number that a hexadecimal digit stands for, and a text of digits behind a number.
abbrev digit_value : ℕ → ℕ
digit_value c = if ltb c 58 then c - 48 else c - 87

abbrev value_from : ℕ → String → ℕ
value_from acc [] = acc
value_from acc (c ∷ s) = value_from (acc * 16 + digit_value (code c)) s

-- The number that a hexadecimal text stands for.
abbrev pub value : String → ℕ
value = value_from 0

value_from-append :
    (acc : ℕ) (s t : String) → value_from acc (String.◌++◌ s t) ≡ value_from (value_from acc s) t
value_from-append acc [] t = rw nil-append
value_from-append acc (c ∷ s) t =
    rw cons-append (value_from-append (acc * 16 + digit_value (code c)) s t)

value_from-digit : (acc n : ℕ) → n < 16 → value_from acc (digit n) ≡ acc * 16 + n
unfolding digit
value_from-digit acc zero h = omega arith
value_from-digit acc (suc zero) h = omega arith
value_from-digit acc (suc (suc zero)) h = omega arith
value_from-digit acc (suc (suc (suc zero))) h = omega arith
value_from-digit acc (suc (suc (suc (suc zero)))) h = omega arith
value_from-digit acc (suc (suc (suc (suc (suc zero))))) h = omega arith
value_from-digit acc (suc (suc (suc (suc (suc (suc zero)))))) h = omega arith
value_from-digit acc (suc (suc (suc (suc (suc (suc (suc zero))))))) h = omega arith
value_from-digit acc (suc (suc (suc (suc (suc (suc (suc (suc zero)))))))) h = omega arith
value_from-digit acc (suc (suc (suc (suc (suc (suc (suc (suc (suc zero))))))))) h = omega arith
value_from-digit acc (suc (suc (suc (suc (suc (suc (suc (suc (suc (suc zero)))))))))) h =
    omega arith
value_from-digit acc (suc (suc (suc (suc (suc (suc (suc (suc (suc (suc (suc zero))))))))))) h =
    omega arith
value_from-digit acc (suc (suc (suc (suc (suc (suc (suc (suc (suc (suc (suc (suc zero))))))))))))
      h =
    omega arith
value_from-digit acc
      (suc (suc (suc (suc (suc (suc (suc (suc (suc (suc (suc (suc (suc zero))))))))))))) h =
    omega arith
value_from-digit acc
      (suc (suc (suc (suc (suc (suc (suc (suc (suc (suc (suc (suc (suc (suc zero)))))))))))))) h =
    omega arith
value_from-digit acc
      (suc (suc (suc (suc (suc (suc (suc (suc (suc (suc (suc (suc (suc (suc (suc zero)))))))))))))))
      h =
    omega arith
value_from-digit acc
      (suc
        (suc (suc (suc (suc (suc (suc (suc (suc (suc (suc (suc (suc (suc (suc (suc n))))))))))))))))
      h =
    absurd (omega arith)

len-digit : (n : ℕ) → len (digit n) ≤ 1
unfolding digit
len-digit zero = omega arith
len-digit (suc zero) = omega arith
len-digit (suc (suc zero)) = omega arith
len-digit (suc (suc (suc zero))) = omega arith
len-digit (suc (suc (suc (suc zero)))) = omega arith
len-digit (suc (suc (suc (suc (suc zero))))) = omega arith
len-digit (suc (suc (suc (suc (suc (suc zero)))))) = omega arith
len-digit (suc (suc (suc (suc (suc (suc (suc zero))))))) = omega arith
len-digit (suc (suc (suc (suc (suc (suc (suc (suc zero)))))))) = omega arith
len-digit (suc (suc (suc (suc (suc (suc (suc (suc (suc zero))))))))) = omega arith
len-digit (suc (suc (suc (suc (suc (suc (suc (suc (suc (suc zero)))))))))) = omega arith
len-digit (suc (suc (suc (suc (suc (suc (suc (suc (suc (suc (suc zero))))))))))) = omega arith
len-digit (suc (suc (suc (suc (suc (suc (suc (suc (suc (suc (suc (suc zero)))))))))))) = omega arith
len-digit (suc (suc (suc (suc (suc (suc (suc (suc (suc (suc (suc (suc (suc zero))))))))))))) =
    omega arith
len-digit (suc (suc (suc (suc (suc (suc (suc (suc (suc (suc (suc (suc (suc (suc zero)))))))))))))) =
    omega arith
len-digit
      (suc
        (suc (suc (suc (suc (suc (suc (suc (suc (suc (suc (suc (suc (suc (suc zero))))))))))))))) =
    omega arith
len-digit
      (suc (
        suc
          (suc (suc (suc (suc (suc (suc (suc (suc (suc (suc (suc (suc (suc (suc n)))))))))))))))) =
    omega arith

abbrev pow : ℕ → ℕ
pow zero = 1
pow (suc k) = 16 * pow k

value-hex : (fuel n : ℕ) → n < pow fuel → value (hex fuel n) ≡ n
unfolding hex
value-hex zero n h = omega arith
value-hex (suc fuel) n h =
    let high = value-hex fuel (n / 16) (omega arith) in
    let low = λ (acc : ℕ). value_from-digit acc (n % 16) (omega arith) in
    elim (Bool-cases (n / 16 == 0)) [
      | inl one ↦ rw one (omega (arith, low 0, (nat_eq.test_iff (n / 16) 0).0 one))
      | inr more ↦ rw more (
          omega (
            arith,
            value_from-append 0 (hex fuel (n / 16)) (digit (n % 16)),
            low (value (hex fuel (n / 16))),
            high,
          ))
    ]

len-hex : (fuel n : ℕ) → len (hex fuel n) ≤ fuel
unfolding hex
len-hex zero n = omega arith
len-hex (suc fuel) n = elim (Bool-cases (n / 16 == 0)) [
  | inl one ↦ rw one (omega (arith, len-digit (n % 16)))
  | inr more ↦ rw more (
      omega (
        arith,
        len-append (hex fuel (n / 16)) (digit (n % 16)),
        len-digit (n % 16),
        len-hex fuel (n / 16),
      ))
]

-- The text of a 64-bit hash has at most sixteen digits, and is read back as the hash.
pub value-get_hash : (h : ℕ) → h < 2 ^ 64 → (len (get_hash h) ≤ 16) × (value (get_hash h) ≡ h)
unfolding get_hash
value-get_hash h small = (len-hex 16 h, value-hex 16 h (omega arith))
