-- ===== src/Processor/Hasher/Bounds.antt =====
-- The width of the hash of internal/tools/hasher/hasher.go, and of its text.
use Prim.Native.Nat.{bit_xor, bit_xor-bitwise, digits, differ}
use composition_dynamic_cont.Common.{
  ℕ, zero, suc, ◌*◌, ◌/◌, ◌%◌, ◌^◌, ◌<◌, List, [], ◌∷◌, nat_eq, arith, All,
}
use composition_dynamic_cont.Processor.Hasher.{prime, mix, write}

abbrev pow : ℕ → ℕ
pow zero = 1
pow (suc k) = 2 * pow k

differ-lt : (x y : ℕ) → x < 2 → y < 2 → differ x y < 2
differ-lt zero y hx hy = hy
differ-lt (suc zero) zero hx hy = omega arith
differ-lt (suc zero) (suc y) hx hy = omega arith
differ-lt (suc (suc x)) y hx hy = absurd (omega arith)

-- The exclusive or of two numbers of k binary digits has k binary digits.
digits-lt : (k n a b : ℕ) → a < pow k → b < pow k → digits (λ b. b) differ n a b < pow k
digits-lt k zero a b ha hb = hb
digits-lt k (suc n) zero b ha hb = hb
digits-lt zero (suc n) (suc a) b ha hb = absurd (omega arith)
digits-lt (suc k) (suc n) (suc a) b ha hb = omega (
  arith,
  digits-lt k n (suc a / 2) (b / 2) (omega arith) (omega arith),
  differ-lt (suc a % 2) (b % 2) (omega arith) (omega arith),
)

bit_xor-lt : (a b : ℕ) → a < 2 ^ 64 → b < 2 ^ 64 → bit_xor a b < 2 ^ 64
bit_xor-lt a b ha hb = omega (arith, bit_xor-bitwise a b, digits-lt 64 a a b ha hb)

-- The bytes of a text.
abbrev pub IsBytes : List ℕ → Type 0
IsBytes = All (λ b. b < 256)

mix-lt : (h b : ℕ) → b < 256 → mix h b < 2 ^ 64
unfolding mix
mix-lt h b hb = bit_xor-lt ((h * prime) % 2 ^ 64) b (omega arith) (omega arith)

pub write-lt : (h : ℕ) (bytes : List ℕ) → h < 2 ^ 64 → IsBytes bytes → write h bytes < 2 ^ 64
unfolding write
write-lt h [] hh hb = hh
write-lt h (b ∷ bytes) hh (hb, hs) = write-lt (mix h b) bytes (mix-lt h b hb) hs
