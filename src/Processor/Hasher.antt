-- ===== src/Processor/Hasher.antt =====
-- internal/tools/hasher/hasher.go over `hash/fnv`: 64-bit FNV-1, printed in hexadecimal.
pub mod Bounds
pub mod Hexadecimal
use Prim.Native.Nat.{bit_xor}
use composition_dynamic_cont.Common.{
  ℕ, zero, suc, ◌*◌, ◌/◌, ◌%◌, ◌^◌, String, ◌<>◌, none, some, List, [], ◌∷◌, ◌++◌, ◌≡◌, refl, ◌==◌,
  nat_eq, if◌then◌else◌, get_elem?, Option, ◌⊎◌, inl, inr,
}
use composition_dynamic_cont.Common.Effect.{Error}

abbrev pub offset_basis : ℕ
offset_basis = 14695981039346656037

abbrev prime : ℕ
prime = 1099511628211

-- One byte: the product wraps at 64 bits.
mix : ℕ → ℕ → ℕ
mix h b = bit_xor ((h * prime) % 2 ^ 64) b

-- `Write`
unfoldable pub write : ℕ → List ℕ → ℕ
unfolding mix
write h [] = h
write h (b ∷ bytes) = write (mix h b) bytes

-- `SumHashStrings`
unfoldable pub sum_hash_strings : ℕ → List (List ℕ) → ℕ
unfolding write
sum_hash_strings h [] = h
sum_hash_strings h (s ∷ more) = sum_hash_strings (write h s) more

-- `SumHash`, over `json.Marshal`. What was written before an error stays in the hash.
unfoldable pub sum_hash : {V : Type 0} → (V → List ℕ ⊎ Error) → ℕ → List V → ℕ × Option Error
unfolding write
sum_hash marshal h [] = (h, none)
sum_hash marshal h (v ∷ more) = elim (marshal v) [
  | inl bytes ↦ sum_hash marshal (write h bytes) more
  | inr e ↦ (h, some e)
]

-- `Reset`
unfoldable pub reset : ℕ → ℕ
reset h = offset_basis

abbrev digits : List String
digits =
    "0" ∷ "1" ∷ "2" ∷ "3" ∷ "4" ∷ "5" ∷ "6" ∷ "7" ∷ "8" ∷ "9" ∷ "a" ∷ "b" ∷ "c" ∷ "d" ∷ "e" ∷ "f"
    ∷ []

digit : ℕ → String
digit n = elim (get_elem? digits n) [ none ↦ "" | some d ↦ d ]

-- `%x`: sixteen digits at most, without leading zeros.
hex : ℕ → ℕ → String
unfolding digit
hex zero n = ""
hex (suc fuel) n =
    let high = hex fuel (n / 16) in
    let low = digit (n % 16) in if n / 16 == 0 then low else high <> low

-- `GetHash`
unfoldable pub get_hash : ℕ → String
unfolding hex
get_hash h = hex 16 h

-- Writing two pieces is writing their concatenation.
pub write-append : (h : ℕ) (xs ys : List ℕ) → write h (xs ++ ys) ≡ write (write h xs) ys
unfolding write
write-append h [] ys = refl
write-append h (x ∷ xs) ys = write-append (mix h x) xs ys

-- The sum of one text is what writing it gives.
pub sum_hash_strings-one : (h : ℕ) (s : List ℕ) → sum_hash_strings h (s ∷ []) ≡ write h s
unfolding sum_hash_strings
sum_hash_strings-one h s = refl
