-- ===== src/Common/Dict.antt =====
-- Go's `map[string]T` as an association list. Reading a missing key is the caller's default.
use Prim.Native.String.{String}
use mathlib.Core.Path.{◌≡◌, refl, subst, ◌∙◌}
use mathlib.Core.Logic.{inl, inr}
use mathlib.Core.Option.{Option, none, some}
use mathlib.Core.List.{List, [], ◌∷◌}
use native.Mathlib.Omega.{arith}
use text.Mathlib.TextEquality.{eq_iff}
use composition_dynamic_cont.Common.Base.{◌==◌, string_eq, if◌then◌else◌, Bool-cases}

abbrev pub Dict {ℓ} : Type ℓ → Type ℓ
Dict V = List (String × V)

module _ {ℓ} {V : Type ℓ} where
  unfoldable pub lookup : String → Dict V → Option V
  lookup key [] = none
  lookup key ((held, value) ∷ rest) = if held == key then some value else lookup key rest

  unfoldable pub insert : String → V → Dict V → Dict V
  insert key value [] = (key, value) ∷ []
  insert key value ((held, old) ∷ rest) =
      if held == key then (key, value) ∷ rest else (held, old) ∷ insert key value rest

  unfoldable pub erase : String → Dict V → Dict V
  erase key [] = []
  erase key ((held, value) ∷ rest) =
      if held == key then erase key rest else (held, value) ∷ erase key rest

  -- Reading after writing, at the same key or another.
  pub lookup-insert :
      (set read : String) (value : V) (d : Dict V)
      → lookup read (insert set value d) ≡ (if set == read then some value else lookup read d)
  unfolding lookup insert
  lookup-insert set read value [] = ground arith
  lookup-insert set read value ((held, old) ∷ rest) =
      ground (
        arith,
        lookup-insert set read value rest,
        eq_iff held set,
        eq_iff held read,
        eq_iff set read,
      )

  pub lookup-erase :
      (gone read : String) (d : Dict V)
      → lookup read (erase gone d) ≡ (if gone == read then none else lookup read d)
  unfolding lookup erase
  lookup-erase gone read [] = ground arith
  lookup-erase gone read ((held, old) ∷ rest) =
      ground
        (arith, lookup-erase gone read rest, eq_iff held gone, eq_iff held read, eq_iff gone read)

-- Each key stands once.
abbrev pub HasOnce : {V : Type 0} → Dict V → Type 0
HasOnce [] = Unit {0}
HasOnce ((key, value) ∷ rest) = (lookup key rest ≡ none) × HasOnce rest

pub insert-HasOnce :
    {V : Type 0} (set : String) (value : V) (d : Dict V) → HasOnce d → HasOnce (insert set value d)
unfolding insert lookup
insert-HasOnce set value [] h = (refl, tt)
insert-HasOnce set value ((held, old) ∷ rest) (h, hs) = elim (Bool-cases (held == set)) [
  | inl same ↦ rw same (subst (λ k. lookup k rest ≡ none) ((eq_iff held set).0 same) h, hs)
  | inr other ↦ rw other (
    lookup-insert set held value rest ∙ ground (arith, h, other, eq_iff held set, eq_iff set held),
    insert-HasOnce set value rest hs,
  )
]

-- `m[k]` on a `map[string]string`: the empty string for a missing key.
abbrev pub text_at : String → Dict String → String
text_at k m = elim (lookup k m) [ none ↦ "" | some v ↦ v ]

pub text_at-insert :
    (k j v : String) (m : Dict String)
    → text_at j (insert k v m) ≡ (if k == j then v else text_at j m)
text_at-insert k j v m = rw (lookup-insert k j v m, text_at) (ground (arith, eq_iff k j))
