-- ===== src/Common/Text.antt =====
-- `strings.Split(s, "/")` over the characters of a text.
use Prim.Native.Char.{Char, code}
use Prim.Native.String
use Prim.Native.String.{String, [], ◌∷◌}
use mathlib.Core.Path.{◌≡◌, refl, sym, ap, ◌∙◌}
use mathlib.Core.Logic.{◌≢◌}
use mathlib.Core.List.{List}
use native.Mathlib.Omega.{arith}
use text.Mathlib.TextLemmas.{nil-append, cons-append, append-nil}
use composition_dynamic_cont.Common.Base.{◌==◌, nat_eq, All, if◌then◌else◌}

-- A character in front of the first piece.
abbrev push_head : Char → List String → List String
push_head c List.[] = List.◌∷◌ (c ∷ []) List.[]
push_head c (List.◌∷◌ w ws) = List.◌∷◌ (c ∷ w) ws

unfoldable pub split_slash : String → List String
split_slash [] = List.◌∷◌ "" List.[]
split_slash (c ∷ s) =
    let pieces = split_slash s in if code c == b'/' then List.◌∷◌ "" pieces else push_head c pieces

abbrev pub NoSlash : String → Type 0
NoSlash [] = Unit
NoSlash (c ∷ s) = (code c ≢ b'/') × NoSlash s

-- A piece without a slash, before a slash, is the first piece.
pub split_slash-piece :
    (a s : String)
    → NoSlash a
    → split_slash (String.◌++◌ a (String.◌++◌ "/" s)) ≡ List.◌∷◌ a (split_slash s)
unfolding split_slash
split_slash-piece [] s h = rw nil-append (rw cons-append (rw nil-append refl))
split_slash-piece (c ∷ a) s (p, h) =
    rw cons-append (rw (split_slash-piece a s h, split_slash) (ground arith))

-- A text without a slash is its only piece.
pub split_slash-last : (a : String) → NoSlash a → split_slash a ≡ List.◌∷◌ a List.[]
unfolding split_slash
split_slash-last [] h = refl
split_slash-last (c ∷ a) (p, h) = rw (split_slash-last a h, split_slash) (ground arith)

-- Every piece behind a slash.
unfoldable pub join_path : List String → String
join_path List.[] = ""
join_path (List.◌∷◌ p ps) = String.◌++◌ "/" (String.◌++◌ p (join_path ps))

split_slash-append_join_path :
    (a : String) (ps : List String)
    → NoSlash a
    → All NoSlash ps
    → split_slash (String.◌++◌ a (join_path ps)) ≡ List.◌∷◌ a ps
unfolding join_path
split_slash-append_join_path a List.[] h _ = rw append-nil (split_slash-last a h)
split_slash-append_join_path a (List.◌∷◌ p ps) h (hp, hs) =
    rw (split_slash-piece a (String.◌++◌ p (join_path ps)) h)
      (ap (List.◌∷◌ a) (split_slash-append_join_path p ps hp hs))

-- Splitting undoes joining, where no piece holds a slash.
pub split_slash-join_path :
    (ps : List String) → All NoSlash ps → split_slash (join_path ps) ≡ List.◌∷◌ "" ps
split_slash-join_path ps h =
    ap split_slash (sym (nil-append (join_path ps))) ∙ split_slash-append_join_path "" ps tt h
