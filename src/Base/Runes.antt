-- ===== src/Base/Runes.antt =====
-- Go strings as the lists of their code points: the source walks `[]rune(s)`, so a text here is
-- a valid UTF-8 string. Equality and membership are decided by Boolean tests.
use Prim.Native.Nat.{ℕ}
use Prim.Native.Char.{code}
use Prim.Native.String.{String}
use mathlib.Core.Path.{◌≡◌, refl}
use mathlib.Core.Logic.{◌↔◌}
use mathlib.Core.Bool.{Bool, true, false, ◌&&◌}
use mathlib.Core.List.{List, [], ◌∷◌, map}
use native.Mathlib.Omega.{arith}
use felsen_mcp_server_postgr.Base.Order.{◌==◌, ==_iff}
use felsen_mcp_server_postgr.Base.Lists.{any, Any}

abbrev pub Text : Type 0
Text = List ℕ

-- A literal of the source, as a text.
unfoldable pub runes : String → Text
runes String.[] = []
runes (String.◌∷◌ c s) = code c ∷ runes s

-- `a == b` on strings.
unfoldable pub text_eq : Text → Text → Bool
text_eq [] [] = true
text_eq (x ∷ xs) (y ∷ ys) = x == y && text_eq xs ys
text_eq _ _ = false

pub text_eq_iff : (a b : Text) → (text_eq a b ≡ true) ↔ (a ≡ b)
unfolding text_eq
text_eq_iff (x ∷ a) (y ∷ b) = ground (arith, text_eq_iff a b, ==_iff x y)
text_eq_iff _ _ = ground arith

pub text_eq_refl : (a : Text) → text_eq a a ≡ true
text_eq_refl a = (text_eq_iff a a).1 refl

-- The text is one of a list: a Go `switch` over string cases, or a key of a `map[string]bool`.
unfoldable pub mem_text : Text → List Text → Bool
mem_text a xs = any (text_eq a) xs

-- One of a list of literals.
unfoldable pub one_of : List String → Text → Bool
unfolding mem_text
one_of words a = mem_text a (map runes words)

-- The literals that a text is tested against, as a predicate.
abbrev pub OneOf : List String → Text → Type 0
OneOf words a = Any (λ w. a ≡ runes w) words

pub one_of→OneOf : (words : List String) (a : Text) → one_of words a ≡ true → OneOf words a
unfolding one_of
one_of→OneOf [] a h = cc
one_of→OneOf (w ∷ words) a h = ground (arith, text_eq_iff a (runes w), one_of→OneOf words a)

pub OneOf→one_of : (words : List String) (a : Text) → OneOf words a → one_of words a ≡ true
unfolding one_of
OneOf→one_of [] a h = absurd h
OneOf→one_of (w ∷ words) a h = ground (arith, text_eq_iff a (runes w), OneOf→one_of words a)
