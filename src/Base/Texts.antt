-- ===== src/Base/Texts.antt =====
-- Byte strings: literals, their equality, and what a C string keeps of them.
use Prim.Native.Char.{code}
use Prim.Native.Nat.{ℕ}
use Prim.Native.String.{String}
use mathlib.Core.Path.{◌≡◌, refl}
use mathlib.Core.Logic.{◌≢◌}
use mathlib.Core.Bool.{Bool, true, false, ◌&&◌}
use mathlib.Core.List.{List, [], ◌∷◌}
use native.Mathlib.Omega.{arith}
use hiredispool.Base.Tests.{◌==◌, if◌then◌else◌}
use hiredispool.Base.Lists.{All}

abbrev pub codes : String → List ℕ
codes String.[] = []
codes (String.◌∷◌ c s) = code c ∷ codes s

abbrev pub text_eq : List ℕ → List ℕ → Bool
text_eq [] [] = true
text_eq [] (y ∷ ys) = false
text_eq (x ∷ xs) [] = false
text_eq (x ∷ xs) (y ∷ ys) = x == y && text_eq xs ys

pub text_eq-true : (a b : List ℕ) → text_eq a b ≡ true → a ≡ b
text_eq-true [] [] h = refl
text_eq-true [] (y ∷ ys) h = cc
text_eq-true (x ∷ xs) [] h = cc
text_eq-true (x ∷ xs) (y ∷ ys) h = ground (arith, text_eq-true xs ys)

pub text_eq_self : (a : List ℕ) → text_eq a a ≡ true
text_eq_self [] = refl
text_eq_self (x ∷ xs) = ground (arith, text_eq_self xs)

-- `s.c_str()`, as a function that takes a C string reads it: up to the first NUL.
abbrev pub c_str : List ℕ → List ℕ
c_str [] = []
c_str (x ∷ xs) = let rest = c_str xs in if x == 0 then [] else x ∷ rest

abbrev pub NulFree : List ℕ → Type 0
NulFree s = All (λ x. x ≢ 0) s

pub c_str-NulFree : (s : List ℕ) → NulFree s → c_str s ≡ s
c_str-NulFree [] h = refl
c_str-NulFree (x ∷ xs) h = ground (arith, c_str-NulFree xs h.1, h.0)
