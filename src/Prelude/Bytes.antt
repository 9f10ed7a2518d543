-- ===== src/Prelude/Bytes.antt =====
-- Go strings and byte slices: lists of bytes, with a decision of equality that evaluates.
use Prim.Native.Char.{code}
use Prim.Native.String.{String}
use Prim.Native.Nat.{ℕ}
use mathlib.Core.Path.{◌≡◌, refl}
use mathlib.Core.Bool.{Bool, true, false, ◌||◌}
use mathlib.Core.Logic.{◌≢◌}
use native.Mathlib.Omega.{arith}
use mathlib.Core.List.{List, [], ◌∷◌}
use native.Mathlib.Decide.{ℕ_discrete}
use spadeide_rendezvous.Prelude.Tests.{◌==◌}

abbrev pub Text : Type 0
Text = List ℕ

nil-ne-cons : (x : ℕ) (xs : Text) → ¬ ([] ≡ x ∷ xs)
nil-ne-cons x xs e = cc

cons-ne-nil : (x : ℕ) (xs : Text) → ¬ (x ∷ xs ≡ [])
cons-ne-nil x xs e = cc

unfoldable pub text_discrete : Discrete Text
unfolding ℕ_discrete nil-ne-cons cons-ne-nil
text_discrete [] [] = yes refl
text_discrete [] (y ∷ ys) = no (nil-ne-cons y ys)
text_discrete (x ∷ xs) [] = no (cons-ne-nil x xs)
text_discrete (x ∷ xs) (y ∷ ys) = elim (ℕ_discrete x y) [
  | yes p ↦ elim (text_discrete xs ys) [ yes q ↦ yes (cc) | no q ↦ no (λ e. q (cc)) ]
  | no p ↦ no (λ e. p (cc))
]

infix 50 ◌has◌
-- Some byte of the text is the given one.
unfoldable pub ◌has◌ : Text → ℕ → Bool
[] has c = false
(x ∷ xs) has c = (x == c) || (xs has c)

-- The bytes of an ASCII literal.
abbrev pub codes : String → Text
codes String.[] = []
codes (String.◌∷◌ c rest) = code c ∷ codes rest

-- The source's `==` on strings.
unfoldable pub is_text : Text → Text → Bool
unfolding text_discrete
is_text s t = elim (text_discrete s t) [ yes p ↦ true | no p ↦ false ]

pub is_text-eq : (s t : Text) → is_text s t ≡ true → s ≡ t
unfolding is_text
is_text-eq s t h = ground arith

pub is_text-ne : (s t : Text) → is_text s t ≡ false → s ≢ t
unfolding is_text
is_text-ne s t h = ground arith
