-- ===== src/Base/Text.antt =====
-- Text: equality of strings, the empty string, and `str.lower` on ASCII letters.
use Prim.Native.Nat.{ℕ, zero, suc, ◌-◌}
use Prim.Native.Char.{Char, code}
use Prim.Native.String.{String}
use mathlib.Core.Path.{◌≡◌, refl}
use mathlib.Core.Logic.{◌≢◌, ◌⊎◌, inl, inr}
use mathlib.Core.Bool.{Bool, true, false, ◌&&◌}
use mathlib.Core.List.{List, [], ◌∷◌}
use native.Mathlib.Omega.{arith}
use agentic_agnostic_orchest.Base.Tests.{leb, ltb, eqb, if◌then◌else◌, Bool-cases}
pub use text.Mathlib.Text.{◌==◌}
pub use text.Mathlib.TextEquality.{eq_iff}
pub use text.Mathlib.TextPositions.{eq_refl}

pub ne→eq-false : (a b : String) → a ≢ b → (a == b) ≡ false
ne→eq-false a b h = ground (arith, eq_iff a b)

-- `not s`: Python takes the empty string for false.
abbrev pub is_empty : String → Bool
is_empty s = s == ""

-- `a or b`
abbrev pub or_else : String → String → String
or_else a b = if is_empty a then b else a

letters : List Char
letters =
    "a" ∷ "b" ∷ "c" ∷ "d" ∷ "e" ∷ "f" ∷ "g" ∷ "h" ∷ "i" ∷ "j" ∷ "k" ∷ "l" ∷ "m" ∷ "n" ∷ "o" ∷ "p"
    ∷ "q" ∷ "r" ∷ "s" ∷ "t" ∷ "u" ∷ "v" ∷ "w" ∷ "x" ∷ "y" ∷ "z" ∷ []

nth_or : List Char → ℕ → Char → Char
nth_or [] i d = d
nth_or (c ∷ cs) zero d = c
nth_or (c ∷ cs) (suc i) d = nth_or cs i d

lower_char : Char → Char
lower_char c =
    if leb b'A' (code c) && leb (code c) b'Z' then nth_or letters (code c - b'A') c else c

-- `s.lower()`
unfoldable pub lower : String → String
unfolding lower_char nth_or letters
lower String.[] = String.[]
lower (String.◌∷◌ c s) = String.◌∷◌ (lower_char c) (lower s)

lower_mixed : lower "Codex-A1" ≡ "codex-a1"
unfolding lower
lower_mixed = refl

pub str_cases : (a b : String) → (a ≡ b) ⊎ (a ≢ b)
str_cases a b = elim (Bool-cases (a == b)) [
  | inl e ↦ inl ((eq_iff a b).0 e)
  | inr n ↦ inr (λ e. cc (n, (eq_iff a b).1 e))
]

-- Python's `<=` on strings
unfoldable pub str_leq : String → String → Bool
str_leq String.[] t = true
str_leq (String.◌∷◌ c s) String.[] = false
str_leq (String.◌∷◌ c s) (String.◌∷◌ d t) =
    if ltb (code c) (code d) then true else if eqb (code c) (code d) then str_leq s t else false

pub str_leq_total : (s t : String) → (str_leq s t ≡ true) ⊎ (str_leq t s ≡ true)
unfolding str_leq
str_leq_total String.[] t = inl refl
str_leq_total (String.◌∷◌ c s) String.[] = ground arith
str_leq_total (String.◌∷◌ c s) (String.◌∷◌ d t) = ground (arith, str_leq_total s t)

pub str_leq_trans : (s t u : String) → str_leq s t ≡ true → str_leq t u ≡ true → str_leq s u ≡ true
unfolding str_leq
str_leq_trans String.[] t u p q = refl
str_leq_trans (String.◌∷◌ c s) String.[] u p q = cc
str_leq_trans (String.◌∷◌ c s) (String.◌∷◌ d t) String.[] p q = cc
str_leq_trans (String.◌∷◌ c s) (String.◌∷◌ d t) (String.◌∷◌ e u) p q =
    ground (arith, str_leq_trans s t u)
