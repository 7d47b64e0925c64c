-- ===== src/Text.antt =====
-- Python's `str` as a list of code points, with the methods that the program calls:
-- equality, `startswith`, `lower`, `strip`, and `str(n)` of a number.
pub mod Decimal
pub mod Strip
pub mod Words
pub mod Split
use Prim.Native.Char.{code}
use Prim.Native.String
use proyecto_1_back.Prelude.{
  ℕ, ◌+◌, ◌-◌, ◌≡◌, ◌↔◌, refl, Bool, true, false, ◌&&◌, List, [], ◌∷◌, ◌++◌, arith, ltb, leb, ◌==◌,
  if◌then◌else◌,
}

abbrev pub Text : Type 0
Text = List ℕ

-- A literal's code points.
abbrev pub codes : String.String → Text
codes String.[] = []
codes (String.◌∷◌ c s) = code c ∷ codes s

-- `a == b`
unfoldable pub text_eq : Text → Text → Bool
text_eq [] [] = true
text_eq (c ∷ s) (d ∷ t) = (c == d) && text_eq s t
text_eq _ _ = false

pub text_eq_iff : (s t : Text) → (text_eq s t ≡ true) ↔ (s ≡ t)
unfolding text_eq
text_eq_iff [] [] = ground arith
text_eq_iff (c ∷ s) (d ∷ t) = ground (arith, text_eq_iff s t)
text_eq_iff [] (d ∷ t) = ground arith
text_eq_iff (c ∷ s) [] = ground arith

pub text_eq_refl : (s : Text) → text_eq s s ≡ true
text_eq_refl s = (text_eq_iff s s).1 refl

-- `s.startswith(p)`
unfoldable pub starts_with : Text → Text → Bool
starts_with [] s = true
starts_with (c ∷ p) [] = false
starts_with (c ∷ p) (d ∷ s) = (c == d) && starts_with p s

pub starts_with-append : (p s : Text) → starts_with p (p ++ s) ≡ true
unfolding starts_with
starts_with-append [] s = refl
starts_with-append (c ∷ p) s = ground (arith, starts_with-append p s)

-- `s.lower()`. What a code point above ASCII becomes is a table of the Unicode standard: it is the
-- parameter `wide`.
module _ (wide : ℕ → Text) where
  unfoldable pub lower_char : ℕ → Text
  lower_char c =
      if ltb c 128 then (if leb 65 c && leb c 90 then (c + 32) ∷ [] else c ∷ []) else wide c

  unfoldable pub lower : Text → Text
  unfolding lower_char
  lower [] = []
  lower (c ∷ s) = lower_char c ++ lower s

-- `s.lstrip(c)`, `s.rstrip(c)` and `s.strip(c)` for one character
module _ (c : ℕ) where
  unfoldable pub lstrip : Text → Text
  lstrip [] = []
  lstrip (d ∷ s) = if d == c then lstrip s else d ∷ s

  -- `s` with `d` put in front, unless all of it is stripped
  unfoldable pub rstrip_onto : ℕ → Text → Text
  rstrip_onto d [] = if d == c then [] else d ∷ []
  rstrip_onto d (e ∷ t) = d ∷ e ∷ t

  unfoldable pub rstrip : Text → Text
  unfolding rstrip_onto
  rstrip [] = []
  rstrip (d ∷ s) = rstrip_onto d (rstrip s)

  unfoldable pub strip : Text → Text
  unfolding lstrip rstrip
  strip s = rstrip (lstrip s)
