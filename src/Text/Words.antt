-- ===== src/Text/Words.antt =====
-- Python's `s.strip()` of whitespace, `s.split(c)` for one character, and `f"{s}…"`.
use proyecto_1_back.Prelude.{
  ℕ, Bool, true, false, ◌||◌, ◌&&◌, List, [], ◌∷◌, ◌==◌, if◌then◌else◌, leb, any,
}
use proyecto_1_back.Text.{Text}

-- the code points that `str.isspace` accepts
unfoldable pub is_space : ℕ → Bool
is_space c =
    (leb 9 c && leb c 13)
    || (leb 28 c && leb c 32)
    || (leb 8192 c && leb c 8202)
    || any (λ d. c == d) (133 ∷ 160 ∷ 5760 ∷ 8232 ∷ 8233 ∷ 8239 ∷ 8287 ∷ 12288 ∷ [])

unfoldable pub lstrip_spaces : Text → Text
unfolding is_space
lstrip_spaces [] = []
lstrip_spaces (c ∷ s) = let rest = lstrip_spaces s in if is_space c then rest else c ∷ s

abbrev pub keep_before : ℕ → Text → Text
keep_before c [] = if is_space c then [] else c ∷ []
keep_before c (d ∷ s) = c ∷ d ∷ s

unfoldable pub rstrip_spaces : Text → Text
unfolding is_space
rstrip_spaces [] = []
rstrip_spaces (c ∷ s) = keep_before c (rstrip_spaces s)

-- `s.strip()`
unfoldable pub trim : Text → Text
unfolding lstrip_spaces rstrip_spaces
trim s = rstrip_spaces (lstrip_spaces s)

abbrev pub is_empty : Text → Bool
is_empty [] = true
is_empty (c ∷ s) = false

-- the first word with `c` in front
abbrev pub onto_first : ℕ → List Text → List Text
onto_first c [] = (c ∷ []) ∷ []
onto_first c (word ∷ words) = (c ∷ word) ∷ words

-- `s.split(separator)`
unfoldable pub split : ℕ → Text → List Text
split separator [] = [] ∷ []
split separator (c ∷ s) =
    let rest = split separator s in if c == separator then [] ∷ rest else onto_first c rest
