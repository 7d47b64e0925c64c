-- ===== src/Text/Strip.antt =====
-- What `lstrip` and `rstrip` of one character leave, and what they leave alone.
use proyecto_1_back.Prelude.{
  ℕ, ◌≤◌, ◌≡◌, refl, Bool, false, [], ◌∷◌, arith, ◌==◌, length, All, Bool-cases, inl, inr,
}
use proyecto_1_back.Text
use proyecto_1_back.Text.{Text, lstrip, rstrip}

-- `s[:1] == c` and `s[-1:] == c`
abbrev pub begins_with : ℕ → Text → Bool
begins_with c [] = false
begins_with c (d ∷ s) = d == c

abbrev pub ends_with : ℕ → Text → Bool
ends_with c [] = false
ends_with c (d ∷ []) = d == c
ends_with c (d ∷ e ∷ s) = ends_with c (e ∷ s)

module _ (c : ℕ) where
  pub begins_with-lstrip : (s : Text) → begins_with c (lstrip c s) ≡ false
  unfolding lstrip
  begins_with-lstrip [] = refl
  begins_with-lstrip (d ∷ s) = ground (arith, begins_with-lstrip s)

  pub ends_with-rstrip : (s : Text) → ends_with c (rstrip c s) ≡ false
  unfolding rstrip
  ends_with-rstrip [] = refl
  ends_with-rstrip (d ∷ s) = ground (arith, ends_with-rstrip s)

  pub begins_with-rstrip : (s : Text) → begins_with c s ≡ false → begins_with c (rstrip c s) ≡ false
  unfolding rstrip
  begins_with-rstrip [] h = refl
  begins_with-rstrip (d ∷ s) h = ground arith

  pub lstrip_fixed : (s : Text) → begins_with c s ≡ false → lstrip c s ≡ s
  unfolding lstrip
  lstrip_fixed [] h = refl
  lstrip_fixed (d ∷ s) h = ground arith

  pub rstrip_fixed : (s : Text) → ends_with c s ≡ false → rstrip c s ≡ s
  unfolding rstrip
  rstrip_fixed [] h = refl
  rstrip_fixed (d ∷ []) h = ground arith
  rstrip_fixed (d ∷ e ∷ s) h = ground (arith, rstrip_fixed (e ∷ s))

  pub length-rstrip-le : (s : Text) → length (rstrip c s) ≤ length s
  unfolding rstrip
  length-rstrip-le [] = omega arith
  length-rstrip-le (d ∷ s) = ground (arith, length-rstrip-le s)

module _ {κ} (c : ℕ) (P : ℕ → Type κ) where
  pub All-lstrip : (s : Text) → All P s → All P (lstrip c s)
  unfolding lstrip
  All-lstrip [] h = h
  All-lstrip (d ∷ s) h = elim (Bool-cases (d == c)) [
    | inl e ↦ rw e (All-lstrip s h.1)
    | inr e ↦ rw e h
  ]

  All-rstrip_onto : (d : ℕ) (s : Text) → P d → All P (rstrip c s) → All P (rstrip c (d ∷ s))
  unfolding rstrip
  All-rstrip_onto d s p h = go (rstrip c s) h
    where
      go : (t : Text) → All P t → All P (Text.rstrip_onto c d t)
      go [] k = elim (Bool-cases (d == c)) [ inl e ↦ rw e tt | inr e ↦ rw e (p, tt) ]
      go (e ∷ t) k = (p, k)

  pub All-rstrip : (s : Text) → All P s → All P (rstrip c s)
  All-rstrip [] h = unfold rstrip in h
  All-rstrip (d ∷ s) h = All-rstrip_onto d s h.0 (All-rstrip s h.1)
