-- ===== src/Text/Split.antt =====
-- Python's `s.rsplit(c, 1)` for one character.
use proyecto_1_back.Prelude.{
  ℕ, ◌≡◌, refl, Bool, false, Option, none, some, [], ◌∷◌, ◌++◌, any, ◌==◌, ==_refl, if◌then◌else◌,
  Bool-cases, inl, inr, arith, Option-cases,
}
use proyecto_1_back.Text.{Text}

module _ (c : ℕ) where
  -- what `c`, the last one, stands between; none without one
  abbrev pub split_step : ℕ → Text → Option (Text × Text) → Option (Text × Text)
  split_step d s (some (before, after)) = some (d ∷ before, after)
  split_step d s none = if d == c then some ([], s) else none

  unfoldable pub split_last : Text → Option (Text × Text)
  split_last [] = none
  split_last (d ∷ s) = split_step d s (split_last s)

  -- `s.rsplit(c, 1)[0]` and `s.rsplit(c, 1)[-1]`
  abbrev pub first_part : Text → Option (Text × Text) → Text
  first_part s none = s
  first_part s (some (before, after)) = before

  abbrev pub last_part : Text → Option (Text × Text) → Text
  last_part s none = s
  last_part s (some (before, after)) = after

  unfoldable pub before_last : Text → Text
  unfolding split_last
  before_last s = first_part s (split_last s)

  unfoldable pub after_last : Text → Text
  unfolding split_last
  after_last s = last_part s (split_last s)

  abbrev pub has : Text → Bool
  has s = any (λ d. d == c) s

  split_last-none : (s : Text) → has s ≡ false → split_last s ≡ none
  unfolding split_last
  split_last-none [] h = refl
  split_last-none (d ∷ s) h = rw (split_last-none s (ground (arith, h))) (ground (arith, h))

  split_last-append : (a b : Text) → has b ≡ false → split_last (a ++ (c ∷ b)) ≡ some (a, b)
  unfolding split_last
  split_last-append [] b h = rw (split_last-none b h) (rw (==_refl c) refl)
  split_last-append (d ∷ a) b h = rw (split_last-append a b h) refl

  pub before_last-append : (a b : Text) → has b ≡ false → before_last (a ++ (c ∷ b)) ≡ a
  unfolding before_last
  before_last-append a b h = rw (split_last-append a b h) refl

  -- No `c` stands after the last one.
  pub after_last-plain : (s : Text) → has (after_last s) ≡ false
  unfolding after_last split_last
  after_last-plain [] = refl
  after_last-plain (d ∷ s) = elim (Option-cases (split_last s)) [
    | inl e ↦ rw e (elim (Bool-cases (d == c)) [
      | inl k ↦ rw k (rw e at (after_last-plain s))
      | inr k ↦ rw k (rw k (rw e at (after_last-plain s)))
    ])
    | inr (p, e) ↦ rw e (rw e at (after_last-plain s))
  ]
