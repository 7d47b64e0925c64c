-- ===== src/Slug/Shape.antt =====
-- The shape of the slugs of `generate_slug`, api/app/utils/slug.py.
use proyecto_1_back.Prelude.{
  ℕ, zero, suc, ◌≤◌, ◌≡◌, refl, ap, ◌∙◌, true, false, ◌&&◌, [], ◌∷◌, arith, ltb, ◌==◌, length, take,
  filter, map, All, All-take, length-take-le, Bool-cases, inl, inr,
}
use proyecto_1_back.Text.{Text, lower, lower_char, lstrip, rstrip, rstrip_onto, strip}
use proyecto_1_back.Text.Strip.{
  begins_with, ends_with, begins_with-lstrip, ends_with-rstrip, begins_with-rstrip, lstrip_fixed,
  rstrip_fixed, length-rstrip-le, All-lstrip, All-rstrip,
}
use proyecto_1_back.Slug.{
  hyphen, to_hyphen, is_slug_char, push_char, collapse, truncate, generate_slug,
}

-- no two hyphens in a row
abbrev pub IsSingle : Text → Type 0
IsSingle [] = Unit {0}
IsSingle (c ∷ s) = ((c == hyphen && begins_with hyphen s) ≡ false) × IsSingle s

abbrev pub SlugChar : ℕ → Type 0
SlugChar c = is_slug_char c ≡ true

pub record IsSlug (max_length : ℕ) (s : Text) : Type 0 where
  pub chars : All SlugChar s
  pub single : IsSingle s
  pub head : begins_with hyphen s ≡ false
  pub last : ends_with hyphen s ≡ false
  pub short : length s ≤ max_length

-- Each step, on the characters.

filter-chars : (s : Text) → All SlugChar (filter is_slug_char s)
filter-chars [] = tt
filter-chars (c ∷ s) = elim (Bool-cases (is_slug_char c)) [
  | inl e ↦ rw e (e, filter-chars s)
  | inr e ↦ rw e (filter-chars s)
]

push_char-chars : (c : ℕ) (s : Text) → SlugChar c → All SlugChar s → All SlugChar (push_char c s)
unfolding push_char
push_char-chars c [] p h = (p, tt)
push_char-chars c (d ∷ s) p h = elim (Bool-cases (c == hyphen && d == hyphen)) [
  | inl e ↦ rw e h
  | inr e ↦ rw e (p, h)
]

collapse-chars : (s : Text) → All SlugChar s → All SlugChar (collapse s)
unfolding collapse
collapse-chars [] h = tt
collapse-chars (c ∷ s) h = push_char-chars c (collapse s) h.0 (collapse-chars s h.1)

-- Each step, on the hyphens.

push_char-IsSingle : (c : ℕ) (s : Text) → IsSingle s → IsSingle (push_char c s)
unfolding push_char
push_char-IsSingle c [] h = ground arith
push_char-IsSingle c (d ∷ s) h = elim (Bool-cases (c == hyphen && d == hyphen)) [
  | inl e ↦ rw e h
  | inr e ↦ rw e (e, h)
]

collapse-IsSingle : (s : Text) → IsSingle (collapse s)
unfolding collapse
collapse-IsSingle [] = tt
collapse-IsSingle (c ∷ s) = push_char-IsSingle c (collapse s) (collapse-IsSingle s)

lstrip-IsSingle : (s : Text) → IsSingle s → IsSingle (lstrip hyphen s)
unfolding lstrip
lstrip-IsSingle [] h = h
lstrip-IsSingle (d ∷ s) h = elim (Bool-cases (d == hyphen)) [
  | inl e ↦ rw e (lstrip-IsSingle s h.1)
  | inr e ↦ rw e h
]

rstrip_onto-IsSingle :
    (d : ℕ) (s : Text)
    → (d == hyphen && begins_with hyphen s) ≡ false
    → IsSingle s
    → IsSingle (rstrip_onto hyphen d s)
unfolding rstrip
rstrip_onto-IsSingle d [] e h = ground arith
rstrip_onto-IsSingle d (c ∷ s) e h = (e, h)

rstrip-IsSingle : (s : Text) → IsSingle s → IsSingle (rstrip hyphen s)
unfolding rstrip
rstrip-IsSingle [] h = h
rstrip-IsSingle (d ∷ s) h =
    rstrip_onto-IsSingle d (rstrip hyphen s) (ground (arith, begins_with-rstrip hyphen s))
      (rstrip-IsSingle s h.1)

take-IsSingle : (n : ℕ) (s : Text) → IsSingle s → IsSingle (take n s)
take-IsSingle zero s h = tt
take-IsSingle (suc n) [] h = h
take-IsSingle (suc zero) (d ∷ s) h = ground arith
take-IsSingle (suc (suc n)) (d ∷ []) h = h
take-IsSingle (suc (suc n)) (d ∷ e ∷ s) h = (h.0, take-IsSingle (suc n) (e ∷ s) h.1)

take-head :
    (n : ℕ) (s : Text) → begins_with hyphen s ≡ false → begins_with hyphen (take n s) ≡ false
take-head zero s h = refl
take-head (suc n) [] h = h
take-head (suc n) (c ∷ s) h = h

-- The last step keeps the shape and cuts the length.
truncate-IsSlug :
    (n : ℕ) (s : Text)
    → All SlugChar s
    → IsSingle s
    → begins_with hyphen s ≡ false
    → ends_with hyphen s ≡ false
    → IsSlug n (truncate n s)
unfolding truncate
truncate-IsSlug n s chars single head last = elim (Bool-cases (ltb n (length s))) [
  | inl e ↦ rw e (record {
    chars = All-rstrip hyphen SlugChar (take n s) (All-take SlugChar n s chars);
    single = rstrip-IsSingle (take n s) (take-IsSingle n s single);
    head = begins_with-rstrip hyphen (take n s) (take-head n s head);
    last = ends_with-rstrip hyphen (take n s);
    short = omega (arith, length-rstrip-le hyphen (take n s), length-take-le n s);
  })
  | inr e ↦
      rw e
        (record { chars = chars; single = single; head = head; last = last; short = ground arith })
]

-- For every text and every maximal length, `generate_slug` returns only characters of `[a-z0-9\-.]`,
-- no two hyphens in a row, no hyphen at either end, and no more characters than the maximum.
pub generate_slug-IsSlug :
    (wide : ℕ → Text) (text : Text) (max_length : ℕ)
    → IsSlug max_length (generate_slug wide text max_length)
unfolding generate_slug strip
generate_slug-IsSlug wide text max_length =
    let raw : Text = filter is_slug_char (map to_hyphen (lower wide text)) in
    let joined : Text = collapse raw in
    let joined_chars =
      All-lstrip hyphen SlugChar joined
        (collapse-chars raw (filter-chars (map to_hyphen (lower wide text)))) in
    let joined_single = lstrip-IsSingle joined (collapse-IsSingle raw) in
    let left : Text = lstrip hyphen joined in
    truncate-IsSlug max_length (rstrip hyphen left) (All-rstrip hyphen SlugChar left joined_chars)
      (rstrip-IsSingle left joined_single)
      (begins_with-rstrip hyphen left (begins_with-lstrip hyphen joined))
      (ends_with-rstrip hyphen left)

-- Each step leaves a slug alone.

lower_fixed : (wide : ℕ → Text) (s : Text) → All SlugChar s → lower wide s ≡ s
unfolding lower
lower_fixed wide [] h = refl
lower_fixed wide (c ∷ s) h =
    rw (lower_char_fixed wide c h.0) (ap (λ (t : Text). c ∷ t) (lower_fixed wide s h.1))
  where
    lower_char_fixed : (wide : ℕ → Text) (c : ℕ) → SlugChar c → lower_char wide c ≡ c ∷ []
    lower_char_fixed wide c h = unfold is_slug_char in ground arith

to_hyphen_fixed : (s : Text) → All SlugChar s → map to_hyphen s ≡ s
unfolding to_hyphen is_slug_char
to_hyphen_fixed [] h = refl
to_hyphen_fixed (c ∷ s) h = ground (arith, to_hyphen_fixed s)

filter_fixed : (s : Text) → All SlugChar s → filter is_slug_char s ≡ s
filter_fixed [] h = refl
filter_fixed (c ∷ s) h = rw h.0 (ap (λ (t : Text). c ∷ t) (filter_fixed s h.1))

push_char_fixed :
    (c : ℕ) (s : Text) → (c == hyphen && begins_with hyphen s) ≡ false → push_char c s ≡ c ∷ s
unfolding push_char
push_char_fixed c [] h = refl
push_char_fixed c (d ∷ s) h = rw h

collapse_fixed : (s : Text) → IsSingle s → collapse s ≡ s
unfolding collapse
collapse_fixed [] h = refl
collapse_fixed (c ∷ s) h = ap (push_char c) (collapse_fixed s h.1) ∙ push_char_fixed c s h.0

-- A text that has the shape of a slug is returned unchanged.
pub generate_slug_fixed :
    (wide : ℕ → Text) (s : Text) (max_length : ℕ)
    → IsSlug max_length s
    → generate_slug wide s max_length ≡ s
unfolding generate_slug strip truncate
generate_slug_fixed wide s max_length h = rw (lower_fixed wide s h.chars) (
    rw (to_hyphen_fixed s h.chars) (
      rw (filter_fixed s h.chars) (
        rw (collapse_fixed s h.single) (
          rw (lstrip_fixed hyphen s h.head)
            (rw (rstrip_fixed hyphen s h.last) (ground (arith, h.short)))))))

-- For every text and every maximal length, a slug passed to `generate_slug` again comes back unchanged.
pub generate_slug_idempotent :
    (wide : ℕ → Text) (text : Text) (max_length : ℕ)
    → generate_slug wide (generate_slug wide text max_length) max_length
      ≡ generate_slug wide text max_length
generate_slug_idempotent wide text max_length =
    generate_slug_fixed wide (generate_slug wide text max_length) max_length
      (generate_slug-IsSlug wide text max_length)
