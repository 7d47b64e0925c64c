-- ===== src/Slug/Unique.antt =====
-- The candidates of `make_unique_slug`, api/app/utils/slug.py: how many of them can be taken.
use proyecto_1_back.Prelude.{
  ℕ, zero, suc, ◌≤◌, ◌<◌, ◌≡◌, ◌≢◌, ◌⊎◌, refl, ap, Bool, true, false, List, [], ◌∷◌, ◌++◌, arith,
  length, length-append, Bool-cases, inl, inr, if◌then◌else◌,
}
use proyecto_1_back.Text.{Text, text_eq, text_eq_iff}
use proyecto_1_back.Text.Decimal.{decimal, decimal-injective}
use proyecto_1_back.Slug.{hyphen, candidate, is_member, first_free, make_unique_slug}

-- `taken` without its first occurrence of `s`
remove : Text → List Text → List Text
remove s [] = []
remove s (t ∷ taken) = if text_eq s t then taken else t ∷ remove s taken

length-remove :
    (s : Text) (taken : List Text)
    → is_member s taken ≡ true
    → suc (length (remove s taken)) ≡ length taken
unfolding remove is_member
length-remove s [] h = ground arith
length-remove s (t ∷ taken) h = ground (arith, length-remove s taken)

is_member-remove :
    (s r : Text) (taken : List Text)
    → text_eq r s ≡ false
    → is_member r taken ≡ true
    → is_member r (remove s taken) ≡ true
unfolding remove is_member
is_member-remove s r [] e h = h
is_member-remove s r (t ∷ taken) e h =
    ground (arith, is_member-remove s r taken, text_eq_iff s t, text_eq_iff r t, text_eq_iff r s)

append_cancel : (p s t : Text) → (p ++ s) ≡ (p ++ t) → s ≡ t
append_cancel [] s t e = e
append_cancel (c ∷ p) s t e = append_cancel p s t (cc e)

candidate-injective : (base : Text) (i j : ℕ) → candidate base i ≡ candidate base j → i ≡ j
unfolding candidate
candidate-injective base i j e =
    let tails : hyphen ∷ decimal i ≡ hyphen ∷ decimal j =
      append_cancel base (hyphen ∷ decimal i) (hyphen ∷ decimal j) e in
    decimal-injective i j (cc tails)

candidate_ne :
    (base : Text) (i j : ℕ) → i < j → text_eq (candidate base j) (candidate base i) ≡ false
candidate_ne base i j lt = elim (Bool-cases (text_eq (candidate base j) (candidate base i))) [
  | inl e ↦ absurd (
      omega (
        arith,
        candidate-injective base j i ((text_eq_iff (candidate base j) (candidate base i)).0 e),
      ))
  | inr e ↦ e
]

-- Every candidate from `i` on, `rounds` of them, is taken.
abbrev pub AllTaken : ℕ → ℕ → Text → List Text → Type 0
AllTaken zero i base taken = Unit {0}
AllTaken (suc rounds) i base taken =
    (is_member (candidate base i) taken ≡ true) × AllTaken rounds (suc i) base taken

-- none of those candidates is `s`
abbrev NoneIs : ℕ → ℕ → Text → Text → Type 0
NoneIs zero i base s = Unit {0}
NoneIs (suc rounds) i base s = (text_eq (candidate base i) s ≡ false) × NoneIs rounds (suc i) base s

NoneIs-candidate : (rounds i k : ℕ) (base : Text) → k < i → NoneIs rounds i base (candidate base k)
NoneIs-candidate zero i k base lt = tt
NoneIs-candidate (suc rounds) i k base lt =
    (candidate_ne base k i lt, NoneIs-candidate rounds (suc i) k base (omega arith))

append_ne_self : (base : Text) (c : ℕ) (s : Text) → (base ++ c ∷ s) ≢ base
append_ne_self base c s e =
    absurd (omega (arith, ap (λ (t : Text). length t) e, length-append {0} base (c ∷ s)))

NoneIs-base : (rounds i : ℕ) (base : Text) → NoneIs rounds i base base
unfolding candidate
NoneIs-base zero i base = tt
NoneIs-base (suc rounds) i base = (differs, NoneIs-base rounds (suc i) base)
  where
    differs : text_eq (candidate base i) base ≡ false
    differs = elim (Bool-cases (text_eq (candidate base i) base)) [
      | inl e ↦
          absurd
            (append_ne_self base hyphen (decimal i) ((text_eq_iff (candidate base i) base).0 e))
      | inr e ↦ e
    ]

AllTaken-remove :
    (rounds i : ℕ) (base s : Text) (taken : List Text)
    → NoneIs rounds i base s
    → AllTaken rounds i base taken
    → AllTaken rounds i base (remove s taken)
AllTaken-remove zero i base s taken ne h = tt
AllTaken-remove (suc rounds) i base s taken ne h = (
  is_member-remove s (candidate base i) taken ne.0 h.0,
  AllTaken-remove rounds (suc i) base s taken ne.1 h.1,
)

-- So many candidates need as many taken slugs.
pub AllTaken-length :
    (rounds i : ℕ) (base : Text) (taken : List Text)
    → AllTaken rounds i base taken
    → rounds ≤ length taken
AllTaken-length zero i base taken h = omega arith
AllTaken-length (suc rounds) i base taken h = omega (
  arith,
  length-remove (candidate base i) taken h.0,
  AllTaken-length rounds (suc i) base (remove (candidate base i) taken) (
      AllTaken-remove rounds (suc i) base (candidate base i) taken
        (NoneIs-candidate rounds (suc i) i base (omega arith)) h.1),
)

-- The search ends on a free candidate, or every candidate that it tried is taken.
first_free-cases :
    (rounds i : ℕ) (base : Text) (taken : List Text) (short_uuid : Text)
    → (is_member (first_free rounds i base taken short_uuid) taken ≡ false)
      ⊎ AllTaken rounds i base taken
unfolding first_free
first_free-cases zero i base taken short_uuid = inr tt
first_free-cases (suc rounds) i base taken short_uuid =
    elim (Bool-cases (is_member (candidate base i) taken)) [
      | inl e ↦ rw e (go (first_free-cases rounds (suc i) base taken short_uuid))
      | inr e ↦ rw e (inl e)
    ]
  where
    go :
        (is_member (first_free rounds (suc i) base taken short_uuid) taken ≡ false)
          ⊎ AllTaken rounds (suc i) base taken
        → (is_member (first_free rounds (suc i) base taken short_uuid) taken ≡ false)
          ⊎ ((◌≡◌ {A = Bool} true true) × AllTaken rounds (suc i) base taken)
    go (inl free) = inl free
    go (inr all) = inr (refl, all)

-- With fewer than 100 existing slugs the result of `make_unique_slug` is none of them, whatever the
-- UUID.
pub make_unique_slug-free :
    (base : Text) (existing : List Text) (short_uuid : Text)
    → length existing < 100
    → is_member (make_unique_slug base existing short_uuid) existing ≡ false
unfolding make_unique_slug
make_unique_slug-free base existing short_uuid few = elim (Bool-cases (is_member base existing)) [
  | inl e ↦ rw e (elim (first_free-cases 99 1 base existing short_uuid) [
    | inl free ↦ free
    | inr all ↦ absurd (
        omega (
          arith,
          length-remove base existing e,
          AllTaken-length 99 1 base (remove base existing)
              (AllTaken-remove 99 1 base base existing (NoneIs-base 99 1 base) all),
        ))
  ])
  | inr e ↦ rw e e
]
