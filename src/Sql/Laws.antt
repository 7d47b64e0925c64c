-- ===== src/Sql/Laws.antt =====
-- How the tests of WHERE see an insert, an UPDATE and a DELETE.
use proyecto_1_back.Prelude.{
  ◌≡◌, refl, ap, Bool, true, false, not, ◌&&◌, ◌||◌, none, some, List, [], ◌∷◌, ◌++◌, filter, All,
  any, arith, Bool-cases, inl, inr,
}
use proyecto_1_back.Http.{ok}
use proyecto_1_back.Sql.{scalar_one_or_none, update_where}

module _ {ℓ} {A : Type ℓ} where
  pub filter-append :
      (p : A → Bool) (xs ys : List A) → filter p (xs ++ ys) ≡ filter p xs ++ filter p ys
  filter-append p [] ys = refl
  filter-append p (x ∷ xs) ys = elim (Bool-cases (p x)) [
    | inl e ↦ rw e (ap (λ (zs : List A). x ∷ zs) (filter-append p xs ys))
    | inr e ↦ rw e (filter-append p xs ys)
  ]

  pub filter_none : (p : A → Bool) (xs : List A) → any p xs ≡ false → filter p xs ≡ []
  filter_none p [] h = refl
  filter_none p (x ∷ xs) h = elim (Bool-cases (p x)) [
    | inl e ↦ cc (rw e at h)
    | inr e ↦ rw e (filter_none p xs (rw e at h))
  ]

  -- a WHERE leaves only rows that pass
  pub filter_passes : (p : A → Bool) (xs : List A) → All (λ x. p x ≡ true) (filter p xs)
  filter_passes p [] = tt
  filter_passes p (x ∷ xs) = elim (Bool-cases (p x)) [
    | inl e ↦ rw e (e, filter_passes p xs)
    | inr e ↦ rw e (filter_passes p xs)
  ]

  -- what one row found says of the rows
  pub scalar_some : (xs : List A) (x : A) → scalar_one_or_none xs ≡ ok (some x) → xs ≡ x ∷ []
  scalar_some [] x h = cc
  scalar_some (y ∷ []) x h = cc
  scalar_some (y ∷ z ∷ xs) x h = cc

  pub scalar_none : (xs : List A) → scalar_one_or_none xs ≡ ok none → xs ≡ []
  scalar_none [] h = refl
  scalar_none (y ∷ []) h = cc
  scalar_none (y ∷ z ∷ xs) h = cc

  pub any-of_filter : (p : A → Bool) (xs : List A) (x : A) → filter p xs ≡ x ∷ [] → any p xs ≡ true
  any-of_filter p xs x h = elim (Bool-cases (any p xs)) [
    | inl e ↦ e
    | inr e ↦ cc (h, filter_none p xs e)
  ]

  -- a row found passes the test
  pub test-of_filter :
      (p : A → Bool) (xs : List A) (x : A) (rest : List A) → filter p xs ≡ x ∷ rest → p x ≡ true
  test-of_filter p [] x rest h = cc
  test-of_filter p (y ∷ xs) x rest h = elim (Bool-cases (p y)) [
    | inl e ↦ cc (e, rw e at h)
    | inr e ↦ test-of_filter p xs x rest (rw e at h)
  ]

  -- an UPDATE that does not change the test commutes with it
  pub filter-update_where :
      (p test : A → Bool) (change : A → A) (xs : List A)
      → ((x : A) → p (change x) ≡ p x)
      → filter p (update_where test change xs) ≡ update_where test change (filter p xs)
  filter-update_where p test change [] same = refl
  filter-update_where p test change (x ∷ xs) same = elim (Bool-cases (test x)) [
    | inl t ↦ elim (Bool-cases (p x)) [
      | inl e ↦ rw t (
          rw (same x) (
            rw e (
              rw t
                (ap (λ (ys : List A). change x ∷ ys) (filter-update_where p test change xs same)))))
      | inr e ↦ rw t (rw (same x) (rw e (filter-update_where p test change xs same)))
    ]
    | inr t ↦ elim (Bool-cases (p x)) [
      | inl e ↦
          rw t
            (rw e (rw t (ap (λ (ys : List A). x ∷ ys) (filter-update_where p test change xs same))))
      | inr e ↦ rw t (rw e (filter-update_where p test change xs same))
    ]
  ]

  pub any-update_where :
      (p test : A → Bool) (change : A → A) (xs : List A)
      → ((x : A) → p (change x) ≡ p x)
      → any p (update_where test change xs) ≡ any p xs
  any-update_where p test change [] same = refl
  any-update_where p test change (x ∷ xs) same = elim (Bool-cases (test x)) [
    | inl t ↦ rw t (rw (same x) (ap (λ b. p x || b) (any-update_where p test change xs same)))
    | inr t ↦ rw t (ap (λ b. p x || b) (any-update_where p test change xs same))
  ]

  -- a row that a filter keeps is still found
  pub any-filter :
      (p q : A → Bool) (xs : List A)
      → any p xs ≡ true
      → any (λ x. p x && not (q x)) xs ≡ false
      → any p (filter q xs) ≡ true
  any-filter p q [] h k = h
  any-filter p q (x ∷ xs) h k = ground (arith, any-filter p q xs)
