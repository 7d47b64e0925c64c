-- ===== src/Sql/Distinct.antt =====
-- Unique columns: no two rows of a table are the same by a test, such as "has the same slug".
use proyecto_1_back.Prelude.{
  ◌≡◌, refl, ◌⊎◌, inl, inr, Bool, true, false, List, [], ◌∷◌, ◌++◌, map, filter, any, arith, ap,
  ◌∙◌, Bool-cases,
}
use proyecto_1_back.Sql.Laws.{filter_none}

module _ {A : Type 0} where
  pub any_mono :
      (p q : A → Bool) (xs : List A)
      → ((x : A) → p x ≡ true → q x ≡ true)
      → any q xs ≡ false
      → any p xs ≡ false
  any_mono p q [] f h = refl
  any_mono p q (x ∷ xs) f h = ground (arith, f x, any_mono p q xs f)

  pub any-filter-false :
      (p q : A → Bool) (xs : List A) → any p xs ≡ false → any p (filter q xs) ≡ false
  any-filter-false p q [] h = refl
  any-filter-false p q (x ∷ xs) h = ground (arith, any-filter-false p q xs)

module _ {A : Type 0} (same : A → A → Bool) where
  abbrev pub Distinct : List A → Type 0
  Distinct [] = Unit {0}
  Distinct (x ∷ xs) = (any (same x) xs ≡ false) × Distinct xs

  -- A test that holds of the same rows only finds at most one row.
  pub Distinct-filter_one :
      (p : A → Bool) (xs : List A)
      → ((x y : A) → p x ≡ true → p y ≡ true → same x y ≡ true)
      → Distinct xs
      → (filter p xs ≡ []) ⊎ ((x : A) × (filter p xs ≡ x ∷ []))
  Distinct-filter_one p [] f h = inl refl
  Distinct-filter_one p (x ∷ xs) f h = elim (Bool-cases (p x)) [
    | inl e ↦ inr (
      x,
      rw e (
          ap (λ (ys : List A). x ∷ ys)
            (filter_none p xs (any_mono p (same x) xs (λ y. f x y e) h.0))),
    )
    | inr e ↦ rw e (Distinct-filter_one p xs f h.1)
  ]

  any-insert :
      (x y : A) (zs : List A)
      → same x y ≡ false
      → any (same x) zs ≡ false
      → any (same x) (zs ++ y ∷ []) ≡ false
  any-insert x y [] k e = rw k refl
  any-insert x y (z ∷ zs) k e = ground (arith, any-insert x y zs)

  pub Distinct-insert :
      (xs : List A) (y : A) → any (λ x. same x y) xs ≡ false → Distinct xs → Distinct (xs ++ y ∷ [])
  Distinct-insert [] y h d = (refl, tt)
  Distinct-insert (x ∷ xs) y h d =
      (any-insert x y xs (ground arith) d.0, Distinct-insert xs y (ground arith) d.1)

  pub Distinct-filter : (q : A → Bool) (xs : List A) → Distinct xs → Distinct (filter q xs)
  Distinct-filter q [] d = d
  Distinct-filter q (x ∷ xs) d = elim (Bool-cases (q x)) [
    | inl e ↦ rw e (any-filter-false (same x) q xs d.0, Distinct-filter q xs d.1)
    | inr e ↦ rw e (Distinct-filter q xs d.1)
  ]

  any-map :
      (f : A → A) (x : A) (ys : List A)
      → ((y : A) → same (f x) (f y) ≡ same x y)
      → any (same (f x)) (map f ys) ≡ any (same x) ys
  any-map f x [] h = refl
  any-map f x (y ∷ ys) h = ground (arith, h y, any-map f x ys h)

  pub Distinct-map :
      (f : A → A) (xs : List A)
      → ((x y : A) → same (f x) (f y) ≡ same x y)
      → Distinct xs
      → Distinct (map f xs)
  Distinct-map f [] h d = d
  Distinct-map f (x ∷ xs) h d = (any-map f x xs (h x) ∙ d.0, Distinct-map f xs h d.1)
