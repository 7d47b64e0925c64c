-- ===== src/Sql/Groups/Sums.antt =====
-- The groups of GROUP BY: their counts, their sum, and their keys.
use proyecto_1_back.Prelude.{
  ℕ, suc, ◌+◌, ◌≡◌, ◌≤◌, ◌↔◌, refl, ap, ◌∙◌, Bool, true, false, ◌||◌, List, [], ◌∷◌, any, filter,
  length, take, zero, arith, Bool-cases, inl, inr, if◌then◌else◌,
}
use proyecto_1_back.Sql.{place, order_by}
use proyecto_1_back.Sql.Distinct.{Distinct}
use proyecto_1_back.Sql.Groups.{Group, count_row, group_by}

module _ {A : Type 0} (size : A → ℕ) where
  -- `sum(size(x) for x in xs)`
  abbrev pub sum : List A → ℕ
  sum [] = 0
  sum (x ∷ xs) = size x + sum xs

  module _ (before : A → A → Bool) where
    sum-place : (x : A) (ys : List A) → sum (place before x ys) ≡ size x + sum ys
    unfolding place
    sum-place x [] = omega arith
    sum-place x (y ∷ ys) = elim (Bool-cases (before x y)) [
      | inl e ↦ rw e refl
      | inr e ↦ rw e (omega (arith, sum-place x ys))
    ]

    pub sum-order_by : (xs : List A) → sum (order_by before xs) ≡ sum xs
    unfolding order_by
    sum-order_by [] = refl
    sum-order_by (x ∷ xs) =
        sum-place x (order_by before xs) ∙ ap (λ n. size x + n) (sum-order_by xs)

  pub sum-take-le : (n : ℕ) (xs : List A) → sum (take n xs) ≤ sum xs
  sum-take-le zero xs = omega arith
  sum-take-le (suc n) [] = omega arith
  sum-take-le (suc n) (x ∷ xs) = omega (arith, sum-take-le n xs)

module _ {K : Type 0} (same : K → K → Bool) where
  abbrev pub counts : List (Group K) → ℕ
  counts gs = sum (λ g. g.count) gs

  counts-count_row : (k : K) (gs : List (Group K)) → counts (count_row same k gs) ≡ suc (counts gs)
  unfolding count_row
  counts-count_row k [] = omega arith
  counts-count_row k (g ∷ gs) = elim (Bool-cases (same k g.key)) [
    | inl e ↦ rw e (omega arith)
    | inr e ↦ rw e (omega (arith, counts-count_row k gs))
  ]

  -- The counts of the groups add up to the number of rows.
  pub counts-group_by :
      {A : Type 0} (key : A → K) (xs : List A) → counts (group_by same key xs) ≡ length xs
  unfolding group_by
  counts-group_by key [] = refl
  counts-group_by key (x ∷ xs) =
      counts-count_row (key x) (group_by same key xs) ∙ ap suc (counts-group_by key xs)

  -- the rows that the groups with a key count
  abbrev pub counted : K → List (Group K) → ℕ
  counted k gs = sum (λ g. if same k g.key then g.count else 0) gs

  module _ (same_iff : (j k : K) → (same j k ≡ true) ↔ (j ≡ k)) where
    counted-count_row :
        (k j : K) (gs : List (Group K))
        → counted k (count_row same j gs) ≡ (if same k j then 1 else 0) + counted k gs
    unfolding count_row
    counted-count_row k j [] = omega arith
    counted-count_row k j (g ∷ gs) = elim (Bool-cases (same j g.key)) [
      | inl e ↦ rw e (rw ((same_iff j g.key).0 e) (ground arith))
      | inr e ↦ rw e (omega (arith, counted-count_row k j gs))
    ]

    -- A key counts the rows that have it.
    pub counted-group_by :
        {A : Type 0} (key : A → K) (k : K) (xs : List A)
        → counted k (group_by same key xs) ≡ length (filter (λ x. same k (key x)) xs)
    unfolding group_by
    counted-group_by key k [] = refl
    counted-group_by key k (x ∷ xs) =
        counted-count_row k (key x) (group_by same key xs)
        ∙ ground (arith, counted-group_by key k xs)

    abbrev pub same_key : Group K → Group K → Bool
    same_key g h = same g.key h.key

    any-count_row :
        (g : Group K) (k : K) (gs : List (Group K))
        → any (same_key g) (count_row same k gs) ≡ (same g.key k || any (same_key g) gs)
    unfolding count_row
    any-count_row g k [] = refl
    any-count_row g k (h ∷ gs) = elim (Bool-cases (same k h.key)) [
      | inl e ↦ rw e (rw ((same_iff k h.key).0 e) (ground arith))
      | inr e ↦ rw e (ground (arith, any-count_row g k gs))
    ]

    Distinct-count_row :
        (k : K) (gs : List (Group K))
        → Distinct same_key gs
        → Distinct same_key (count_row same k gs)
    unfolding count_row
    Distinct-count_row k [] d = (refl, tt)
    Distinct-count_row k (g ∷ gs) d = elim (Bool-cases (same k g.key)) [
      | inl e ↦ rw e d
      | inr e ↦ rw e (
        any-count_row g k gs ∙ ground (arith, same_iff k g.key, same_iff g.key k, d.0),
        Distinct-count_row k gs d.1,
      )
    ]

    -- No two groups have the same key.
    pub Distinct-group_by :
        {A : Type 0} (key : A → K) (xs : List A) → Distinct same_key (group_by same key xs)
    unfolding group_by
    Distinct-group_by key [] = tt
    Distinct-group_by key (x ∷ xs) =
        Distinct-count_row (key x) (group_by same key xs) (Distinct-group_by key xs)

    module _ (before : Group K → Group K → Bool) where
      any-place :
          (p : Group K → Bool) (x : Group K) (ys : List (Group K))
          → any p (place before x ys) ≡ (p x || any p ys)
      unfolding place
      any-place p x [] = refl
      any-place p x (y ∷ ys) = ground (arith, any-place p x ys)

      Distinct-place :
          (x : Group K) (ys : List (Group K))
          → any (same_key x) ys ≡ false
          → Distinct same_key ys
          → Distinct same_key (place before x ys)
      unfolding place
      Distinct-place x [] h d = (refl, tt)
      Distinct-place x (y ∷ ys) h d = elim (Bool-cases (before x y)) [
        | inl e ↦ rw e (h, d)
        | inr e ↦ rw e (
          any-place (same_key y) x ys
              ∙ ground (arith, same_iff x.key y.key, same_iff y.key x.key, h, d.0),
          Distinct-place x ys (ground (arith, h)) d.1,
        )
      ]

      any-order_by :
          (p : Group K → Bool) (ys : List (Group K)) → any p (order_by before ys) ≡ any p ys
      unfolding order_by
      any-order_by p [] = refl
      any-order_by p (y ∷ ys) =
          any-place p y (order_by before ys) ∙ ap (λ b. p y || b) (any-order_by p ys)

      pub Distinct-order_by :
          (ys : List (Group K)) → Distinct same_key ys → Distinct same_key (order_by before ys)
      unfolding order_by
      Distinct-order_by [] d = tt
      Distinct-order_by (y ∷ ys) d =
          Distinct-place y (order_by before ys) (any-order_by (same_key y) ys ∙ d.0)
            (Distinct-order_by ys d.1)
