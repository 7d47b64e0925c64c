-- ===== src/Sql/Sorted.antt =====
-- ORDER BY of Sql: the order and the rows of its result.
use proyecto_1_back.Prelude.{
  ℕ, zero, suc, map, take, All-take, ◌≡◌, refl, ap, ◌∙◌, Bool, true, false, List, [], ◌∷◌, All,
  filter, length, arith, Bool-cases, inl, inr,
}
use proyecto_1_back.Sql.{place, order_by}

module _ {A : Type 0} (before : A → A → Bool) where
  length-place : (x : A) (ys : List A) → length (place before x ys) ≡ suc (length ys)
  unfolding place
  length-place x [] = refl
  length-place x (y ∷ ys) = ground (arith, length-place x ys)

  pub length-order_by : (xs : List A) → length (order_by before xs) ≡ length xs
  unfolding order_by
  length-order_by [] = refl
  length-order_by (x ∷ xs) = length-place x (order_by before xs) ∙ ap suc (length-order_by xs)

  filter-place :
      (p : A → Bool) (x : A) (ys : List A)
      → length (filter p (place before x ys)) ≡ length (filter p (x ∷ ys))
  unfolding place
  filter-place p x [] = refl
  filter-place p x (y ∷ ys) = ground (arith, filter-place p x ys)

  -- each row as often as before
  pub filter-order_by :
      (p : A → Bool) (xs : List A) → length (filter p (order_by before xs)) ≡ length (filter p xs)
  unfolding order_by
  filter-order_by p [] = refl
  filter-order_by p (x ∷ xs) =
      ground (arith, filter-place p x (order_by before xs), filter-order_by p xs)

  module _ {κ} (P : A → Type κ) where
    All-place : (x : A) (ys : List A) → P x → All P ys → All P (place before x ys)
    unfolding place
    All-place x [] h k = (h, k)
    All-place x (y ∷ ys) h k = elim (Bool-cases (before x y)) [
      | inl e ↦ rw e (h, k)
      | inr e ↦ rw e (k.0, All-place x ys h k.1)
    ]

    pub All-order_by : (xs : List A) → All P xs → All P (order_by before xs)
    unfolding order_by
    All-order_by [] h = h
    All-order_by (x ∷ xs) h = All-place x (order_by before xs) h.0 (All-order_by xs h.1)

  abbrev pub Sorted : List A → Type 0
  Sorted [] = Unit {0}
  Sorted (x ∷ xs) = All (λ y. before x y ≡ true) xs × Sorted xs

  module _ (total : (x y : A) → before x y ≡ false → before y x ≡ true)
      (trans : (x y z : A) → before x y ≡ true → before y z ≡ true → before x z ≡ true) where
    Sorted-place : (x : A) (ys : List A) → Sorted ys → Sorted (place before x ys)
    unfolding place
    Sorted-place x [] h = (tt, tt)
    Sorted-place x (y ∷ ys) h = elim (Bool-cases (before x y)) [
      | inl e ↦ rw e ((e, below x y e ys h.0), h)
      | inr e ↦
          rw e (All-place (λ z. before y z ≡ true) x ys (total x y e) h.0, Sorted-place x ys h.1)
    ]
      where
        below :
            (x y : A)
            → before x y ≡ true
            → (zs : List A) → All (λ z. before y z ≡ true) zs
            → All (λ z. before x z ≡ true) zs
        below x y e [] k = tt
        below x y e (z ∷ zs) k = (trans x y z e k.0, below x y e zs k.1)

    pub order_by-Sorted : (xs : List A) → Sorted (order_by before xs)
    unfolding order_by
    order_by-Sorted [] = tt
    order_by-Sorted (x ∷ xs) = Sorted-place x (order_by before xs) (order_by-Sorted xs)

  pub Sorted-take : (n : ℕ) (xs : List A) → Sorted xs → Sorted (take n xs)
  Sorted-take zero xs h = tt
  Sorted-take (suc n) [] h = tt
  Sorted-take (suc n) (x ∷ xs) h =
      (All-take (λ y. before x y ≡ true) n xs h.0, Sorted-take n xs h.1)

module _ {A B : Type 0} (f : A → B) (before : B → B → Bool) where
  All-map_of : (P : B → Type 0) (xs : List A) → All (λ x. P (f x)) xs → All P (map f xs)
  All-map_of P [] h = tt
  All-map_of P (x ∷ xs) h = (h.0, All-map_of P xs h.1)

  pub Sorted-map : (xs : List A) → Sorted (λ x y. before (f x) (f y)) xs → Sorted before (map f xs)
  Sorted-map [] h = tt
  Sorted-map (x ∷ xs) h = (All-map_of (λ y. before (f x) y ≡ true) xs h.0, Sorted-map xs h.1)
