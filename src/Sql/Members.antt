-- ===== src/Sql/Members.antt =====
-- The rows of WHERE and ORDER BY as members of the table, and the one row that a unique number finds.
use proyecto_1_back.Prelude.{
  ℕ, ◌≡◌, refl, sym, ap, ◌∙◌, ◌⊎◌, inl, inr, not, Bool, true, false, List, [], ◌∷◌, filter, any,
  ◌==◌, ==_refl, Bool-cases, arith,
}
use mathlib.Core.List.{Memᴰ}
use proyecto_1_back.Sql.{place, order_by, delete_where}
use proyecto_1_back.Sql.Distinct.{Distinct, Distinct-filter_one}

module _ {A : Type 0} where
  Mem-cases : {x y : A} → (ys : List A) → Memᴰ x (y ∷ ys) → (x ≡ y) ⊎ Memᴰ x ys
  Mem-cases ys (Memᴰ.head e) = inl e
  Mem-cases ys (Memᴰ.tail m) = inr m

  Mem-nothing : {C : Type 0} → (x : A) → Memᴰ x [] → C
  Mem-nothing x m = elim m [ ]

  pub Mem-filter :
      (p : A → Bool) (x : A) (xs : List A) → Memᴰ x xs → p x ≡ true → Memᴰ x (filter p xs)
  Mem-filter p x [] m h = elim m [ ]
  Mem-filter p x (y ∷ xs) (Memᴰ.head e) h = rw⁻¹ e (rw h (Memᴰ.head refl))
  Mem-filter p x (y ∷ xs) (Memᴰ.tail m) h = elim (Bool-cases (p y)) [
    | inl e ↦ rw e (Memᴰ.tail (Mem-filter p x xs m h))
    | inr e ↦ rw e (Mem-filter p x xs m h)
  ]

  pub Mem-of_filter :
      (p : A → Bool) (x : A) (xs : List A) → Memᴰ x (filter p xs) → Memᴰ x xs × (p x ≡ true)
  Mem-of_filter p x [] m = elim m [ ]
  Mem-of_filter p x (y ∷ xs) m = elim (Bool-cases (p y)) [
    | inl e ↦ elim (Mem-cases (filter p xs) (rw e at m)) [
      | inl is ↦ (Memᴰ.head is, ap p is ∙ e)
      | inr later ↦ let (there, passed) = Mem-of_filter p x xs later in (Memᴰ.tail there, passed)
    ]
    | inr e ↦ let (there, passed) = Mem-of_filter p x xs (rw e at m) in (Memᴰ.tail there, passed)
  ]

  module _ (before : A → A → Bool) where
    Mem-place_here : (x : A) (ys : List A) → Memᴰ x (place before x ys)
    unfolding place
    Mem-place_here x [] = Memᴰ.head refl
    Mem-place_here x (y ∷ ys) = elim (Bool-cases (before x y)) [
      | inl e ↦ rw e (Memᴰ.head refl)
      | inr e ↦ rw e (Memᴰ.tail (Mem-place_here x ys))
    ]

    Mem-place : (z x : A) (ys : List A) → Memᴰ z ys → Memᴰ z (place before x ys)
    unfolding place
    Mem-place z x [] m = elim m [ ]
    Mem-place z x (y ∷ ys) (Memᴰ.head e) = elim (Bool-cases (before x y)) [
      | inl b ↦ rw b (Memᴰ.tail (Memᴰ.head e))
      | inr b ↦ rw b (Memᴰ.head e)
    ]
    Mem-place z x (y ∷ ys) (Memᴰ.tail m) = elim (Bool-cases (before x y)) [
      | inl b ↦ rw b (Memᴰ.tail (Memᴰ.tail m))
      | inr b ↦ rw b (Memᴰ.tail (Mem-place z x ys m))
    ]

    pub Mem-order_by : (x : A) (xs : List A) → Memᴰ x xs → Memᴰ x (order_by before xs)
    unfolding order_by
    Mem-order_by x [] m = elim m [ ]
    Mem-order_by x (y ∷ xs) (Memᴰ.head e) = rw e (Mem-place_here y (order_by before xs))
    Mem-order_by x (y ∷ xs) (Memᴰ.tail m) = Mem-place x y (order_by before xs) (Mem-order_by x xs m)

    Mem-of_place : (z x : A) (ys : List A) → Memᴰ z (place before x ys) → Memᴰ z (x ∷ ys)
    unfolding place
    Mem-of_place z x [] m = m
    Mem-of_place z x (y ∷ ys) m = elim (Bool-cases (before x y)) [
      | inl b ↦ rw b at m
      | inr b ↦ elim (Mem-cases (place before x ys) (rw b at m)) [
        | inl e ↦ Memᴰ.tail (Memᴰ.head e)
        | inr k ↦ elim (Mem-cases ys (Mem-of_place z x ys k)) [
          | inl e ↦ Memᴰ.head e
          | inr there ↦ Memᴰ.tail (Memᴰ.tail there)
        ]
      ]
    ]

    pub Mem-of_order_by : (x : A) (xs : List A) → Memᴰ x (order_by before xs) → Memᴰ x xs
    unfolding order_by
    Mem-of_order_by x [] m = m
    Mem-of_order_by x (y ∷ xs) m =
        elim (Mem-cases (order_by before xs) (Mem-of_place x y (order_by before xs) m)) [
          | inl e ↦ Memᴰ.head e
          | inr k ↦ Memᴰ.tail (Mem-of_order_by x xs k)
        ]

  pub Mem-any : (p : A → Bool) (x : A) (xs : List A) → Memᴰ x xs → p x ≡ true → any p xs ≡ true
  Mem-any p x [] m h = elim m [ ]
  Mem-any p x (y ∷ xs) (Memᴰ.head e) h = rw (sym (ap p e) ∙ h) refl
  Mem-any p x (y ∷ xs) (Memᴰ.tail m) h = elim (Bool-cases (p y)) [
    | inl e ↦ rw e refl
    | inr e ↦ rw e (Mem-any p x xs m h)
  ]

  pub any-Mem : (p : A → Bool) (xs : List A) → any p xs ≡ true → (x : A) × Memᴰ x xs × (p x ≡ true)
  any-Mem p [] h = cc
  any-Mem p (y ∷ xs) h = elim (Bool-cases (p y)) [
    | inl e ↦ (y, Memᴰ.head refl, e)
    | inr e ↦ let (x, there, passed) = any-Mem p xs (rw e at h) in (x, Memᴰ.tail there, passed)
  ]

  pub any_none :
      (p : A → Bool) (xs : List A) → ((x : A) → Memᴰ x xs → p x ≡ false) → any p xs ≡ false
  any_none p xs h = elim (Bool-cases (any p xs)) [
    | inl e ↦ let (x, there, passed) = any-Mem p xs e in cc (passed, h x there)
    | inr e ↦ e
  ]

  -- a DELETE keeps what does not pass the test, and nothing that passes it
  pub Mem-delete_where :
      (p : A → Bool) (x : A) (xs : List A) → Memᴰ x (delete_where p xs) → Memᴰ x xs × (p x ≡ false)
  Mem-delete_where p x xs m =
      let (there, passed) = Mem-of_filter (λ y. not (p y)) x xs m in (there, ground arith)

  pub Mem-kept :
      (p : A → Bool) (x : A) (xs : List A) → Memᴰ x xs → p x ≡ false → Memᴰ x (delete_where p xs)
  Mem-kept p x xs m h = Mem-filter (λ y. not (p y)) x xs m (rw h refl)

  -- a number that no two rows share finds the row that has it
  pub unique_row :
      (column : A → ℕ) (id : ℕ) (x : A) (xs : List A)
      → Distinct (λ a b. column a == column b) xs
      → Memᴰ x xs
      → column x ≡ id
      → filter (λ y. column y == id) xs ≡ x ∷ []
  unique_row column id x xs u m e =
      let p : A → Bool = λ y. column y == id in
      let there : Memᴰ x (filter p xs) = Mem-filter p x xs m (rw e (==_refl id)) in
      elim (Distinct-filter_one (λ a b. column a == column b) p xs (λ y z h k. ground (arith, h, k))
        u) [
          | inl nothing ↦ Mem-nothing x (rw nothing at there)
          | inr (y, one) ↦ elim (Mem-cases [] (rw one at there)) [
            | inl is ↦ one ∙ ap (λ z. z ∷ []) (sym is)
            | inr nowhere ↦ Mem-nothing x nowhere
          ]
        ]

  -- the row that was found by a number
  pub found_row :
      (column : A → ℕ) (id : ℕ) (x : A) (xs : List A)
      → filter (λ y. column y == id) xs ≡ x ∷ []
      → Memᴰ x xs × (column x ≡ id)
  found_row column id x xs h =
      let p : A → Bool = λ y. column y == id in
      let (there, passed) = Mem-of_filter p x xs (rw h (Memᴰ.head refl)) in
      (there, ground (arith, passed))
