-- ===== src/Consistency/Tables.antt =====
-- INSERT, UPDATE and DELETE of one table, and its constraints.
use proyecto_1_back.Prelude.{
  ℕ, ◌≡◌, refl, ap, Bool, true, false, not, ◌&&◌, List, [], ◌∷◌, ◌++◌, any, any-append, All,
  All-append, All-map_imp, ◌==◌, arith, Bool-cases, inl, inr, if◌then◌else◌,
}
use proyecto_1_back.Text.{Text, text_eq, text_eq_iff}
use proyecto_1_back.Sql.{update_where, delete_where}
use proyecto_1_back.Sql.Distinct.{Distinct, Distinct-map, any_mono}

module _ {A : Type 0} (test : A → Bool) (change : A → A) where
  updated : A → A
  updated x = if test x then change x else x

  -- an UPDATE leaves a column that the change leaves
  updated_column :
      {K : Type 0} (column : A → K)
      → ((x : A) → column (change x) ≡ column x)
      → (x : A) → column (updated x) ≡ column x
  unfolding updated
  updated_column column same x = elim (Bool-cases (test x)) [
    | inl e ↦ rw e (same x)
    | inr e ↦ rw e refl
  ]

  pub Distinct-update_where :
      {K : Type 0} (column : A → K) (eq : K → K → Bool) (rows : List A)
      → ((x : A) → column (change x) ≡ column x)
      → Distinct (λ x y. eq (column x) (column y)) rows
      → Distinct (λ x y. eq (column x) (column y)) (update_where test change rows)
  unfolding updated
  Distinct-update_where column eq rows same d =
      Distinct-map (λ x y. eq (column x) (column y)) updated rows
        (λ x y. rw (updated_column column same x) (rw (updated_column column same y) refl)) d

  pub All-update_where :
      (P : A → Type 0) (rows : List A)
      → ((x : A) → P x → P (change x))
      → All P rows
      → All P (update_where test change rows)
  All-update_where P [] keep h = tt
  All-update_where P (x ∷ rows) keep h = elim (Bool-cases (test x)) [
    | inl e ↦ rw e (keep x h.0, All-update_where P rows keep h.1)
    | inr e ↦ rw e (h.0, All-update_where P rows keep h.1)
  ]

module _ {A : Type 0} where
  -- a key that was there is there after an INSERT
  pub any-insert_old :
      (p : A → Bool) (rows : List A) (x : A) → any p rows ≡ true → any p (rows ++ x ∷ []) ≡ true
  any-insert_old p rows x h = rw (any-append p rows (x ∷ [])) (rw h refl)

module _ {A : Type 0} where
  -- a key with a row that is not deleted is there after a DELETE
  any-delete_where :
      (p dead : A → Bool) (rows : List A)
      → any p rows ≡ true
      → any (λ x. p x && dead x) rows ≡ false
      → any p (delete_where dead rows) ≡ true
  any-delete_where p dead [] h k = h
  any-delete_where p dead (x ∷ rows) h k = ground (arith, any-delete_where p dead rows)

module _ {A B : Type 0} (column : A → ℕ) (key : B → ℕ) where
  -- references to a table that keeps its keys
  pub Refers-parents :
      (rows : List A) (old new : List B)
      → ((k : ℕ) → any (λ y. key y == k) old ≡ true → any (λ y. key y == k) new ≡ true)
      → All (λ x. any (λ y. key y == column x) old ≡ true) rows
      → All (λ x. any (λ y. key y == column x) new ≡ true) rows
  Refers-parents rows old new keep h =
      All-map_imp (λ x. any (λ y. key y == column x) old ≡ true)
        (λ x. any (λ y. key y == column x) new ≡ true) rows (λ x there. keep (column x) there) h

  pub Refers-insert :
      (rows : List A) (parents : List B) (x : A)
      → any (λ y. key y == column x) parents ≡ true
      → All (λ x. any (λ y. key y == column x) parents ≡ true) rows
      → All (λ x. any (λ y. key y == column x) parents ≡ true) (rows ++ x ∷ [])
  Refers-insert rows parents x there h =
      All-append (λ x. any (λ y. key y == column x) parents ≡ true) rows (x ∷ []) h (there, tt)

  -- after a DELETE of the rows that refer to a deleted key, every reference holds
  pub Refers-delete :
      (gone : A → Bool) (dead : B → Bool) (rows : List A) (parents : List B)
      → ((x : A) → gone x ≡ false → any (λ y. key y == column x && dead y) parents ≡ false)
      → All (λ x. any (λ y. key y == column x) parents ≡ true) rows
      → All
          (λ x. any (λ y. key y == column x) (delete_where dead parents) ≡ true)
          (delete_where gone rows)
  Refers-delete gone dead [] parents cascade h = tt
  Refers-delete gone dead (x ∷ rows) parents cascade h = elim (Bool-cases (gone x)) [
    | inl e ↦ rw e (Refers-delete gone dead rows parents cascade h.1)
    | inr e ↦ rw e (
      any-delete_where (λ y. key y == column x) dead parents h.0 (cascade x e),
      Refers-delete gone dead rows parents cascade h.1,
    )
  ]

-- An UPDATE of one row by its primary key, which gives a text column a new value.
module _ {A : Type 0} (id : A → ℕ) (column : A → Text) (change : A → A) (k : ℕ) (v : Text) where
  update_none :
      (rows : List A)
      → any (λ y. id y == k) rows ≡ false
      → update_where (λ y. id y == k) change rows ≡ rows
  update_none [] h = refl
  update_none (x ∷ rows) h = elim (Bool-cases (id x == k)) [
    | inl e ↦ absurd (ground (arith, e, h))
    | inr e ↦ rw e (ap (λ (ys : List A). x ∷ ys) (update_none rows (rw e at h)))
  ]

  -- a text that is not the new value is as free as before
  any-update_other :
      (a : Text) (rows : List A)
      → ((x : A) → column (change x) ≡ v)
      → text_eq a v ≡ false
      → any (λ y. text_eq a (column y)) rows ≡ false
      → any (λ y. text_eq a (column y)) (update_where (λ y. id y == k) change rows) ≡ false
  any-update_other a [] to ne h = refl
  any-update_other a (x ∷ rows) to ne h = elim (Bool-cases (id x == k)) [
    | inl e ↦ rw e (rw (to x) (rw ne (any-update_other a rows to ne (ground (arith, h)))))
    | inr e ↦ rw e (ground (arith, h, any-update_other a rows to ne))
  ]

  -- the new value is free where it clashes with no other row
  any-free :
      (rows : List A)
      → any (λ y. id y == k) rows ≡ false
      → any (λ y. text_eq (column y) v && not (id y == k)) rows ≡ false
      → any (λ y. text_eq v (column y)) rows ≡ false
  any-free [] h c = refl
  any-free (x ∷ rows) h c =
      ground (arith, any-free rows, text_eq_iff v (column x), text_eq_iff (column x) v)

  pub UniqueText-update :
      (rows : List A)
      → ((x : A) → column (change x) ≡ v)
      → any (λ y. text_eq (column y) v && not (id y == k)) rows ≡ false
      → Distinct (λ x y. id x == id y) rows
      → Distinct (λ x y. text_eq (column x) (column y)) rows
      → Distinct (λ x y. text_eq (column x) (column y)) (update_where (λ y. id y == k) change rows)
  UniqueText-update [] to clash ids d = d
  UniqueText-update (x ∷ rows) to clash ids d = elim (Bool-cases (id x == k)) [
    | inl e ↦
        let alone : any (λ y. id y == k) rows ≡ false =
          any_mono (λ y. id y == k) (λ y. id x == id y) rows (λ y h. ground (arith, e, h)) ids.0 in
        rw e (
          rw (update_none rows alone)
            (rw (to x) (any-free rows alone (ground (arith, clash))), d.1))
    | inr e ↦ rw e (
      any-update_other (column x) rows to (ground (arith, clash, e)) d.0,
      UniqueText-update rows to (ground (arith, clash)) ids.1 d.1,
    )
  ]
