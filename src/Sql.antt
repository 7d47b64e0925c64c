-- ===== src/Sql.antt =====
-- The SQL that the repositories build, over tables as lists: WHERE, UPDATE, DELETE, ORDER BY,
-- LIMIT/OFFSET, max, and `scalar_one_or_none`.
pub mod Laws
pub mod Distinct
pub mod Sorted
pub mod Members
pub mod Groups
use proyecto_1_back.Prelude.{
  ℕ, Bool, not, Option, none, some, List, [], ◌∷◌, map, filter, any, take, drop, if◌then◌else◌,
}
use proyecto_1_back.Prelude.Int.{ℤ, ltb_ℤ}
use proyecto_1_back.Http.{Result, ok, err, multiple_results, integrity_error}

module _ {ℓ} {A : Type ℓ} where
  -- `result.scalar_one_or_none()`
  abbrev pub scalar_one_or_none : List A → Result (Option A)
  scalar_one_or_none [] = ok none
  scalar_one_or_none (x ∷ []) = ok (some x)
  scalar_one_or_none (x ∷ y ∷ xs) = err multiple_results

  -- a commit that a constraint refuses: IntegrityError
  abbrev pub unless_violated : Bool → A → Result A
  unless_violated violated a = if violated then err integrity_error else ok a

  -- UPDATE … WHERE test
  abbrev pub update_where : (A → Bool) → (A → A) → List A → List A
  update_where test change rows = map (λ row. if test row then change row else row) rows

  -- DELETE … WHERE test
  abbrev pub delete_where : (A → Bool) → List A → List A
  delete_where test rows = filter (λ row. not (test row)) rows

  -- ORDER BY, `before x y` when `x` may stand before `y`; `list.sort` is this sort too
  unfoldable pub place : (A → A → Bool) → A → List A → List A
  place before x [] = x ∷ []
  place before x (y ∷ ys) =
      let rest = place before x ys in if before x y then x ∷ y ∷ ys else y ∷ rest

  unfoldable pub order_by : (A → A → Bool) → List A → List A
  unfolding place
  order_by before [] = []
  order_by before (x ∷ xs) = place before x (order_by before xs)

  -- LIMIT limit OFFSET offset
  abbrev pub page_of : ℕ → ℕ → List A → List A
  page_of limit offset rows = take limit (drop offset rows)

unfoldable pub larger : ℤ → Option ℤ → Option ℤ
larger p none = some p
larger p (some q) = some (if ltb_ℤ p q then q else p)

-- `func.max`, NULL for no rows
unfoldable pub max_of : List ℤ → Option ℤ
unfolding larger
max_of [] = none
max_of (p ∷ ps) = larger p (max_of ps)
