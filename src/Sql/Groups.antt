-- ===== src/Sql/Groups.antt =====
-- GROUP BY with `func.count`: the groups of a list of rows by a key.
pub mod Sums
use proyecto_1_back.Prelude.{ℕ, suc, Bool, List, [], ◌∷◌, if◌then◌else◌}

pub record Group (K : Type 0) : Type 0 where
  pub key : K
  pub count : ℕ

module _ {K : Type 0} (same : K → K → Bool) where
  -- one more row of a group, which may be new
  unfoldable pub count_row : K → List (Group K) → List (Group K)
  count_row k [] = record { key = k; count = 1 } ∷ []
  count_row k (g ∷ gs) =
      let rest = count_row k gs in
      if same k g.key then record { key = g.key; count = suc g.count } ∷ gs else g ∷ rest

  unfoldable pub group_by : {A : Type 0} → (A → K) → List A → List (Group K)
  unfolding count_row
  group_by key [] = []
  group_by key (x ∷ xs) = count_row (key x) (group_by key xs)
