-- ===== src/Pagination.antt =====
-- api/app/utils/pagination.py. The limit and the offset of a page are natural numbers, as the routes demand.
use proyecto_1_back.Prelude.{
  ℕ, suc, ◌+◌, ◌-◌, ◌*◌, ◌/◌, ◌<◌, ◌≡◌, ◌↔◌, Bool, true, List, arith, ltb, ◌==◌, if◌then◌else◌,
}
use native.Mathlib.Nat.{le-div_iff_mul-le, mul-div_cancel}

pub record PaginatedResponse (T : Type 0) : Type 0 where
  pub items : List T
  pub total : ℕ
  pub limit : ℕ
  pub offset : ℕ

module _ {T : Type 0} where
  unfoldable pub has_more : PaginatedResponse T → Bool
  has_more self = ltb (self.offset + self.limit) self.total

  unfoldable pub page : PaginatedResponse T → ℕ
  page self = if self.limit == 0 then 1 else self.offset / self.limit + 1

  unfoldable pub total_pages : PaginatedResponse T → ℕ
  total_pages self = if self.limit == 0 then 1 else (self.total + self.limit - 1) / self.limit

  -- With a limit of at least 1 and an offset that is `k` whole pages, the page is the number `k + 1`, and
  -- there is more exactly when it is not the last of the pages.
  pub page-has_more :
      (items : List T) (total l k : ℕ)
      → (page (record { items = items; total = total; limit = suc l; offset = k * suc l }) ≡ k + 1)
        × ((has_more (record { items = items; total = total; limit = suc l; offset = k * suc l })
              ≡ true)
            ↔ (k + 1
                < total_pages
                    (record { items = items; total = total; limit = suc l; offset = k * suc l })))
  unfolding page has_more total_pages
  page-has_more items total l k =
      let rows = total + suc l - 1 in
      let count = le-div_iff_mul-le {k = suc l} {x = k + 2} {y = rows} (omega arith) in
      let twice : (k + 2) * suc l ≡ k * suc l + suc l + suc l = omega arith in
      (ground (arith, mul-div_cancel k {n = suc l} (omega arith)), ground (arith, count, twice))
