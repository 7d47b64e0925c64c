-- ===== src/Services/Uploads/Workers.antt =====
-- `shutdown_workers` of api/app/services/upload_service.py, on the globals of the module.
use proyecto_1_back.Prelude.{ℕ, ◌≡◌, refl, Bool, true, false, List, []}

-- the module's globals
pub record Pool : Type 0 where
  pub shutting_down : Bool
  pub workers : List ℕ
  pub has_executor : Bool
  pub unfinished : ℕ

abbrev pub shut : Bool → ℕ → Pool → Pool
shut true left pool = pool
shut false left pool = record {
  shutting_down = true;
  workers = [];
  has_executor = false;
  unfinished = left;
}

-- `shutdown_workers`; `left` jobs are still open when `queue.join` returns or its 30 seconds are over
unfoldable pub shutdown_workers : ℕ → Pool → Pool
shutdown_workers left pool = shut pool.shutting_down left pool

-- The second of two shutdowns, such as the one of a signal and the one of the lifespan, does nothing.
pub shutdown_workers_once :
    (left later : ℕ) (pool : Pool)
    → pool.shutting_down ≡ false
    → shutdown_workers later (shutdown_workers left pool) ≡ shutdown_workers left pool
unfolding shutdown_workers
shutdown_workers_once left later pool h = rw h refl
