-- ===== src/Paging/Tests.antt =====
-- Pages at concrete values.
use stds_backend_go.Prelude.{◌≡◌, ◌*◌, ◌<◌, ℕ, arith}
use stds_backend_go.Prelude.Int.{half_range}
use stds_backend_go.Paging.Entries.{IsOnPage, page_of_entry}

page_of_entry_example :
    (n : ℕ) × IsOnPage n 20 45 × ((k : ℕ) → k * 20 < half_range → IsOnPage k 20 45 → k ≡ n)
page_of_entry_example = page_of_entry 20 45 (omega arith) (omega arith) (omega arith)
