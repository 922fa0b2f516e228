-- ===== src/Jobs/Batch/Counts.antt =====
-- A job tries every candidate and counts each once.
use stds_backend_go.Prelude.{◌≡◌, refl, ℕ, suc, ◌+◌, List, [], ◌∷◌, arith, ok, length}
use stds_backend_go.Jobs.Runs.Trigger.{ExecutionSummary, empty_summary}
use stds_backend_go.Jobs.Batch.Defs.{Tally, processed, skipped, failed, count, for_each, run_batch}

unfoldable pub total : ExecutionSummary → ℕ
total s = s.processed_count + s.skipped_count + s.failed_count

-- The world after the rounds of all candidates, whatever each of them returned.
unfoldable pub after_all : {W C : Type 0} → (C → W → W × Tally) → List C → W → W
after_all round [] w = w
after_all round (c ∷ cs) w = after_all round cs (round c w).0

total-count : (t : Tally) (s : ExecutionSummary) → total (count t s) ≡ suc (total s)
unfolding total count
total-count processed s = omega arith
total-count skipped s = omega arith
total-count failed s = omega arith

module _ {W C : Type 0} (round : C → W → W × Tally) where
  for_each_lem :
      (cs : List C) (s : ExecutionSummary) (w : W)
      → ((for_each round cs s w).0 ≡ after_all round cs w)
        × (total (for_each round cs s w).1 ≡ total s + length cs)
  unfolding for_each after_all
  for_each_lem [] s w = (refl, omega arith)
  for_each_lem (c ∷ cs) s w =
      let (world, sum) = for_each_lem cs (count (round c w).1 s) (round c w).0 in
      let one = total-count (round c w).1 s in (world, omega arith)

  -- The job does not stop at a candidate that fails: its world is that after the rounds of all
  -- candidates, it returns a summary, and the counts of the summary add up to their number.
  pub run_batch-total :
      (cs : List C) (w : W)
      → ((run_batch round (ok cs) w).0 ≡ after_all round cs w)
        × ((s : ExecutionSummary) × ((run_batch round (ok cs) w).1 ≡ ok s) × (total s ≡ length cs))
  unfolding run_batch
  run_batch-total cs w =
      let (world, sum) = for_each_lem cs empty_summary w in
      let none_yet : total empty_summary ≡ 0 = unfold total in refl in
      (
        world,
        (
          record (for_each round cs empty_summary w).1 { note = "job completed" },
          refl,
          unfold total in omega arith,
        ),
      )
