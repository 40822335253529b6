-- ===== src/DownloadQueue/Positions.antt =====
-- The numbering of `_update_positions` (app/services/download_queue.py): every queued job gets its
-- place in the sorted queue, counted from 1.
use yt_dlp_api.Prelude.{
  ℕ, suc, ◌+◌, ◌≤◌, ◌<◌, String, ◌≡◌, refl, Option, none, some, List, [], ◌∷◌, ◌++◌, arith, ◌==◌,
  if◌then◌else◌, eq_iff, count, count-append, length, Bool-cases, inl, inr,
}
use yt_dlp_api.Prelude.Dict.{Dict, lookup, insert, lookup-insert}
use yt_dlp_api.DownloadQueue.Job.{QueuedJob, has_id}
use yt_dlp_api.DownloadQueue.{number}

-- The place of a job's first entry, counted on from `idx`.
abbrev pub rank : String → ℕ → List QueuedJob → Option ℕ
rank i idx [] = none
rank i idx (j ∷ js) = if has_id i j then some (suc idx) else rank i (suc idx) js

pub lookup-number :
    (i : String) (idx : ℕ) (js : List QueuedJob) (d : Dict ℕ)
    → count (has_id i) js ≤ 1
    → lookup i (number idx js d) ≡ (if count (has_id i) js == 0 then lookup i d else rank i idx js)
unfolding number
lookup-number i idx [] d h = refl
lookup-number i idx (j ∷ js) d h = ground (
  arith,
  lookup-insert j.job_id i (suc idx) d,
  lookup-number i (suc idx) js (insert j.job_id (suc idx) d),
)

pub rank_absent :
    (i : String) (idx : ℕ) (js : List QueuedJob) → count (has_id i) js ≡ 0 → rank i idx js ≡ none
rank_absent i idx [] h = refl
rank_absent i idx (j ∷ js) h = ground (arith, rank_absent i (suc idx) js)

pub lookup-number-rank :
    (i : String) (js : List QueuedJob)
    → count (has_id i) js ≤ 1
    → lookup i (number 0 js []) ≡ rank i 0 js
lookup-number-rank i js h = ground (arith, lookup-number i 0 js [], rank_absent i 0 js)

-- A job that is queued has a rank, within the length of the queue.
pub rank_bounds :
    (i : String) (idx : ℕ) (js : List QueuedJob)
    → 1 ≤ count (has_id i) js
    → (p : ℕ) × (rank i idx js ≡ some p) × (idx < p) × (p ≤ idx + length js)
rank_bounds i idx [] h = absurd (omega arith)
rank_bounds i idx (j ∷ js) h = elim (Bool-cases (has_id i j)) [
  | inl e ↦ (suc idx, rw e, omega arith, omega arith)
  | inr e ↦
      let (p, r, a, b) = rank_bounds i (suc idx) js (rw e at h) in
      (p, rw e r, omega arith, omega arith)
]

-- The job behind `length xs` others has the next place.
pub rank_after :
    (i : String) (idx : ℕ) (xs : List QueuedJob) (j : QueuedJob) (ys : List QueuedJob)
    → j.job_id ≡ i
    → count (has_id i) (xs ++ j ∷ ys) ≤ 1
    → rank i idx (xs ++ j ∷ ys) ≡ some (suc (idx + length xs))
rank_after i idx [] j ys e h = ground (arith, eq_iff j.job_id i)
rank_after i idx (x ∷ xs) j ys e h = ground (
  arith,
  eq_iff j.job_id i,
  count-append (has_id i) xs (j ∷ ys),
  rank_after i (suc idx) xs j ys e,
)

rank_above : (i : String) (idx : ℕ) (js : List QueuedJob) (p : ℕ) → rank i idx js ≡ some p → idx < p
rank_above i idx [] p h = cc
rank_above i idx (j ∷ js) p h = ground (arith, rank_above i (suc idx) js p)

-- Two jobs never share a place.
pub rank_injective :
    (i k : String) (idx : ℕ) (js : List QueuedJob) (p : ℕ)
    → rank i idx js ≡ some p
    → rank k idx js ≡ some p
    → i ≡ k
rank_injective i k idx [] p h g = cc
rank_injective i k idx (j ∷ js) p h g = ground (
  arith,
  eq_iff j.job_id i,
  eq_iff j.job_id k,
  rank_above i (suc idx) js p,
  rank_above k (suc idx) js p,
  rank_injective i k (suc idx) js p,
)
