-- ===== src/DownloadQueue/Places.antt =====
-- The place that app/services/download_queue.py tells of a job is one that the order of the
-- waiting jobs allows.
use yt_dlp_api.Prelude.{
  ℕ, suc, ◌+◌, ◌≤◌, ◌<◌, String, ◌≡◌, refl, Bool, true, not, inl, inr, some, List, [], ◌∷◌, arith,
  count, All, Bool-cases,
}
use yt_dlp_api.Prelude.Sort.{sort, IsOrdered, sort-IsOrdered, count-sort}
use yt_dlp_api.DownloadQueue.Job.{QueuedJob, at_most, at_most_total, at_most_trans, has_id}
use yt_dlp_api.DownloadQueue.Heap.{Heapq, SameEntries}
use yt_dlp_api.DownloadQueue.Positions.{rank}
use yt_dlp_api.DownloadQueue.{DownloadQueue, get_queue_position}
use yt_dlp_api.DownloadQueue.Invariant.{IsValid, get_queue_position-rank}
use yt_dlp_api.DownloadQueue.Abstract.{IsPlace}

count_none_after :
    (x : QueuedJob) (js : List QueuedJob)
    → All (λ y. at_most x y ≡ true) js
    → count (λ y. not (at_most x y)) js ≡ 0
count_none_after x [] a = refl
count_none_after x (j ∷ js) a = rw a.0 (count_none_after x js a.1)

at_most_refl : (x : QueuedJob) → at_most x x ≡ true
at_most_refl x = ground arith

-- An entry of the list `js` behind `idx` others.
record Stands (i : String) (idx p : ℕ) (js : List QueuedJob) : Type 0 where
  entry : QueuedJob
  of_job : has_id i entry ≡ true
  stands : (r : QueuedJob → Bool) → r entry ≡ true → 1 ≤ count r js
  not_before : idx + count (λ y. not (at_most entry y)) js < p
  not_after : p ≤ idx + count (λ y. at_most y entry) js

first-Stands :
    (i : String) (idx : ℕ) (j : QueuedJob) (js : List QueuedJob)
    → has_id i j ≡ true
    → All (λ y. at_most j y ≡ true) js
    → Stands i idx (suc idx) (j ∷ js)
first-Stands i idx j js e a = record {
  entry = j;
  of_job = e;
  stands = λ r g. rw g (omega arith);
  not_before = rw (at_most_refl j) (omega (arith, count_none_after j js a));
  not_after = rw (at_most_refl j) (omega arith);
}

later-Stands :
    (i : String) (idx p : ℕ) (j : QueuedJob) (js : List QueuedJob)
    → All (λ y. at_most j y ≡ true) js
    → Stands i (suc idx) p js
    → Stands i idx p (j ∷ js)
later-Stands i idx p j js a s =
    let least : at_most j s.entry ≡ true = elim (Bool-cases (at_most j s.entry)) [
      | inl e ↦ e
      | inr e ↦
          absurd
            (omega (arith, s.stands (λ y. not (at_most j y)) (rw e refl), count_none_after j js a))
    ] in
    record {
      entry = s.entry;
      of_job = s.of_job;
      stands = λ r g. ground (arith, s.stands r g);
      not_before = ground (arith, s.not_before);
      not_after = rw least (omega (arith, s.not_after));
    }

rank-Stands :
    (i : String) (idx p : ℕ) (js : List QueuedJob)
    → IsOrdered at_most js
    → rank i idx js ≡ some p
    → Stands i idx p js
rank-Stands i idx p [] o e = absurd (cc)
rank-Stands i idx p (j ∷ js) o e = elim (Bool-cases (has_id i j)) [
  | inl g ↦
      let k : some (suc idx) ≡ some p = rw g at e in
      let same : suc idx ≡ p = cc in rw same at (first-Stands i idx j js g o.0)
  | inr g ↦ later-Stands i idx p j js o.0 (rank-Stands i (suc idx) p js o.1 (rw g at e))
]

pub IsPlace-same :
    (i : String) (p : ℕ) (xs ys : List QueuedJob)
    → SameEntries xs ys
    → IsPlace i p xs
    → IsPlace i p ys
IsPlace-same i p xs ys same l = record {
  entry = l.entry;
  of_job = l.of_job;
  stands = λ r g. omega (arith, same r, l.stands r g);
  not_before = omega (arith, same (λ y. not (at_most l.entry y)), l.not_before);
  not_after = omega (arith, same (λ y. at_most y l.entry), l.not_after);
}

Stands-IsPlace : (i : String) (p : ℕ) (js : List QueuedJob) → Stands i 0 p js → IsPlace i p js
Stands-IsPlace i p js s = record {
  entry = s.entry;
  of_job = s.of_job;
  stands = s.stands;
  not_before = omega (arith, s.not_before);
  not_after = omega (arith, s.not_after);
}

module _ (h : Heapq) where
  pub get_queue_position-IsPlace :
      (q : DownloadQueue) (i : String) (p : ℕ)
      → IsValid h q
      → get_queue_position q i ≡ some p
      → IsPlace i p q.queue
  get_queue_position-IsPlace q i p v e =
      IsPlace-same i p (sort at_most q.queue) q.queue (λ r. count-sort at_most r q.queue)
        (Stands-IsPlace i p (sort at_most q.queue) (
          rank-Stands i 0 p (sort at_most q.queue)
            (sort-IsOrdered at_most at_most_total at_most_trans q.queue)
            (rw (get_queue_position-rank h q i v) at e)))
