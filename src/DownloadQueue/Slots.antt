-- ===== src/DownloadQueue/Slots.antt =====
-- The concurrency limit of app/services/download_queue.py: the free slots of the semaphore and the
-- active jobs make up `max_concurrent`, as long as a slot is released for an active job only.
use yt_dlp_api.Prelude.{
  suc, ◌+◌, ◌≤◌, String, ◌≡◌, refl, ap, true, false, ◌⊎◌, inl, inr, some, ◌∷◌, arith, ◌==◌, length,
  Distinct, add_member, member-discard, eq_iff, Bool-cases, length-discard, discard_absent,
}
use yt_dlp_api.Prelude.Int.{pos}
use yt_dlp_api.DownloadQueue.Heap.{Heapq}
use yt_dlp_api.DownloadQueue.{
  DownloadQueue, dequeue, release_slot, acquire_slot_for_sync, is_active, get_available_slots,
  get_active_count,
}
use yt_dlp_api.DownloadQueue.Invariant.{IsValid}
use yt_dlp_api.DownloadQueue.Dequeue.{Dequeues, no_slot, no_job, gives, dequeue_total}

-- Free slots and active jobs make up the limit.
abbrev pub IsBalanced : DownloadQueue → Type 0
IsBalanced q = q.semaphore + length q.active_jobs ≡ q.max_concurrent

-- While the slots are balanced, the number of available slots that the statistics tell is that of
-- the semaphore, and no more than `max_concurrent` jobs are active.
pub balanced_slots :
    (q : DownloadQueue)
    → IsBalanced q
    → (get_available_slots q ≡ pos q.semaphore) × (get_active_count q ≤ q.max_concurrent)
unfolding get_available_slots get_active_count
balanced_slots q b = (ground arith, omega arith)

-- Releasing the slot of an active job keeps the balance: the job is active no more, and one more
-- slot is free.
pub release_active :
    (q : DownloadQueue) (job_id : String)
    → Distinct q.active_jobs
    → is_active q job_id ≡ true
    → IsBalanced q
    → IsBalanced (release_slot q job_id) × (is_active (release_slot q job_id) job_id ≡ false)
unfolding release_slot is_active
release_active q job_id d a b = (
  omega (arith, length-discard job_id q.active_jobs d a),
  ground (arith, member-discard job_id job_id q.active_jobs, eq_iff job_id job_id),
)

-- Releasing a slot for a job that is not active frees one all the same: from a balanced queue the
-- free slots and the active jobs together come to one more than the limit.
release_inactive :
    (q : DownloadQueue) (job_id : String)
    → is_active q job_id ≡ false
    → IsBalanced q
    → (release_slot q job_id).semaphore + length (release_slot q job_id).active_jobs
      ≡ q.max_concurrent + 1
unfolding release_slot is_active
release_inactive q job_id a b = omega (arith, ap length (discard_absent job_id q.active_jobs a))

-- A slot for a synchronous download is granted exactly while one is free; a job that was not active
-- becomes active and takes one slot, and the balance is kept. A refusal changes nothing.
acquire_slot_balance :
    (q : DownloadQueue) (job_id : String)
    → is_active q job_id ≡ false
    → IsBalanced q
    → let r = acquire_slot_for_sync q job_id in
      ((q.semaphore ≡ 0) × (r ≡ (q, false)))
      ⊎ ((r.1 ≡ true)
          × (r.0.semaphore + 1 ≡ q.semaphore)
          × (r.0.active_jobs ≡ job_id ∷ q.active_jobs)
          × IsBalanced r.0)
unfolding acquire_slot_for_sync is_active
acquire_slot_balance q job_id a b = elim (Bool-cases (q.semaphore == 0)) [
  | inl e ↦ inl (ground arith, rw e)
  | inr e ↦ inr (rw e, rw e (ground arith), rw e (rw a), rw e (rw a (ground arith)))
]

module _ (h : Heapq) where
  -- `dequeue` keeps the balance, unless the job that it returns is active already.
  pub dequeue-IsBalanced :
      (q : DownloadQueue)
      → IsValid h q
      → ((i : String) → (dequeue h q).1 ≡ some i → is_active q i ≡ false)
      → IsBalanced q
      → IsBalanced (dequeue h q).0
  unfolding is_active
  dequeue-IsBalanced q v fresh b = balance (dequeue_total h q v)
    where
      balance : Dequeues h q → IsBalanced (dequeue h q).0
      balance (no_slot z e) = rw e b
      balance (no_job p z e) = rw e b
      balance (gives q' x p e v' same least s a m g) =
          let grown : length (add_member x.job_id q.active_jobs) ≡ suc (length q.active_jobs) =
            rw (fresh x.job_id (rw e)) refl in
          rw e (omega (arith, ap length a, grown))
