-- ===== src/DownloadQueue/Dequeue.antt =====
-- `dequeue`, and what the slot operations keep, of app/services/download_queue.py.
use native.Mathlib.Decide.{dec_lt}
use yt_dlp_api.Prelude.{
  suc, ◌+◌, ◌-◌, ◌<◌, String, ◌≡◌, refl, ap, true, false, inl, inr, none, some, List, [], ◌∷◌,
  arith, ◌==◌, length, All, add_member, Bool-cases, add_member-Distinct, discard-Distinct,
}
use yt_dlp_api.DownloadQueue.Job.{QueuedJob, at_most, has_id}
use yt_dlp_api.DownloadQueue.Heap.{Heapq, Pops, nothing, entry, SameEntries}
use yt_dlp_api.DownloadQueue.{
  DownloadQueue, update_positions, update_metrics, popped, dequeue, release_slot,
  acquire_slot_for_sync,
}
use yt_dlp_api.DownloadQueue.Invariant.{IsValid}

module _ (h : Heapq) where
  -- How `dequeue` may end.
  pub data Dequeues (q : DownloadQueue) : Type 0 where
    no_slot : q.semaphore ≡ 0 → dequeue h q ≡ (q, none) → Dequeues q
    no_job : 0 < q.semaphore → q.queue ≡ [] → dequeue h q ≡ (q, none) → Dequeues q
    gives :
        (q' : DownloadQueue) (x : QueuedJob)
        → 0 < q.semaphore
        → dequeue h q ≡ (q', some x.job_id)
        → IsValid h q'
        → SameEntries q.queue (x ∷ q'.queue)
        → All (λ y. at_most x y ≡ true) q'.queue
        → q'.semaphore + 1 ≡ q.semaphore
        → q'.active_jobs ≡ add_member x.job_id q.active_jobs
        → (q'.max_concurrent ≡ q.max_concurrent) × (q'.max_queue_size ≡ q.max_queue_size)
        → q'.gauges
          ≡ record { queue_size = length q'.queue; active_downloads = length q'.active_jobs }
        → Dequeues q

  dequeue_no_slot : (q : DownloadQueue) → q.semaphore ≡ 0 → dequeue h q ≡ (q, none)
  unfolding dequeue
  dequeue_no_slot q e = rw e

  taken : DownloadQueue → QueuedJob → List QueuedJob → DownloadQueue
  taken q x rest = update_metrics (update_positions (popped h q x rest))

  dequeue_job :
      (q : DownloadQueue) (x : QueuedJob) (rest : List QueuedJob)
      → 0 < q.semaphore
      → h.heappop q.queue ≡ some (x, rest)
      → dequeue h q ≡ (taken q x rest, some x.job_id)
  unfolding dequeue taken
  dequeue_job q x rest pos e =
      let some_free : (q.semaphore == 0) ≡ false = ground arith in rw some_free (rw e)

  dequeue_empty :
      (q : DownloadQueue) → 0 < q.semaphore → h.heappop q.queue ≡ none → dequeue h q ≡ (q, none)
  unfolding dequeue
  dequeue_empty q pos e =
      let some_free : (q.semaphore == 0) ≡ false = ground arith in
      let back : suc (q.semaphore - 1) ≡ q.semaphore = omega arith in
      rw some_free (rw e (ap (λ n. (record q { semaphore = n }, none)) back))

  taken-IsValid :
      (q : DownloadQueue) (x : QueuedJob) (rest : List QueuedJob)
      → IsValid h q
      → SameEntries q.queue (x ∷ rest)
      → h.IsHeap rest
      → IsValid h (taken q x rest)
  unfolding taken update_metrics update_positions
  taken-IsValid q x rest v same heap = record {
    heap = heap;
    single = λ i. ground (arith, same (has_id i), v.single i);
    numbered = refl;
    apart = add_member-Distinct x.job_id q.active_jobs v.apart;
  }

  dequeue_by_pop :
      (q : DownloadQueue)
      → IsValid h q
      → 0 < q.semaphore
      → Pops h.IsHeap q.queue (h.heappop q.queue)
      → Dequeues q
  unfolding taken update_metrics update_positions
  dequeue_by_pop q v pos (nothing e r) = no_job pos e (dequeue_empty q pos r)
  dequeue_by_pop q v pos (entry x rest r same least heap) =
      gives (taken q x rest) x pos (dequeue_job q x rest pos r) (taken-IsValid q x rest v same heap)
        same least (omega arith) refl (refl, refl) refl

  -- On a valid queue `dequeue` ends in one of three ways. Without a free slot, or without a waiting
  -- job, it returns None and nothing changes. Otherwise it returns a waiting job that is at most
  -- every other in priority and, within its priority, in the time of its entry; this entry alone
  -- leaves the queue, the job becomes active, one slot is taken, the queue keeps_place valid, its limits
  -- are as before and the gauges are up to date.
  pub dequeue_total : (q : DownloadQueue) → IsValid h q → Dequeues q
  dequeue_total q v = elim (dec_lt 0 q.semaphore) [
    | yes pos ↦ dequeue_by_pop q v pos (h.heappop-Pops q.queue v.heap)
    | no none_free ↦ no_slot (omega arith) (dequeue_no_slot q (omega arith))
  ]

  pub release_slot-IsValid :
      (q : DownloadQueue) (job_id : String) → IsValid h q → IsValid h (release_slot q job_id)
  unfolding release_slot
  release_slot-IsValid q job_id v = record {
    heap = v.heap;
    single = v.single;
    numbered = v.numbered;
    apart = discard-Distinct job_id q.active_jobs v.apart;
  }

  pub acquire_slot-IsValid :
      (q : DownloadQueue) (job_id : String)
      → IsValid h q
      → IsValid h (acquire_slot_for_sync q job_id).0
  unfolding acquire_slot_for_sync
  acquire_slot-IsValid q job_id v = elim (Bool-cases (q.semaphore == 0)) [
    | inl e ↦ rw e v
    | inr e ↦ rw e (record {
      heap = v.heap;
      single = v.single;
      numbered = v.numbered;
      apart = add_member-Distinct job_id q.active_jobs v.apart;
    })
  ]
