-- ===== src/DownloadQueue/Calls.antt =====
-- Calls of app/services/download_queue.py one after the other, and the line of
-- DownloadQueue/Abstract.antt that a queue shows.
use yt_dlp_api.Prelude.{ℕ, String, ◌≡◌, Bool, Option, none, some, List, [], ◌∷◌}
use yt_dlp_api.Prelude.Result.{Result, ok, err}
use yt_dlp_api.DownloadQueue.Heap.{Heapq, SameEntries}
use yt_dlp_api.DownloadQueue.{
  DownloadQueue, QueueError, queue_full, key_error, enqueue, dequeue, remove_job, release_slot,
  acquire_slot_for_sync, get_queue_position, get_stats, is_active, get_queue_size, get_active_count,
  get_available_slots,
}
use yt_dlp_api.DownloadQueue.Invariant.{IsValid}
use yt_dlp_api.DownloadQueue.Abstract.{
  Line, Call, Reply, Serves, enter, take_next, withdraw, give_back, take_slot, ask, ask_active,
  ask_size, ask_active_count, ask_available, amount, slots_left, ask_stats, counted, full, nowhere,
  nobody, slot_back, failure, at_place, given, success,
}

abbrev pub new_line : ℕ → ℕ → Line
new_line max_concurrent max_queue_size = record {
  waiting = [];
  running = [];
  free = max_concurrent;
  limit = max_concurrent;
  room = max_queue_size;
}

abbrev pub enqueue_answer :
    DownloadQueue → Result QueueError (DownloadQueue × ℕ) → DownloadQueue × Reply
enqueue_answer q (err queue_full) = (q, full)
enqueue_answer q (err key_error) = (q, failure)
enqueue_answer q (ok (q', p)) = (q', at_place p)

abbrev pub dequeue_answer : DownloadQueue × Option String → DownloadQueue × Reply
dequeue_answer (q, none) = (q, nobody)
dequeue_answer (q, some i) = (q, given i)

abbrev pub done_answer : DownloadQueue × Bool → DownloadQueue × Reply
done_answer (q, b) = (q, success b)

abbrev pub place_answer : Option ℕ → Reply
place_answer none = nowhere
place_answer (some p) = at_place p

module _ (h : Heapq) where
  -- One call of the queue.
  abbrev pub call : DownloadQueue → Call → DownloadQueue × Reply
  call q (enter now i priority) = enqueue_answer q (enqueue h q now i priority)
  call q take_next = dequeue_answer (dequeue h q)
  call q (withdraw i) = done_answer (remove_job h q i)
  call q (give_back i) = (release_slot q i, slot_back)
  call q (take_slot i) = done_answer (acquire_slot_for_sync q i)
  call q (ask i) = (q, place_answer (get_queue_position q i))
  call q (ask_active i) = (q, success (is_active q i))
  call q ask_size = (q, amount (get_queue_size q))
  call q ask_active_count = (q, amount (get_active_count q))
  call q ask_available = (q, slots_left (get_available_slots q))
  call q ask_stats = (q, counted (get_stats q))

  -- The queue after a sequence of calls, and the answers.
  abbrev pub run : DownloadQueue → List Call → DownloadQueue × List Reply
  run q [] = (q, [])
  run q (c ∷ cs) = let r = call q c in let s = run r.0 cs in (s.0, r.1 ∷ s.1)

  -- The queue shows the line.
  pub record Shows (q : DownloadQueue) (s : Line) : Type 0 where
    pub valid : IsValid h q
    pub same : SameEntries q.queue s.waiting
    pub running : q.active_jobs ≡ s.running
    pub free : q.semaphore ≡ s.free
    pub limit : q.max_concurrent ≡ s.limit
    pub room : q.max_queue_size ≡ s.room

  -- What one call of the queue may come to.
  unfoldable pub Served : Line → Call → DownloadQueue × Reply → Type 0
  Served s c r = (t : Line) × Serves s c r.1 t × Shows r.0 t
