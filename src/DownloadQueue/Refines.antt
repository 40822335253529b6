-- ===== src/DownloadQueue/Refines.antt =====
-- app/services/download_queue.py keeps the promises of DownloadQueue/Abstract.antt: every run of
-- calls on a new queue is a run of the abstract line.
use yt_dlp_api.Prelude.{
  ◌&&◌, ℕ, suc, ◌-◌, String, ◌≡◌, refl, sym, ap, ◌∙◌, Bool, true, not, inl, inr, none, some, List,
  [], ◌∷◌, arith, ◌==◌, count, filter, Bool-cases, Option-cases, discard, add_member, member,
}
use yt_dlp_api.DownloadQueue.Job.{QueuedJob, has_id}
use yt_dlp_api.DownloadQueue.Heap.{Heapq, SameEntries}
use yt_dlp_api.DownloadQueue.{
  DownloadQueue, is_full, new_queue, release_slot, acquire_slot_for_sync, get_queue_position,
  get_stats, get_available_slots, get_queue_size, get_active_count, is_active,
}
use yt_dlp_api.DownloadQueue.Invariant.{new_queue-IsValid, position_none}
use yt_dlp_api.DownloadQueue.Enqueue.{
  Enqueues, refuses, repeats, enters, enqueue_total, length_same,
}
use yt_dlp_api.DownloadQueue.Dequeue.{
  Dequeues, no_slot, no_job, gives, dequeue_total, release_slot-IsValid, acquire_slot-IsValid,
}
use yt_dlp_api.DownloadQueue.Remove.{Removes, keeps_active, keeps_absent, removes, remove_job_total}
use yt_dlp_api.DownloadQueue.Abstract
use yt_dlp_api.DownloadQueue.Abstract.{
  Line, Call, Reply, Serves, Runs, IsPlace, is_crowded, ends, calls, enter, take_next, withdraw,
  give_back, take_slot, ask, ask_active, ask_size, ask_active_count, ask_available, ask_stats,
  counted, full, nowhere, nobody, slot_back, failure, at_place, given, success,
}
use yt_dlp_api.DownloadQueue.Places.{IsPlace-same, get_queue_position-IsPlace}
use yt_dlp_api.DownloadQueue.Calls.{new_line, call, run, Shows, Served}

no_entries : (js : List QueuedJob) → SameEntries [] js → js ≡ []
no_entries [] same = refl
no_entries (j ∷ js) same = absurd (omega (arith, same (λ _. true)))

both : (QueuedJob → Bool) → (QueuedJob → Bool) → QueuedJob → Bool
both p r j = p j && r j

count-filter :
    (p r : QueuedJob → Bool) (js : List QueuedJob) → count r (filter p js) ≡ count (both p r) js
unfolding both
count-filter p r [] = refl
count-filter p r (j ∷ js) = ground (arith, count-filter p r js)

filter_same :
    (p r : QueuedJob → Bool) (xs ys : List QueuedJob)
    → SameEntries xs ys
    → count r (filter p xs) ≡ count r (filter p ys)
filter_same p r xs ys same = count-filter p r xs ∙ same (both p r) ∙ sym (count-filter p r ys)

module _ (h : Heapq) where
  Shows-crowded : (q : DownloadQueue) (s : Line) → Shows h q s → is_full q ≡ is_crowded s
  Shows-crowded q s v = rw v.room (rw (length_same h q.queue s.waiting v.same) refl)

  IsPlace-of :
      (q : DownloadQueue) (s : Line) (i : String) (p : ℕ)
      → Shows h q s
      → get_queue_position q i ≡ some p
      → IsPlace i p s.waiting
  IsPlace-of q s i p v e =
      IsPlace-same i p q.queue s.waiting v.same (get_queue_position-IsPlace h q i p v.valid e)

  no_place_of :
      (q : DownloadQueue) (s : Line) (i : String)
      → Shows h q s
      → get_queue_position q i ≡ none
      → count (has_id i) s.waiting ≡ 0
  no_place_of q s i v e = sym (v.same (has_id i)) ∙ position_none h q i v.valid e

  enqueue-Served :
      (q : DownloadQueue) (s : Line) (now : ℕ) (i : String) (priority : ℕ)
      → Shows h q s
      → Served h s (enter now i priority) (call h q (enter now i priority))
  unfolding Served
  enqueue-Served q s now i priority v = served (enqueue_total h q now i priority v.valid)
    where
      served :
          Enqueues h q now i priority
          → Served h s (enter now i priority) (call h q (enter now i priority))
      served (refuses f e) =
          rw e (s, Abstract.refuses now i priority (sym (Shows-crowded q s v) ∙ f), v)
      served (repeats p f g e) = rw e (
        s,
        Abstract.keeps_place now i priority p (sym (Shows-crowded q s v) ∙ f)
            (IsPlace-of q s i p v g),
        v,
      )
      served (enters q' p f g e v' k a b same l m act sem lim) =
          let js : List QueuedJob =
            record { priority = priority; enqueue_time = now; job_id = i } ∷ s.waiting in
          let shown : SameEntries q'.queue js = λ r. ground (arith, same r, v.same r) in
          rw e (
            record s { waiting = js },
            Abstract.joins now i priority p js (sym (Shows-crowded q s v) ∙ f)
                (no_place_of q s i v g) refl
                (IsPlace-same i p q'.queue js shown (get_queue_position-IsPlace h q' i p v' k)),
            record {
              valid = v';
              same = shown;
              running = act ∙ v.running;
              free = sem ∙ v.free;
              limit = lim.0 ∙ v.limit;
              room = lim.1 ∙ v.room;
            },
          )

  dequeue-Served :
      (q : DownloadQueue) (s : Line) → Shows h q s → Served h s take_next (call h q take_next)
  unfolding Served
  dequeue-Served q s v = served (dequeue_total h q v.valid)
    where
      served : Dequeues h q → Served h s take_next (call h q take_next)
      served (no_slot z e) = rw e (s, Abstract.no_slot (sym v.free ∙ z), v)
      served (no_job z y e) =
          let none_waits : s.waiting ≡ [] = no_entries s.waiting (rw y at v.same) in
          rw e (s, Abstract.no_job none_waits, v)
      served (gives q' x z e v' same least sem act lim gau) = rw e (
        record s { waiting = q'.queue; running = add_member x.job_id s.running; free = s.free - 1 },
        Abstract.takes x q'.queue (s.free - 1) (omega (arith, v.free))
            (λ r. sym (v.same r) ∙ same r) least,
        record {
          valid = v';
          same = λ r. refl;
          running = act ∙ ap (add_member x.job_id) v.running;
          free = omega (arith, v.free);
          limit = lim.0 ∙ v.limit;
          room = lim.1 ∙ v.room;
        },
      )

  remove_job-Served :
      (q : DownloadQueue) (s : Line) (i : String)
      → Shows h q s
      → Served h s (withdraw i) (call h q (withdraw i))
  unfolding Served is_active
  remove_job-Served q s i v = served (remove_job_total h q i v.valid)
    where
      served : Removes h q i → Served h s (withdraw i) (call h q (withdraw i))
      served (keeps_active a e) =
          rw e (s, Abstract.stays_running i (ap (member i) (sym v.running) ∙ a), v)
      served (keeps_absent a c e) = rw e (s, Abstract.unknown i (sym (v.same (has_id i)) ∙ c), v)
      served (removes q' a c e v' g same act sem gau lim) =
          let kept = filter (λ j. not (has_id i j)) s.waiting in
          rw e (
            record s { waiting = kept },
            Abstract.withdraws i (ap (member i) (sym v.running) ∙ a)
                (omega (arith, v.same (has_id i))),
            record {
              valid = v';
              same = λ r. same r ∙ filter_same (λ j. not (has_id i j)) r q.queue s.waiting v.same;
              running = act ∙ v.running;
              free = sem ∙ v.free;
              limit = lim.0 ∙ v.limit;
              room = lim.1 ∙ v.room;
            },
          )

  release_slot-Served :
      (q : DownloadQueue) (s : Line) (i : String)
      → Shows h q s
      → Served h s (give_back i) (call h q (give_back i))
  unfolding Served release_slot
  release_slot-Served q s i v = (
    record s { running = discard i s.running; free = suc s.free },
    Abstract.gives_back i,
    record {
      valid = release_slot-IsValid h q i v.valid;
      same = v.same;
      running = ap (discard i) v.running;
      free = ap suc v.free;
      limit = v.limit;
      room = v.room;
    },
  )

  acquire_slot-Served :
      (q : DownloadQueue) (s : Line) (i : String)
      → Shows h q s
      → Served h s (take_slot i) (call h q (take_slot i))
  unfolding Served acquire_slot_for_sync
  acquire_slot-Served q s i v =
      let v' = acquire_slot-IsValid h q i v.valid in
      elim (Bool-cases (q.semaphore == 0)) [
        | inl e ↦ rw e (s, Abstract.none_free i (ground (arith, v.free)), v)
        | inr e ↦ rw e (
          record s { running = add_member i s.running; free = s.free - 1 },
          Abstract.takes_slot i (s.free - 1) (ground (arith, v.free)),
          record {
            valid = rw (e, acquire_slot_for_sync) at v';
            same = v.same;
            running = ap (add_member i) v.running;
            free = ap (λ n. n - 1) v.free;
            limit = v.limit;
            room = v.room;
          },
        )
      ]

  ask-Served :
      (q : DownloadQueue) (s : Line) (i : String)
      → Shows h q s
      → Served h s (ask i) (call h q (ask i))
  unfolding Served
  ask-Served q s i v = elim (Option-cases (get_queue_position q i)) [
    | inl e ↦ rw e (s, Abstract.no_place i (no_place_of q s i v e), v)
    | inr (p, e) ↦ rw e (s, Abstract.tells i p (IsPlace-of q s i p v e), v)
  ]

  stats-Served :
      (q : DownloadQueue) (s : Line) → Shows h q s → Served h s ask_stats (call h q ask_stats)
  unfolding Served get_stats get_available_slots
  stats-Served q s v =
      (s, rw (v.limit, v.running, length_same h q.queue s.waiting v.same) Abstract.tells_stats, v)

  active-Served :
      (q : DownloadQueue) (s : Line) (i : String)
      → Shows h q s
      → Served h s (ask_active i) (call h q (ask_active i))
  unfolding Served is_active
  active-Served q s i v = (s, rw v.running (Abstract.tells_active i), v)

  size-Served :
      (q : DownloadQueue) (s : Line) → Shows h q s → Served h s ask_size (call h q ask_size)
  unfolding Served get_queue_size
  size-Served q s v = (s, rw (length_same h q.queue s.waiting v.same) Abstract.tells_size, v)

  active_count-Served :
      (q : DownloadQueue) (s : Line)
      → Shows h q s
      → Served h s ask_active_count (call h q ask_active_count)
  unfolding Served get_active_count
  active_count-Served q s v = (s, rw v.running Abstract.tells_active_count, v)

  available-Served :
      (q : DownloadQueue) (s : Line)
      → Shows h q s
      → Served h s ask_available (call h q ask_available)
  unfolding Served get_available_slots
  available-Served q s v = (s, rw (v.limit, v.running) Abstract.tells_available, v)

  -- Each call of the queue is a call of the line that it shows.
  call-Served : (q : DownloadQueue) (s : Line) (c : Call) → Shows h q s → Served h s c (call h q c)
  call-Served q s (enter now i priority) v = enqueue-Served q s now i priority v
  call-Served q s take_next v = dequeue-Served q s v
  call-Served q s (withdraw i) v = remove_job-Served q s i v
  call-Served q s (give_back i) v = release_slot-Served q s i v
  call-Served q s (take_slot i) v = acquire_slot-Served q s i v
  call-Served q s (ask i) v = ask-Served q s i v
  call-Served q s (ask_active i) v = active-Served q s i v
  call-Served q s ask_size v = size-Served q s v
  call-Served q s ask_active_count v = active_count-Served q s v
  call-Served q s ask_available v = available-Served q s v
  call-Served q s ask_stats v = stats-Served q s v

  run_from :
      (q : DownloadQueue) (s : Line) (cs : List Call)
      → Shows h q s
      → (t : Line) × Runs s cs (run h q cs).1 t × Shows h (run h q cs).0 t
  unfolding Served
  run_from q s [] v = (s, ends s, v)
  run_from q s (c ∷ cs) v =
      let (t, served, w) = call-Served q s c v in
      let r = call h q c in
      let (u, runs, x) = run_from r.0 t cs w in
      (u, calls s c r.1 t cs (run h r.0 cs).1 u served runs, x)

  new_queue-Shows : (n m : ℕ) → Shows h (new_queue n m) (new_line n m)
  new_queue-Shows n m = record {
    valid = new_queue-IsValid h n m;
    same = λ r. refl;
    running = refl;
    free = refl;
    limit = refl;
    room = refl;
  }

  -- Whatever calls are made on a new queue, of every public method and in whatever order (a slot for
  -- a synchronous download is asked for without a timeout), its answers are those of the abstract
  -- line, and the queue shows the line at the end: a job is given only while a slot is free, and none
  -- that waits has to go before it; a place that is told is one that the order allows; a full line
  -- refuses; and a job leaves the line only when it is given or withdrawn. No call fails.
  pub run_refines :
      (max_concurrent max_queue_size : ℕ) (cs : List Call)
      → (t : Line) × Runs
          (new_line max_concurrent max_queue_size)
          cs
          (run h (new_queue max_concurrent max_queue_size) cs).1
          t
        × Shows h (run h (new_queue max_concurrent max_queue_size) cs).0 t
  run_refines max_concurrent max_queue_size cs =
      run_from (new_queue max_concurrent max_queue_size) (new_line max_concurrent max_queue_size) cs
        (new_queue-Shows max_concurrent max_queue_size)
