-- ===== src/Worker/Sound.antt =====
-- The concurrency limit of the asynchronous service, over all its runs.
use yt_dlp_api.Prelude.{
  ℕ, ◌+◌, ◌≤◌, String, ◌≡◌, refl, ap, ◌∙◌, inl, inr, true, false, ◌&&◌, none, some, [], ◌∷◌, arith,
  ltb, if◌then◌else◌, length, member, discard, count, eq_iff, member-discard, Option-cases,
}
use yt_dlp_api.Prelude.Dict.{Dict}
use yt_dlp_api.Prelude.Result.{Result-cases}
use yt_dlp_api.Job.{Value}
use yt_dlp_api.JobService.{get_job, start_processing}
use yt_dlp_api.DownloadQueue.Heap.{Heapq}
use yt_dlp_api.DownloadQueue.Job.{has_id}
use yt_dlp_api.DownloadQueue.{DownloadQueue, release_slot, is_active, new_queue, get_active_count}
use yt_dlp_api.DownloadQueue.Invariant.{IsValid, new_queue-IsValid}
use yt_dlp_api.DownloadQueue.Dequeue.{
  Dequeues, no_slot, no_job, gives, dequeue_total, release_slot-IsValid,
}
use yt_dlp_api.DownloadQueue.Slots.{IsBalanced, release_active}
use yt_dlp_api.Worker.{
  System, Outcome, submit, poll, begin_job, finish_job, handle_outcome, finally_block, not_recorded,
}
use yt_dlp_api.Worker.Adds.{Adds, submit-Adds, outcome-Adds, Adds-refl}
use yt_dlp_api.Worker.Reach.{
  Running, IsFresh, Step, submits, idles, spawns, begins, finishes, cleans, Reach, here, next,
}

module _ (h : Heapq) (resolve : String → String) (n : ℕ) where
  -- The queue is valid, its active jobs are the tasks, slots and tasks make up the limit, and no job
  -- waits while a task works on it.
  pub record IsSound (a : Running) : Type 0 where
    pub valid : IsValid h a.sys.queue
    pub balanced : IsBalanced a.sys.queue
    pub limit : a.sys.queue.max_concurrent ≡ n
    pub held : a.sys.queue.active_jobs ≡ a.tasks
    pub apart :
        (i : String) → (member i a.tasks && ltb 0 (count (has_id i) a.sys.queue.queue)) ≡ false

  IsSound-init :
      (sys : System) (m : ℕ)
      → sys.queue ≡ new_queue n m
      → IsSound (record { sys = sys; tasks = [] })
  IsSound-init sys m e = record {
    valid = rw e (new_queue-IsValid h n m);
    balanced = rw e (omega arith);
    limit = rw e;
    held = rw e;
    apart = λ i. refl;
  }

  submit-IsSound :
      (a : Running) (now : ℕ) (job_id url : String) (params : Dict Value)
      → IsFresh a job_id
      → IsSound a
      → IsSound (record a { sys = (submit h resolve a.sys now job_id url params).0 })
  submit-IsSound a now job_id url params f v =
      let d = submit-Adds h resolve a.sys now job_id url params v.valid in
      record {
        valid = d.valid;
        balanced = ground (arith, d.same_slots, v.balanced);
        limit = ap (λ t. t.0) d.same_slots ∙ v.limit;
        held = ap (λ t. t.2) d.same_slots ∙ v.held;
        apart = λ i. ground (arith, d.others i, v.apart i, eq_iff job_id i, f.0);
      }

  poll_idle-IsSound :
      (a : Running)
      → (poll h resolve a.sys).1 ≡ none
      → IsSound a
      → IsSound (record a { sys = (poll h resolve a.sys).0 })
  unfolding poll
  poll_idle-IsSound a e v = idle (dequeue_total h a.sys.queue v.valid)
    where
      idle : Dequeues h a.sys.queue → IsSound (record a { sys = (poll h resolve a.sys).0 })
      idle (no_slot z g) = rw g v
      idle (no_job z y g) = rw g v
      idle (gives q' x p g v' same least s act m ga) = absurd (cc)

  spawn-IsSound :
      (a : Running) (job_id : String)
      → (poll h resolve a.sys).1 ≡ some job_id
      → IsSound a
      → IsSound (record { sys = (poll h resolve a.sys).0; tasks = job_id ∷ a.tasks })
  unfolding poll
  spawn-IsSound a job_id e v = spawn (dequeue_total h a.sys.queue v.valid)
    where
      spawn :
          Dequeues h a.sys.queue
          → IsSound (record { sys = (poll h resolve a.sys).0; tasks = job_id ∷ a.tasks })
      spawn (no_slot z g) = absurd (cc)
      spawn (no_job z y g) = absurd (cc)
      spawn (gives q' x p g v' same least s act m ga) =
          let this : x.job_id ≡ job_id = cc in
          let waited : 1 ≤ count (has_id job_id) a.sys.queue.queue =
            ground (arith, same (has_id job_id), eq_iff x.job_id job_id, this) in
          let idle : member job_id a.tasks ≡ false = ground (arith, v.apart job_id, waited) in
          let active : q'.active_jobs ≡ job_id ∷ a.tasks = act ∙ rw this (rw v.held (rw idle)) in
          rw g (record {
            valid = v';
            balanced = ground (arith, ap length active, ap length v.held, v.balanced);
            limit = m.0 ∙ v.limit;
            held = active;
            apart = λ i. ground (
              arith,
              same (has_id i),
              v.apart i,
              v.valid.single i,
              eq_iff job_id i,
              eq_iff x.job_id i,
              this,
            );
          })

  -- The released queue of a task, whatever its outcome queued.
  release-IsSound :
      (a : Running) (job_id : String) (q : DownloadQueue) (sys' : System)
      → IsSound a
      → member job_id a.tasks ≡ true
      → Adds h resolve job_id a.sys.queue q
      → sys'.queue ≡ release_slot q job_id
      → IsSound (record { sys = sys'; tasks = discard job_id a.tasks })
  unfolding is_active
  release-IsSound a job_id q sys' v m d e =
      let active : q.active_jobs ≡ a.tasks = ap (λ t. t.2) d.same_slots ∙ v.held in
      let before : IsBalanced q = ground (arith, d.same_slots, v.balanced) in
      record {
        valid = rw e (release_slot-IsValid h q job_id d.valid);
        balanced = rw e (release_active q job_id d.valid.apart (rw active m) before).0;
        limit = rw e (unfold release_slot in ap (λ t. t.0) d.same_slots ∙ v.limit);
        held = rw e (unfold release_slot in ap (discard job_id) active);
        apart = λ i. rw e (
            unfold release_slot in
            ground
              (arith, member-discard job_id i a.tasks, d.others i, v.apart i, eq_iff job_id i));
      }

  begin-IsSound :
      (a : Running) (now : ℕ) (job_id : String)
      → member job_id a.tasks ≡ true
      → IsSound a
      → IsSound (record {
        sys = (begin_job h resolve a.sys now job_id).0;
        tasks =
            if (begin_job h resolve a.sys now job_id).1 then a.tasks else discard job_id a.tasks;
      })
  unfolding begin_job finally_block
  begin-IsSound a now job_id m v = elim (Option-cases (get_job a.sys.jobs job_id)) [
    | inl e ↦
        rw (e, begin_job)
          (release-IsSound a job_id a.sys.queue
            (record a.sys { queue = release_slot a.sys.queue job_id }) v m
            (Adds-refl h resolve job_id a.sys.queue v.valid) refl)
    | inr (job, e) ↦ elim (Result-cases (start_processing a.sys.jobs now job_id)) [
      | inl ((jobs, job'), f) ↦
          rw (e, begin_job)
            (rw (f, begin_job)
              (record {
                valid = v.valid;
                balanced = v.balanced;
                limit = v.limit;
                held = v.held;
                apart = v.apart;
              }))
      | inr (x, f) ↦
          rw (e, begin_job)
            (rw (f, begin_job)
              (release-IsSound a job_id a.sys.queue (finally_block a.sys job_id not_recorded) v m
                (Adds-refl h resolve job_id a.sys.queue v.valid) refl))
    ]
  ]

  finish-IsSound :
      (a : Running) (now : ℕ) (job_id : String) (outcome : Outcome)
      → member job_id a.tasks ≡ true
      → IsSound a
      → IsSound (record {
        sys = finish_job h resolve a.sys now job_id outcome;
        tasks = discard job_id a.tasks;
      })
  unfolding finish_job
  finish-IsSound a now job_id outcome m v =
      release-IsSound a job_id (handle_outcome h resolve a.sys now job_id outcome).queue
        (finish_job h resolve a.sys now job_id outcome) v m
        (outcome-Adds h resolve a.sys now job_id outcome v.valid) refl

  -- Every step keeps the service sound: the queue valid, its active jobs exactly the tasks that hold
  -- a slot, free slots and tasks together the limit, and no job waiting while a task works on it.
  pub Step-IsSound : {a b : Running} → Step h resolve a b → IsSound a → IsSound b
  Step-IsSound {a} (submits now job_id url params f e) v =
      rw e (submit-IsSound a now job_id url params f v)
  Step-IsSound {a} (idles n e) v = rw e (poll_idle-IsSound a n v)
  Step-IsSound {a} (spawns job_id n e) v = rw e (spawn-IsSound a job_id n v)
  Step-IsSound {a} (begins now job_id m e) v = rw e (begin-IsSound a now job_id m v)
  Step-IsSound {a} (finishes now job_id outcome m e) v =
      rw e (finish-IsSound a now job_id outcome m v)
  Step-IsSound {a} (cleans now e) v = rw e (record {
    valid = v.valid;
    balanced = v.balanced;
    limit = v.limit;
    held = v.held;
    apart = v.apart;
  })

  Reach-IsSound : {a b : Running} → Reach h resolve a b → IsSound a → IsSound b
  Reach-IsSound here v = v
  Reach-IsSound (next r st) v = Step-IsSound st (Reach-IsSound r v)

  -- However requests, tasks and cleanups interleave, from a new queue on: the asynchronous service
  -- never works on more than the configured number of jobs at once, the active jobs of the queue are exactly
  -- its tasks, and the free slots are those that the tasks leave.
  pub concurrency_limit :
      (sys : System) (m : ℕ) (b : Running)
      → sys.queue ≡ new_queue n m
      → Reach h resolve (record { sys = sys; tasks = [] }) b
      → (b.sys.queue.active_jobs ≡ b.tasks)
        × (b.sys.queue.semaphore + length b.tasks ≡ n)
        × (get_active_count b.sys.queue ≤ n)
  unfolding get_active_count
  concurrency_limit sys m b e r =
      let v = Reach-IsSound r (IsSound-init sys m e) in
      (
        v.held,
        omega (arith, v.balanced, v.limit, ap length v.held),
        omega (arith, v.balanced, v.limit),
      )
