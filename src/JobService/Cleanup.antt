-- ===== src/JobService/Cleanup.antt =====
-- `cleanup_expired_jobs` of app/services/job_service.py removes exactly the jobs whose time to
-- live is over, and tells the callback of each.
use yt_dlp_api.Prelude.{
  ◌||◌, count, ℕ, ◌+◌, String, ◌≡◌, refl, ap, ◌∙◌, Bool, true, false, Option, none, some, List, [],
  ◌∷◌, arith, if◌then◌else◌, is_some, str_eq, eq_iff, eq_refl, Option-cases, Bool-cases, inl, inr,
  length, member,
}
use yt_dlp_api.Prelude.Dict.{Dict, lookup, erase, keys, values, IsDict, member-keys, erase_absent}
use yt_dlp_api.Job.{Job, JobStatus, status_eq, pending, processing, retrying, is_terminal_status}
use yt_dlp_api.JobService.{
  JobService, get_job, get_job_count, cleanup_expired_jobs, remove_expired, expired_ids, is_expired,
  is_active, get_active_job_count, call_back,
}

-- The entries that a cleanup keeps.
abbrev pub kept : (Job → Bool) → Dict Job → Dict Job
kept expired [] = []
kept expired ((job_id, job) ∷ d) =
    let rest = kept expired d in if expired job then rest else (job_id, job) ∷ rest

-- The callback on each id, oldest entry first.
abbrev pub notify : {S : Type 0} → Option (String → S → S) → List String → S → S
notify callback [] out = out
notify callback (i ∷ ids) out = notify callback ids (call_back callback i out)

module _ (expired : Job → Bool) where
  expired_ids_in :
      (i : String) (d : Dict Job)
      → member i (expired_ids expired d) ≡ true
      → member i (keys d) ≡ true
  unfolding expired_ids
  expired_ids_in i [] h = h
  expired_ids_in i ((j, job) ∷ d) h = ground (arith, expired_ids_in i d)

  not_expired_id :
      (i : String) (d : Dict Job)
      → member i (keys d) ≡ false
      → member i (expired_ids expired d) ≡ false
  not_expired_id i d h = ground (arith, expired_ids_in i d)

  other_key : (i j : String) (ids : List String) → member j (i ∷ ids) ≡ false → str_eq j i ≡ false
  other_key i j ids h = ground (arith, eq_iff j i, eq_iff i j)

  not_later : (i j : String) (ids : List String) → member j (i ∷ ids) ≡ false → member j ids ≡ false
  not_later i j ids h = ground arith

  -- An entry whose key is not among the ids stays in front.
  remove_expired_skip :
      {S : Type 0} (callback : Option (String → S → S)) (ids : List String) (j : String) (job : Job)
      (d : Dict Job) (out : S)
      → member j ids ≡ false
      → (remove_expired callback ids ((j, job) ∷ d, out)).0
        ≡ (j, job) ∷ (remove_expired callback ids (d, out)).0
  unfolding remove_expired
  remove_expired_skip callback [] j job d out h = refl
  remove_expired_skip callback (i ∷ ids) j job d out h =
      rw (other_key i j ids h, remove_expired)
        (remove_expired_skip callback ids j job (erase i d) (call_back callback i out)
          (not_later i j ids h))

  -- The loop leaves the entries that are not expired, in their order.
  remove_expired-kept :
      {S : Type 0} (callback : Option (String → S → S)) (d : Dict Job) (out : S)
      → IsDict d
      → (remove_expired callback (expired_ids expired d) (d, out)).0 ≡ kept expired d
  unfolding remove_expired expired_ids
  remove_expired-kept callback [] out k = refl
  remove_expired-kept callback ((j, job) ∷ d) out k = elim (Bool-cases (expired job)) [
    | inl e ↦ rw e (
        rw (eq_refl j, remove_expired)
          (rw (erase_absent j d k.0)
            (remove_expired-kept callback d (call_back callback j out) k.1)))
    | inr e ↦ rw e (
        remove_expired_skip callback (expired_ids expired d) j job d out (not_expired_id j d k.0)
        ∙ ap (λ t. (j, job) ∷ t) (remove_expired-kept callback d out k.1))
  ]

  remove_expired_notifies :
      {S : Type 0} (callback : Option (String → S → S)) (ids : List String) (d : Dict Job) (out : S)
      → (remove_expired callback ids (d, out)).1 ≡ notify callback ids out
  unfolding remove_expired
  remove_expired_notifies callback [] d out = refl
  remove_expired_notifies callback (i ∷ ids) d out =
      remove_expired_notifies callback ids (erase i d) (call_back callback i out)

  member-kept-keys :
      (i : String) (d : Dict Job) → member i (keys d) ≡ false → lookup i (kept expired d) ≡ none
  member-kept-keys i [] h = refl
  member-kept-keys i ((j, job) ∷ d) h = ground (arith, member-kept-keys i d)

  lookup-kept :
      (i : String) (d : Dict Job) (job : Job)
      → IsDict d
      → lookup i d ≡ some job
      → lookup i (kept expired d) ≡ (if expired job then none else some job)
  lookup-kept i [] job k h = cc
  lookup-kept i ((j, w) ∷ d) job k h =
      ground (arith, eq_iff j i, lookup-kept i d job k.1, member-kept-keys i d)

  length-kept : (d : Dict Job) → length (kept expired d) + length (expired_ids expired d) ≡ length d
  unfolding expired_ids
  length-kept [] = omega arith
  length-kept ((j, job) ∷ d) = ground (arith, length-kept d)

-- What `get_job` gives after a cleanup, by what it gave before.
abbrev pub unless_expired : (Job → Bool) → Option Job → Option Job
unless_expired expired none = none
unless_expired expired (some job) = if expired job then none else some job

lookup-kept_cases :
    (expired : Job → Bool) (i : String) (d : Dict Job)
    → IsDict d
    → lookup i (kept expired d) ≡ unless_expired expired (lookup i d)
lookup-kept_cases expired i d k = elim (Option-cases (lookup i d)) [
  | inl e ↦ rw e (member-kept-keys expired i d (member-keys i d ∙ ap is_some e))
  | inr (job, e) ↦ rw e (lookup-kept expired i d job k e)
]

-- A cleanup removes exactly the completed and failed jobs whose time of completion lies more than
-- the time to live before now; every other job stays as it was, and in its place. The number that it
-- returns and the jobs that are left add up to the jobs before, and the callback has run once for
-- each removed job, in the order of the table.
pub cleanup_exact :
    {S : Type 0} (s : JobService) (callback : Option (String → S → S)) (now : ℕ) (out : S)
    → IsDict s.jobs
    → let after = cleanup_expired_jobs s callback now out in
      ((i : String) → get_job after.0 i ≡ unless_expired (is_expired s now) (get_job s i))
      × (after.0.jobs ≡ kept (is_expired s now) s.jobs)
      × (after.1 ≡ notify callback (expired_ids (is_expired s now) s.jobs) out)
      × (after.2 + get_job_count after.0 ≡ get_job_count s)
unfolding cleanup_expired_jobs get_job get_job_count
cleanup_exact s callback now out k =
    let expired = is_expired s now in
    let left = remove_expired-kept expired callback s.jobs out k in
    (
      λ i. ap (lookup i) left ∙ lookup-kept_cases expired i s.jobs k,
      left,
      remove_expired_notifies expired callback (expired_ids expired s.jobs) s.jobs out,
      omega (arith, ap length left, length-kept expired s.jobs),
    )

active_not_terminal :
    (t : JobStatus)
    → is_terminal_status t ≡ true
    → (status_eq t pending || (status_eq t processing || status_eq t retrying)) ≡ false
active_not_terminal t h = ground arith

active_kept :
    (s : JobService) (now : ℕ) (d : Dict Job)
    → count is_active (values (kept (is_expired s now) d)) ≡ count is_active (values d)
unfolding is_expired
active_kept s now [] = refl
active_kept s now ((j, job) ∷ d) =
    ground (arith, active_kept s now d, active_not_terminal job.status)

-- A cleanup does not change the number of active jobs: no pending, processing or retrying job is
-- removed, whatever its age.
cleanup_keeps_active :
    {S : Type 0} (s : JobService) (callback : Option (String → S → S)) (now : ℕ) (out : S)
    → IsDict s.jobs
    → get_active_job_count (cleanup_expired_jobs s callback now out).0 ≡ get_active_job_count s
unfolding get_active_job_count
cleanup_keeps_active s callback now out k =
    ap (λ d. count is_active (values d)) (cleanup_exact s callback now out k).1
    ∙ active_kept s now s.jobs
