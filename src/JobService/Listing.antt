-- ===== src/JobService/Listing.antt =====
-- `list_jobs` and the counts of app/services/job_service.py.
use mathlib.Core.List.{Perm}
use yt_dlp_api.Prelude.{
  ℕ, zero, suc, ◌+◌, ◌≤◌, min, ◌≡◌, refl, ap, Bool, true, Option, List, [], ◌∷◌, arith, length,
  take, filter, count, All, length-take, length-filter, Bool-cases, inl, inr, ◌⊎◌,
}
use yt_dlp_api.Prelude.Dict.{Dict, values}
use yt_dlp_api.Prelude.Sort.{sort, IsOrdered, sort-IsOrdered, All-sort, length-sort, sort-perm}
use yt_dlp_api.Job.{Job, JobStatus, is_terminal}
use yt_dlp_api.JobService.{
  JobService, newer, matches, list_jobs, get_active_job_count, get_job_count, is_active,
}

All-take {ℓ κ} : {A : Type ℓ} (P : A → Type κ) (n : ℕ) (xs : List A) → All P xs → All P (take n xs)
All-take P zero xs h = tt
All-take P (suc n) [] h = tt
All-take P (suc n) (x ∷ xs) h = (h.0, All-take P n xs h.1)

IsOrdered-take {ℓ} :
    {A : Type ℓ} (le : A → A → Bool) (n : ℕ) (xs : List A)
    → IsOrdered le xs
    → IsOrdered le (take n xs)
IsOrdered-take le zero xs h = tt
IsOrdered-take le (suc n) [] h = tt
IsOrdered-take le (suc n) (x ∷ xs) h =
    (All-take (λ y. le x y ≡ true) n xs h.0, IsOrdered-take le n xs h.1)

All-filter {ℓ} : {A : Type ℓ} (p : A → Bool) (xs : List A) → All (λ x. p x ≡ true) (filter p xs)
All-filter p [] = tt
All-filter p (x ∷ xs) = elim (Bool-cases (p x)) [
  | inl e ↦ rw e (e, All-filter p xs)
  | inr e ↦ rw e (All-filter p xs)
]

newer_total : (a b : Job) → (newer a b ≡ true) ⊎ (newer b a ≡ true)
newer_total a b = ground arith

newer_trans : (a b c : Job) → newer a b ≡ true → newer b c ≡ true → newer a c ≡ true
newer_trans a b c h k = ground arith

-- The list is ordered from the newest job to the oldest, every job in it has the status that was
-- asked for, and its length is the number of such jobs in the table, cut at the limit.
pub list_jobs_sound :
    (s : JobService) (status : Option JobStatus) (limit : ℕ)
    → IsOrdered newer (list_jobs s status limit)
      × All (λ job. matches status job ≡ true) (list_jobs s status limit)
      × (length (list_jobs s status limit) ≡ min limit (count (matches status) (values s.jobs)))
unfolding list_jobs
list_jobs_sound s status limit =
    let found = filter (matches status) (values s.jobs) in
    (
      IsOrdered-take newer limit (sort newer found)
          (sort-IsOrdered newer newer_total newer_trans found),
      All-take (λ job. matches status job ≡ true) limit (sort newer found)
          (All-sort newer (λ job. matches status job ≡ true) found
            (All-filter (matches status) (values s.jobs))),
      omega (
        arith,
        length-take limit (sort newer found),
        length-sort newer found,
        length-filter (matches status) (values s.jobs),
      ),
    )

take_all {ℓ} : {A : Type ℓ} (n : ℕ) (xs : List A) → length xs ≤ n → take n xs ≡ xs
take_all zero [] h = refl
take_all zero (x ∷ xs) h = absurd (omega arith)
take_all (suc n) [] h = refl
take_all (suc n) (x ∷ xs) h = ap (λ t. x ∷ t) (take_all n xs (omega arith))

count-values_le : (p : Job → Bool) (d : Dict Job) → count p (values d) ≤ length d
count-values_le p [] = omega arith
count-values_le p ((j, job) ∷ d) = ground (arith, count-values_le p d)

-- A limit that is not below the number of jobs leaves none out: the list is a permutation of the
-- jobs that have the status.
pub list_jobs_complete :
    (s : JobService) (status : Option JobStatus) (limit : ℕ)
    → get_job_count s ≤ limit
    → Perm (list_jobs s status limit) (filter (matches status) (values s.jobs))
unfolding list_jobs get_job_count
list_jobs_complete s status limit h =
    let found = filter (matches status) (values s.jobs) in
    rw
      (take_all limit (sort newer found) (
        omega (
          arith,
          length-sort newer found,
          length-filter (matches status) (values s.jobs),
          count-values_le (matches status) s.jobs,
        )))
      (sort-perm newer found)

active_and_terminal_entries :
    (d : Dict Job) → count is_active (values d) + count is_terminal (values d) ≡ length d
active_and_terminal_entries [] = omega arith
active_and_terminal_entries ((j, job) ∷ d) = ground (arith, active_and_terminal_entries d)

-- Every job is counted as active or has a terminal status, and none both.
active_and_terminal :
    (s : JobService) → get_active_job_count s + count is_terminal (values s.jobs) ≡ get_job_count s
unfolding get_active_job_count get_job_count
active_and_terminal s = active_and_terminal_entries s.jobs
