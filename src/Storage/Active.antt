-- ===== src/Storage/Active.antt =====
-- Which files are protected (app/services/storage.py): those registered to a job and not
-- unregistered since.
use yt_dlp_api.Prelude.{
  ℕ, ◌≤◌, String, ◌≡◌, refl, ◌↔◌, inl, inr, true, false, ◌&&◌, ◌||◌, List, [], ◌∷◌, arith,
  if◌then◌else◌, str_eq, eq_iff, member, add_member, Bool-cases, member-add_member,
}
use yt_dlp_api.Prelude.Dict.{Dict, values, keys, IsDict, lookup-insert, lookup-erase, member-keys}
use yt_dlp_api.Prelude.Int.{pos, negsuc}
use yt_dlp_api.Storage.{
  StorageManager, in_any, files_of, register_active_job, unregister_active_job, is_file_active,
  validate_file_size,
}

-- A key that comes later in a dictionary is another one.
later_key :
    (p i k : String) (files : List String) (d : Dict (List String))
    → member k (keys d) ≡ false
    → member p (files_of i d) ≡ true
    → member p (files_of i ((k, files) ∷ d)) ≡ true
later_key p i k files d u m = ground (arith, eq_iff k i, member-keys k d)

held_here :
    (p : String) (d : Dict (List String))
    → IsDict d
    → in_any p (values d) ≡ true
    → (k : String) × (member p (files_of k d) ≡ true)
held_here p [] u h = cc
held_here p ((k, files) ∷ d) u h = elim (Bool-cases (member p files)) [
  | inl e ↦ (k, ground (arith, eq_iff k k))
  | inr e ↦ let (i, m) = held_here p d u.1 (rw e at h) in (i, later_key p i k files d u.0 m)
]

held_active :
    (p k : String) (d : Dict (List String))
    → member p (files_of k d) ≡ true
    → in_any p (values d) ≡ true
held_active p k [] h = h
held_active p k ((j, files) ∷ d) h = ground (arith, held_active p k d)

module _ (resolve : String → String) where
  -- A file is active exactly if some job holds its resolved path.
  active_iff_held :
      (s : StorageManager) (filepath : String)
      → IsDict s.active_jobs
      → (is_file_active resolve s filepath ≡ true)
        ↔ ((job_id : String) × (member (resolve filepath) (files_of job_id s.active_jobs) ≡ true))
  unfolding is_file_active
  active_iff_held s filepath u = (
    held_here (resolve filepath) s.active_jobs u,
    λ (k, m). held_active (resolve filepath) k s.active_jobs m,
  )

  pub registered_active :
      (s : StorageManager) (job_id filepath : String)
      → is_file_active resolve (register_active_job resolve s job_id filepath) filepath ≡ true
  unfolding is_file_active register_active_job
  registered_active s job_id filepath =
      held_active (resolve filepath) job_id
        (register_active_job resolve s job_id filepath).active_jobs
        (ground (
          arith,
          lookup-insert job_id job_id
              (add_member (resolve filepath) (files_of job_id s.active_jobs)) s.active_jobs,
          member-add_member (resolve filepath) (resolve filepath) (files_of job_id s.active_jobs),
          eq_iff job_id job_id,
          eq_iff (resolve filepath) (resolve filepath),
        ))

  -- Registering a file adds its resolved path to the files of its job, and takes nothing from any
  -- job; unregistering a job empties its files and leaves those of every other job.
  register_then_unregister :
      (s : StorageManager) (job_id filepath k p : String)
      → (member p (files_of k (register_active_job resolve s job_id filepath).active_jobs) ≡ (
          (str_eq job_id k && str_eq (resolve filepath) p) || member p (files_of k s.active_jobs)))
        × (files_of k (unregister_active_job s job_id).active_jobs
            ≡ (if str_eq job_id k then [] else files_of k s.active_jobs))
  unfolding register_active_job unregister_active_job
  register_then_unregister s job_id filepath k p = (
    ground (
      arith,
      lookup-insert job_id k (add_member (resolve filepath) (files_of job_id s.active_jobs))
          s.active_jobs,
      member-add_member (resolve filepath) p (files_of job_id s.active_jobs),
      eq_iff job_id k,
    ),
    ground (arith, lookup-erase job_id k s.active_jobs, eq_iff job_id k),
  )

-- A size that is unknown (zero or negative) is accepted, and a positive one exactly up to the
-- limit.
validate_file_size_limit :
    (s : StorageManager) (n : ℕ)
    → (validate_file_size s (negsuc n) ≡ true)
      × (validate_file_size s (pos 0) ≡ true)
      × ((validate_file_size s (pos n) ≡ true) ↔ (n ≤ s.max_file_size))
unfolding validate_file_size
validate_file_size_limit s n = (ground arith, refl, (ground arith, ground arith))
