-- ===== src/Storage.antt =====
-- app/services/storage.py: the files that jobs protect, and the cleanup of the output directory.
-- Times and ages are microseconds, sizes bytes, disk usage hundredths of a percent. `resolve`
-- is `Path.resolve` of the file system.
pub mod Active
pub mod Cleanup
mod Tests
use text.Mathlib.Text.{starts_with}
use yt_dlp_api.Prelude.{
  ℕ, suc, ◌+◌, ◌*◌, String, Bool, true, false, ◌||◌, not, Option, none, some, List, [], ◌∷◌, ltb,
  leb, if◌then◌else◌, length, member, add_member,
}
use yt_dlp_api.Prelude.Dict.{Dict, lookup, contains, insert, erase, values}
use yt_dlp_api.Prelude.Int.{ℤ, pos, leb_ℤ}

pub record StorageManager : Type 0 where
  pub cleanup_age_hours : ℕ
  pub cleanup_threshold : ℕ
  pub max_file_size : ℕ
  pub active_jobs : Dict (List String)

pub record CleanupResult : Type 0 where
  pub files_deleted : ℕ
  pub bytes_reclaimed : ℕ
  pub files_preserved : ℕ
  pub dry_run : Bool

-- What `stat` tells of a file.
pub record FileStat : Type 0 where
  pub st_mtime : ℕ
  pub st_size : ℕ

-- An entry of the output directory: its path and name, what the file system answers about it
-- (`none` is an OSError), and whether `unlink` succeeds.
pub record Entry : Type 0 where
  pub path : String
  pub name : String
  pub is_dir : Bool
  pub stat : Option FileStat
  pub can_unlink : Bool

-- `any(abs_path in files for files in self._active_jobs.values())`
abbrev pub in_any : String → List (List String) → Bool
in_any p [] = false
in_any p (files ∷ rest) = member p files || in_any p rest

-- The set of a job, empty if it has none yet.
abbrev pub files_of : String → Dict (List String) → List String
files_of job_id d = elim (lookup job_id d) [ none ↦ [] | some files ↦ files ]

unfoldable pub unregister_active_job : StorageManager → String → StorageManager
unregister_active_job s job_id =
    if contains job_id s.active_jobs
    then record s { active_jobs = erase job_id s.active_jobs }
    else s

unfoldable pub get_active_job_count : StorageManager → ℕ
get_active_job_count s = length s.active_jobs

unfoldable pub validate_file_size : StorageManager → ℤ → Bool
validate_file_size s estimated_size =
    if leb_ℤ estimated_size (pos 0) then true else leb_ℤ estimated_size (pos s.max_file_size)

-- `usage` is the rounded percentage of the disk that is used, or a StorageError.
unfoldable pub should_cleanup : StorageManager → Option ℕ → Bool
should_cleanup s usage = elim usage [
  | none ↦ false
  | some percent_used ↦ leb (s.cleanup_threshold * 100) percent_used
]

-- The age limit in microseconds.
abbrev pub max_age : StorageManager → ℕ
max_age s = s.cleanup_age_hours * 3600000000

-- Where the loop body of `cleanup_old_files` ends for an entry.
pub data Verdict : Type 0 where
  skipped preserved failed : Verdict
  deleted : ℕ → Verdict

-- The counters after an entry.
abbrev pub counted : Verdict → CleanupResult → CleanupResult
counted skipped r = r
counted failed r = r
counted preserved r = record r { files_preserved = suc r.files_preserved }
counted (deleted size) r = record r {
  files_deleted = suc r.files_deleted;
  bytes_reclaimed = r.bytes_reclaimed + size;
}

-- The entry is gone exactly if it was deleted, and not in a dry run.
abbrev pub stays : Bool → Verdict → Bool
stays dry_run (deleted size) = dry_run
stays dry_run v = true

module _ (resolve : String → String) where
  unfoldable pub register_active_job : StorageManager → String → String → StorageManager
  register_active_job s job_id filepath = record s {
    active_jobs =
        insert job_id (add_member (resolve filepath) (files_of job_id s.active_jobs)) s.active_jobs;
  }

  unfoldable pub is_file_active : StorageManager → String → Bool
  is_file_active s filepath = in_any (resolve filepath) (values s.active_jobs)

  unfoldable pub judge_stat : StorageManager → ℕ → Bool → Entry → Option FileStat → Verdict
  unfolding is_file_active
  judge_stat s current_time dry_run f none = failed
  judge_stat s current_time dry_run f (some st) =
      if ltb current_time (st.st_mtime + max_age s)
      then skipped
      else if is_file_active s f.path
      then preserved
      else if not dry_run
      then (if f.can_unlink then deleted st.st_size else failed)
      else deleted st.st_size

  unfoldable pub judge : StorageManager → ℕ → Bool → Entry → Verdict
  unfolding judge_stat
  judge s current_time dry_run f =
      if f.is_dir || starts_with f.name "."
      then skipped
      else judge_stat s current_time dry_run f f.stat

  -- The loop: the counters and the entries that are left.
  unfoldable pub cleanup_loop :
      StorageManager → ℕ → Bool → List Entry → CleanupResult → CleanupResult × List Entry
  unfolding judge
  cleanup_loop s now dry_run [] r = (r, [])
  cleanup_loop s now dry_run (f ∷ fs) r =
      let v = judge s now dry_run f in
      let (r', rest) = cleanup_loop s now dry_run fs (counted v r) in
      (r', if stays dry_run v then f ∷ rest else rest)

  -- `none` for the entries: the directory cannot be read.
  unfoldable pub cleanup_old_files :
      StorageManager → ℕ → Bool → Option (List Entry) → CleanupResult × List Entry
  unfolding cleanup_loop
  cleanup_old_files s now dry_run entries =
      let start : CleanupResult = record {
        files_deleted = 0;
        bytes_reclaimed = 0;
        files_preserved = 0;
        dry_run = dry_run;
      } in
      elim entries [ none ↦ (start, []) | some fs ↦ cleanup_loop s now dry_run fs start ]

  -- One cycle of `cleanup_scheduler`.
  unfoldable pub scheduled_cleanup :
      StorageManager → ℕ → Option ℕ → List Entry → Option CleanupResult × List Entry
  unfolding should_cleanup cleanup_old_files
  scheduled_cleanup s now usage entries =
      if should_cleanup s usage
      then (let (r, left) = cleanup_old_files s now false (some entries) in (some r, left))
      else (none, entries)
