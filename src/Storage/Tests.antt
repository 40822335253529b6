-- ===== src/Storage/Tests.antt =====
-- Runs of app/services/storage.py on a small directory, and the theorems at such inputs.
use yt_dlp_api.Prelude.{ℕ, String, ◌≡◌, refl, true, false, not, some, List, [], ◌∷◌, count, filter}
use yt_dlp_api.Storage.{StorageManager, Entry, cleanup_old_files, scheduled_cleanup}
use yt_dlp_api.Storage.Cleanup.{deletable, is_protected, total_size, cleanup_old_files_exact}

abbrev same_path : String → String
same_path p = p

-- Files older than zero hours may go; "/d/b" belongs to a job.
abbrev keeper : StorageManager
keeper = record {
  cleanup_age_hours = 0;
  cleanup_threshold = 80;
  max_file_size = 1000;
  active_jobs = ("job", "/d/b" ∷ []) ∷ [];
}

abbrev file : String → String → ℕ → ℕ → Entry
file path name mtime size = record {
  path = path;
  name = name;
  is_dir = false;
  stat = some (record { st_mtime = mtime; st_size = size });
  can_unlink = true;
}

abbrev entries : List Entry
entries =
    file "/d/a" "a" 10 5 ∷ file "/d/b" "b" 10 6 ∷ file "/d/.c" ".c" 10 7 ∷ file "/d/e" "e" 99 8 ∷ []

cleaned_directory : cleanup_old_files same_path keeper 50 false (some entries) ≡ (
  record { files_deleted = 1; bytes_reclaimed = 5; files_preserved = 1; dry_run = false },
  file "/d/b" "b" 10 6 ∷ file "/d/.c" ".c" 10 7 ∷ file "/d/e" "e" 99 8 ∷ [],
)
unfolding cleanup_old_files
cleaned_directory = refl

below_threshold : (scheduled_cleanup same_path keeper 50 (some 7999) entries).1 ≡ entries
unfolding scheduled_cleanup
below_threshold = refl

cleanup_old_files_exact_example : cleanup_old_files same_path keeper 50 false (some entries) ≡ (
  record {
    files_deleted = count (deletable same_path keeper 50 false) entries;
    bytes_reclaimed = total_size (filter (deletable same_path keeper 50 false) entries);
    files_preserved = count (is_protected same_path keeper 50) entries;
    dry_run = false;
  },
  filter (λ f. not (deletable same_path keeper 50 false f)) entries,
)
cleanup_old_files_exact_example = cleanup_old_files_exact same_path keeper 50 entries
