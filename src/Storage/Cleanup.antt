-- ===== src/Storage/Cleanup.antt =====
-- `cleanup_old_files` of app/services/storage.py against what it may delete.
use text.Mathlib.Text.{starts_with}
use yt_dlp_api.Prelude.{
  ℕ, ◌+◌, String, ◌≡◌, refl, ap, ◌∙◌, Bool, true, false, ◌||◌, ◌&&◌, not, none, some, List, [], ◌∷◌,
  arith, if◌then◌else◌, leb, length, filter, count, length-filter, All,
}
use yt_dlp_api.Storage.{
  StorageManager, CleanupResult, Entry, Verdict, max_age, is_file_active, judge, counted, stays,
  cleanup_loop, cleanup_old_files,
}

-- The size of a file as far as `stat` tells it.
abbrev pub size_of : Entry → ℕ
size_of f = elim f.stat [ none ↦ 0 | some st ↦ st.st_size ]

abbrev pub total_size : List Entry → ℕ
total_size [] = 0
total_size (f ∷ fs) = size_of f + total_size fs

module _ (resolve : String → String) (s : StorageManager) (now : ℕ) where
  -- A visible file whose age has reached the limit.
  abbrev pub is_old : Entry → Bool
  is_old f =
      (not f.is_dir && not (starts_with f.name "."))
      && (elim f.stat [ none ↦ false | some st ↦ leb (st.st_mtime + max_age s) now ])

  abbrev pub is_protected : Entry → Bool
  is_protected f = is_old f && is_file_active resolve s f.path

  -- What a run deletes: an old file that no job holds, if the file system lets it.
  abbrev pub deletable : Bool → Entry → Bool
  deletable dry_run f =
      (is_old f && not (is_file_active resolve s f.path)) && (dry_run || f.can_unlink)

  abbrev Expected : Bool → Entry → Verdict → Type 0
  Expected dry_run f v =
      (stays dry_run v ≡ (dry_run || not (deletable dry_run f)))
      × ((r : CleanupResult)
          → counted v r ≡ record r {
            files_deleted = r.files_deleted + (if deletable dry_run f then 1 else 0);
            bytes_reclaimed = r.bytes_reclaimed + (if deletable dry_run f then size_of f else 0);
            files_preserved = r.files_preserved + (if is_protected f then 1 else 0);
          })

  judge-Expected : (dry_run : Bool) (f : Entry) → Expected dry_run f (judge resolve s now dry_run f)
  unfolding judge
  judge-Expected dry_run f = (ground arith, λ r. ground arith)

  loop_left :
      (dry_run : Bool) (fs : List Entry) (r : CleanupResult)
      → (cleanup_loop resolve s now dry_run fs r).1
        ≡ filter (λ f. dry_run || not (deletable dry_run f)) fs
  unfolding cleanup_loop
  loop_left dry_run [] r = refl
  loop_left dry_run (f ∷ fs) r =
      let v = judge resolve s now dry_run f in
      rw (judge-Expected dry_run f).0 (rw (loop_left dry_run fs (counted v r)) refl)

  next_counters :
      (dry_run : Bool) (f : Entry) (fs : List Entry) (r : CleanupResult) {r' : CleanupResult}
      → r' ≡ record r {
        files_deleted = r.files_deleted + (if deletable dry_run f then 1 else 0);
        bytes_reclaimed = r.bytes_reclaimed + (if deletable dry_run f then size_of f else 0);
        files_preserved = r.files_preserved + (if is_protected f then 1 else 0);
      }
      → record r' {
        files_deleted = r'.files_deleted + count (deletable dry_run) fs;
        bytes_reclaimed = r'.bytes_reclaimed + total_size (filter (deletable dry_run) fs);
        files_preserved = r'.files_preserved + count is_protected fs;
      }
        ≡ record r {
          files_deleted = r.files_deleted + count (deletable dry_run) (f ∷ fs);
          bytes_reclaimed = r.bytes_reclaimed + total_size (filter (deletable dry_run) (f ∷ fs));
          files_preserved = r.files_preserved + count is_protected (f ∷ fs);
        }
  next_counters dry_run f fs r e = rw e (ground arith)

  loop_counters :
      (dry_run : Bool) (fs : List Entry) (r : CleanupResult)
      → (cleanup_loop resolve s now dry_run fs r).0 ≡ record r {
        files_deleted = r.files_deleted + count (deletable dry_run) fs;
        bytes_reclaimed = r.bytes_reclaimed + total_size (filter (deletable dry_run) fs);
        files_preserved = r.files_preserved + count is_protected fs;
      }
  unfolding cleanup_loop
  loop_counters dry_run [] r = ground arith
  loop_counters dry_run (f ∷ fs) r =
      let v = judge resolve s now dry_run f in
      loop_counters dry_run fs (counted v r)
      ∙ next_counters dry_run f fs r ((judge-Expected dry_run f).1 r)

  abbrev started : Bool → CleanupResult
  started dry_run = record {
    files_deleted = 0;
    bytes_reclaimed = 0;
    files_preserved = 0;
    dry_run = dry_run;
  }

  -- A cleanup removes from the directory exactly the visible files that have reached the age limit,
  -- that no job holds and that can be unlinked; all other entries stay, in order. It reports their
  -- number and their total size, and how many old files it left because a job holds them.
  pub cleanup_old_files_exact :
      (fs : List Entry)
      → cleanup_old_files resolve s now false (some fs) ≡ (
        record {
          files_deleted = count (deletable false) fs;
          bytes_reclaimed = total_size (filter (deletable false) fs);
          files_preserved = count is_protected fs;
          dry_run = false;
        },
        filter (λ f. not (deletable false f)) fs,
      )
  unfolding cleanup_old_files
  cleanup_old_files_exact fs =
      ground (arith, loop_left false fs (started false), loop_counters false fs (started false))

  filter-true : (fs : List Entry) → filter (λ f. true) fs ≡ fs
  filter-true [] = refl
  filter-true (f ∷ fs) = ap (λ t. f ∷ t) (filter-true fs)

  same_deletable :
      (fs : List Entry)
      → All (λ f. f.can_unlink ≡ true) fs
      → filter (deletable true) fs ≡ filter (deletable false) fs
  same_deletable [] u = refl
  same_deletable (f ∷ fs) u =
      let same : deletable true f ≡ deletable false f = ground arith in
      rw same (rw (same_deletable fs u.1))

  -- A dry run leaves the directory as it is, and where every file can be unlinked it reports what
  -- the run itself would, but for the flag.
  dry_run_predicts :
      (fs : List Entry)
      → All (λ f. f.can_unlink ≡ true) fs
      → let dry = cleanup_old_files resolve s now true (some fs) in
        (dry.1 ≡ fs)
        × (record dry.0 { dry_run = false } ≡ (cleanup_old_files resolve s now false (some fs)).0)
  unfolding cleanup_old_files
  dry_run_predicts fs u = (
    loop_left true fs (started true) ∙ filter-true fs,
    ground (
      arith,
      loop_counters true fs (started true),
      loop_counters false fs (started false),
      ap total_size (same_deletable fs u),
      length-filter (deletable true) fs,
      length-filter (deletable false) fs,
      ap length (same_deletable fs u),
    ),
  )
