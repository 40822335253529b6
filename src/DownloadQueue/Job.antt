-- ===== src/DownloadQueue/Job.antt =====
-- `QueuedJob` of app/services/download_queue.py, its order and the priorities.
use yt_dlp_api.Prelude.{
  ℕ, String, ◌≡◌, Bool, true, ◌&&◌, ◌||◌, List, [], ◌∷◌, ltb, leb, ◌==◌, str_eq, arith, ◌⊎◌,
}

abbrev pub priority_metadata : ℕ
priority_metadata = 1

abbrev pub priority_download : ℕ
priority_download = 10

pub record QueuedJob : Type 0 where
  pub priority : ℕ
  pub enqueue_time : ℕ
  pub job_id : String

-- `a <= b` of `@dataclass(order=True)`: by priority, then by enqueue time.
abbrev pub at_most : QueuedJob → QueuedJob → Bool
at_most a b =
    ltb a.priority b.priority || (a.priority == b.priority && leb a.enqueue_time b.enqueue_time)

abbrev pub has_id : String → QueuedJob → Bool
has_id job_id j = str_eq j.job_id job_id

abbrev pub queued_ids : List QueuedJob → List String
queued_ids [] = []
queued_ids (j ∷ js) = j.job_id ∷ queued_ids js

pub at_most_total : (a b : QueuedJob) → (at_most a b ≡ true) ⊎ (at_most b a ≡ true)
at_most_total a b = ground arith

pub at_most_trans :
    (a b c : QueuedJob) → at_most a b ≡ true → at_most b c ≡ true → at_most a c ≡ true
at_most_trans a b c h k = ground arith
