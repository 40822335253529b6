-- ===== src/DownloadQueue/Abstract.antt =====
-- What app/services/download_queue.py promises its callers, without the heap and the numbering:
-- a line of waiting jobs, the jobs that run, and the slots that are free. The order in which the
-- line is written does not matter.
use yt_dlp_api.Prelude.{
  ℕ, suc, ◌≤◌, ◌<◌, String, ◌≡◌, Bool, true, false, ◌&&◌, not, List, [], ◌∷◌, ltb, leb, length,
  filter, count, member, discard, add_member, All,
}
use yt_dlp_api.DownloadQueue.Job.{QueuedJob, at_most, has_id}
use yt_dlp_api.DownloadQueue.Heap.{SameEntries}
use yt_dlp_api.DownloadQueue.{QueueStats}
use yt_dlp_api.Prelude.Int.{ℤ, sub_ℕ}

pub record Line : Type 0 where
  pub waiting : List QueuedJob
  pub running : List String
  pub free : ℕ
  pub limit : ℕ
  pub room : ℕ

pub data Call : Type 0 where
  enter : ℕ → String → ℕ → Call
  take_next : Call
  withdraw : String → Call
  give_back : String → Call
  take_slot : String → Call
  ask : String → Call
  ask_active : String → Call
  ask_size ask_active_count ask_available ask_stats : Call

pub data Reply : Type 0 where
  full nowhere nobody slot_back failure : Reply
  at_place : ℕ → Reply
  given : String → Reply
  success : Bool → Reply
  amount : ℕ → Reply
  slots_left : ℤ → Reply
  counted : QueueStats → Reply

abbrev pub is_crowded : Line → Bool
is_crowded s = ltb 0 s.room && leb s.room (length s.waiting)

-- Place `p` of the job `i`: all entries that must go before its entry fit before the place, and
-- none that must go after it.
pub record IsPlace (i : String) (p : ℕ) (js : List QueuedJob) : Type 0 where
  pub entry : QueuedJob
  pub of_job : has_id i entry ≡ true
  pub stands : (r : QueuedJob → Bool) → r entry ≡ true → 1 ≤ count r js
  pub not_before : count (λ y. not (at_most entry y)) js < p
  pub not_after : p ≤ count (λ y. at_most y entry) js

-- One call: what may be answered, and the line afterwards.
pub data Serves (s : Line) : Call → Reply → Line → Type 0 where
  refuses :
      (now : ℕ) (i : String) (priority : ℕ)
      → is_crowded s ≡ true
      → Serves s (enter now i priority) full s
  keeps_place :
      (now : ℕ) (i : String) (priority p : ℕ)
      → is_crowded s ≡ false
      → IsPlace i p s.waiting
      → Serves s (enter now i priority) (at_place p) s
  joins :
      (now : ℕ) (i : String) (priority p : ℕ) (js : List QueuedJob)
      → is_crowded s ≡ false
      → count (has_id i) s.waiting ≡ 0
      → js ≡ record { priority = priority; enqueue_time = now; job_id = i } ∷ s.waiting
      → IsPlace i p js
      → Serves s (enter now i priority) (at_place p) (record s { waiting = js })
  no_slot : s.free ≡ 0 → Serves s take_next nobody s
  no_job : s.waiting ≡ [] → Serves s take_next nobody s
  takes :
      (x : QueuedJob) (rest : List QueuedJob) (n : ℕ)
      → s.free ≡ suc n
      → SameEntries s.waiting (x ∷ rest)
      → All (λ y. at_most x y ≡ true) rest
      → Serves s take_next
          (given x.job_id)
          (record s { waiting = rest; running = add_member x.job_id s.running; free = n })
  stays_running : (i : String) → member i s.running ≡ true → Serves s (withdraw i) (success false) s
  unknown : (i : String) → count (has_id i) s.waiting ≡ 0 → Serves s (withdraw i) (success false) s
  withdraws :
      (i : String)
      → member i s.running ≡ false
      → 0 < count (has_id i) s.waiting
      → Serves s
          (withdraw i)
          (success true)
          (record s { waiting = filter (λ j. not (has_id i j)) s.waiting })
  gives_back :
      (i : String)
      → Serves s
          (give_back i)
          slot_back
          (record s { running = discard i s.running; free = suc s.free })
  none_free : (i : String) → s.free ≡ 0 → Serves s (take_slot i) (success false) s
  takes_slot :
      (i : String) (n : ℕ)
      → s.free ≡ suc n
      → Serves s
          (take_slot i)
          (success true)
          (record s { running = add_member i s.running; free = n })
  tells : (i : String) (p : ℕ) → IsPlace i p s.waiting → Serves s (ask i) (at_place p) s
  no_place : (i : String) → count (has_id i) s.waiting ≡ 0 → Serves s (ask i) nowhere s
  tells_active : (i : String) → Serves s (ask_active i) (success (member i s.running)) s
  tells_size : Serves s ask_size (amount (length s.waiting)) s
  tells_active_count : Serves s ask_active_count (amount (length s.running)) s
  tells_available : Serves s ask_available (slots_left (sub_ℕ s.limit (length s.running))) s
  tells_stats :
      Serves s ask_stats
        (counted (record {
          size = length s.waiting;
          active_count = length s.running;
          available_slots = sub_ℕ s.limit (length s.running);
          slots = s.limit;
        }))
        s

-- A run of calls, with its answers.
pub data Runs : Line → List Call → List Reply → Line → Type 0 where
  ends : (s : Line) → Runs s [] [] s
  calls :
      (s : Line) (c : Call) (a : Reply) (t : Line) (cs : List Call) (xs : List Reply) (u : Line)
      → Serves s c a t
      → Runs t cs xs u
      → Runs s (c ∷ cs) (a ∷ xs) u
