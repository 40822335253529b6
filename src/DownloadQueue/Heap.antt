-- ===== src/DownloadQueue/Heap.antt =====
-- What app/services/download_queue.py uses of Python's `heapq`, with the behaviour that its
-- documentation promises. `Sorted.antt` has an instance.
use yt_dlp_api.Prelude.{◌≡◌, Bool, true, Option, none, some, List, [], ◌∷◌, count, All}
use yt_dlp_api.DownloadQueue.Job.{QueuedJob, at_most}

-- The same entries, as often: no test tells the lists apart by counting.
abbrev pub SameEntries : List QueuedJob → List QueuedJob → Type 0
SameEntries xs ys = (p : QueuedJob → Bool) → count p xs ≡ count p ys

-- What `heappop` gives on a heap: nothing from an empty one, otherwise an entry that is at most
-- each of the rest, which is a heap.
pub data Pops (IsHeap : List QueuedJob → Type 0) (xs : List QueuedJob)
    (r : Option (QueuedJob × List QueuedJob)) : Type 0 where
  nothing : xs ≡ [] → r ≡ none → Pops IsHeap xs r
  entry :
      (x : QueuedJob) (rest : List QueuedJob)
      → r ≡ some (x, rest)
      → SameEntries xs (x ∷ rest)
      → All (λ y. at_most x y ≡ true) rest
      → IsHeap rest
      → Pops IsHeap xs r

pub record Heapq : Type 1 where
  pub IsHeap : List QueuedJob → Type 0
  pub heappush : List QueuedJob → QueuedJob → List QueuedJob
  pub heappop : List QueuedJob → Option (QueuedJob × List QueuedJob)
  pub heapify : List QueuedJob → List QueuedJob
  pub empty-IsHeap : IsHeap []
  pub heappush-IsHeap : (xs : List QueuedJob) (x : QueuedJob) → IsHeap xs → IsHeap (heappush xs x)
  pub heappush-same : (xs : List QueuedJob) (x : QueuedJob) → SameEntries (heappush xs x) (x ∷ xs)
  pub heappop-Pops : (xs : List QueuedJob) → IsHeap xs → Pops IsHeap xs (heappop xs)
  pub heapify-IsHeap : (xs : List QueuedJob) → IsHeap (heapify xs)
  pub heapify-same : (xs : List QueuedJob) → SameEntries (heapify xs) xs
