-- ===== src/DownloadQueue/Sorted.antt =====
-- A list kept in order meets the contract of `heapq`.
use yt_dlp_api.Prelude.{refl, Option, none, some, List, [], ◌∷◌}
use yt_dlp_api.Prelude.Sort.{
  insert_sorted, sort, IsOrdered, insert_sorted-IsOrdered, sort-IsOrdered, count-insert_sorted,
  count-sort,
}
use yt_dlp_api.DownloadQueue.Job.{QueuedJob, at_most, at_most_total, at_most_trans}
use yt_dlp_api.DownloadQueue.Heap.{Heapq, Pops, nothing, entry}

abbrev pub pop_first : List QueuedJob → Option (QueuedJob × List QueuedJob)
pop_first [] = none
pop_first (x ∷ xs) = some (x, xs)

pub pop_first-Pops :
    (xs : List QueuedJob) → IsOrdered at_most xs → Pops (IsOrdered at_most) xs (pop_first xs)
pop_first-Pops [] o = nothing refl refl
pop_first-Pops (x ∷ xs) o = entry x xs refl (λ p. refl) o.0 o.1

abbrev pub sorted_heapq : Heapq
sorted_heapq = record {
  IsHeap = IsOrdered at_most;
  heappush = λ xs x. insert_sorted at_most x xs;
  heappop = pop_first;
  heapify = sort at_most;
  empty-IsHeap = tt;
  heappush-IsHeap = λ xs x. insert_sorted-IsOrdered at_most at_most_total at_most_trans x xs;
  heappush-same = λ xs x p. count-insert_sorted at_most p x xs;
  heappop-Pops = pop_first-Pops;
  heapify-IsHeap = sort-IsOrdered at_most at_most_total at_most_trans;
  heapify-same = λ xs p. count-sort at_most p xs;
}
