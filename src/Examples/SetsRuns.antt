-- ===== src/Examples/SetsRuns.antt =====
-- Sets of chunks, batches, hours and the semaphore on small inputs.
use frankenstein.Chunk.Buckets.{big_buckets, meeting_ranges_share_bucket}
use frankenstein.Chunk.Sets.Merge.{find-merge}
use frankenstein.Prelude.Sort.{IsStrict, find}
use frankenstein.Prelude.Int.{ℤ, pos}
use frankenstein.Prelude.{List, ℕ, Member, ◌<◌, ◌∷◌, ◌≡◌, ◌⊎◌, All, [], arith, ◌+◌, or_else, refl}
use frankenstein.Chunk.Sets.NWay.{Returns, n_way_intersect-Returns}
use frankenstein.Chunk.Sets.{merge, n_way_intersect}
use frankenstein.Chunk.Limiter.{
  calls_get_stuck, Reach, next, next_other, other_release, Call, IsDone, Step, start, acquire,
  few_get-IsDone, here, too_many_never_done,
}
use frankenstein.Chunk.Batch.{concat, batch_requests, IsBatch, batch_requests_lem}
use frankenstein.Prelude.Order.{text_ord}
use frankenstein.Chunk.Types.{Chunk, id_of}

abbrev chunk : ℕ → Chunk ℤ
chunk n = record { id = n ∷ []; from = pos 0; through = pos 4000; metric = []; bytes = [] }

abbrev odd_set : List (Chunk ℤ)
odd_set = chunk 1 ∷ chunk 3 ∷ chunk 5 ∷ []

abbrev low_set : List (Chunk ℤ)
low_set = chunk 1 ∷ chunk 2 ∷ chunk 3 ∷ []

abbrev odd_strict : IsStrict id_of odd_set
odd_strict = ((refl, (refl, tt)), ((refl, tt), (tt, tt)))

abbrev low_strict : IsStrict id_of low_set
low_strict = ((refl, (refl, tt)), ((refl, tt), (tt, tt)))

abbrev doubled : List (Chunk ℤ)
doubled = chunk 1 ∷ chunk 1 ∷ chunk 2 ∷ []

merge_run : merge odd_set low_set ≡ chunk 1 ∷ chunk 2 ∷ chunk 3 ∷ chunk 5 ∷ []
unfolding merge
merge_run = refl

find-merge_example :
    find id_of (2 ∷ []) (merge odd_set low_set)
    ≡ or_else (find id_of (2 ∷ []) odd_set) (find id_of (2 ∷ []) low_set)
find-merge_example = find-merge (2 ∷ []) odd_set low_set odd_strict

n_way_intersect-Returns_example :
    Returns (n_way_intersect (odd_set ∷ low_set ∷ odd_set ∷ [])) (odd_set ∷ low_set ∷ odd_set ∷ [])
n_way_intersect-Returns_example =
    n_way_intersect-Returns (odd_set ∷ low_set ∷ odd_set ∷ [])
      (odd_strict, (low_strict, (odd_strict, tt)))

batch_requests_lem_example :
    (concat (batch_requests odd_set) ≡ odd_set) × All IsBatch (batch_requests odd_set)
batch_requests_lem_example = batch_requests_lem odd_set

meeting_ranges_share_bucket_example :
    (h : ℤ) × Member h (big_buckets (λ t. t) (pos 100) (pos 5000))
    × Member h (big_buckets (λ t. t) (pos 4000) (pos 9000))
meeting_ranges_share_bucket_example =
    meeting_ranges_share_bucket (λ t. t) (pos 100) (pos 5000) (pos 4000) (pos 9000) (omega arith)
      (omega arith) (omega arith) (omega arith)

abbrev begun : Call
begun = record {
  permits = 0;
  elsewhere = 1;
  waiting = 2;
  working = 1;
  sending = 0;
  releasing = 0;
  received = 0;
}

begin : Reach (start 1 1 3) begun
unfolding start
begin = next here (acquire (omega arith) (omega arith) refl)

too_many_never_done_example :
    (begun.received ≡ 0)
    × (0 < begun.waiting)
    × (begun.permits + begun.elsewhere + begun.working + begun.sending ≡ 2)
too_many_never_done_example = too_many_never_done 1 1 3 (omega arith) begin

abbrev begun_alone : Call
begun_alone = record begun { waiting = 1; elsewhere = 0; permits = 1 }

begin_alone : Reach (start 1 1 2) begun_alone
unfolding start
begin_alone =
    next_other (next here (acquire (omega arith) (omega arith) refl))
      (other_release (omega arith) refl)

few_get-IsDone_example : IsDone 2 begun_alone ⊎ ((t : Call) × Step begun_alone t)
few_get-IsDone_example = few_get-IsDone 1 1 2 begin_alone (omega arith)

-- The other call of 60 chunks has taken half of the permits.
calls_get_stuck_example :
    (s : Call) × Reach (start 50 50 60) s
    × (s.elsewhere ≡ 50)
    × ¬ (IsDone 60 s)
    × ((t : Call) → ¬ (Step s t))
calls_get_stuck_example = calls_get_stuck 50 50 60 (omega arith)
