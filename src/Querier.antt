-- ===== src/Querier.antt =====
-- querier.go: answers of the chunk store and of several queriers, put together by series.
-- `fingerprint` is model.Metric's Fingerprint, `decode` is local.DecodeDoubleDeltaChunk.
pub mod Streams
pub mod Merged
pub mod Values
pub mod Whole
use frankenstein.Prelude.{ℕ, List, [], ◌∷◌, ◌++◌, map, Option, none, some}
use frankenstein.Prelude.Int.{ℤ, ◌-ℤ◌, int_ord}
use frankenstein.Prelude.Order.{Text, nat_ord, Ord, text_ord}
use frankenstein.Prelude.Dict.{lookup, insert}
use frankenstein.Prelude.Sort.{Sorter}
use frankenstein.Prelude.Result.{Result, ok, err, ◌>>=◌}
use frankenstein.Model.{Metric, SamplePair, SampleStream, LabelMatcher}
use frankenstein.Chunk.Types.{Chunk}

-- A Querier, over a type `W` of states of what it asks. Questions leave those as they are.
pub record Querier (W : Type 0) : Type 0 where
  pub query : ℤ → ℤ → List LabelMatcher → W → Result (List SampleStream)
  pub label_values : Text → W → Result (List Text)

-- The fields that the sort reads.
abbrev pub timestamp_of : SamplePair → ℤ
timestamp_of s = s.timestamp

-- The stream in the map, or a new one.
abbrev pub or_stream : Metric → Option SampleStream → SampleStream
or_stream metric none = record { metric = metric; values = [] }
or_stream metric (some ss) = ss

-- ss.Values = append(ss.Values, values...)
abbrev pub extended : SampleStream → List SamplePair → SampleStream
extended ss values = record ss { values = ss.values ++ values }

-- sort.Sort(timeSortableSamplePairs(ss.Values)) on all of the streams
unfoldable pub sort_streams :
    Sorter timestamp_of → List (ℕ × SampleStream) → List (ℕ × SampleStream)
sort_streams sorter [] = []
sort_streams sorter ((fp, ss) ∷ streams) =
    (fp, record ss { values = sorter.sort ss.values }) ∷ sort_streams sorter streams

abbrev pub streams_of : List (ℕ × SampleStream) → List SampleStream
streams_of streams = map (λ entry. entry.1) streams

module _ (fingerprint : Metric → ℕ) where
  -- One turn of either loop: the samples go to the stream of the metric's fingerprint.
  unfoldable pub add_samples :
      Metric → List SamplePair → List (ℕ × SampleStream) → List (ℕ × SampleStream)
  add_samples metric values streams =
      let fp = fingerprint metric in
      insert fp (extended (or_stream metric (lookup fp streams)) values) streams

  module _ {Time : Type 0} (decode : List ℕ → List SamplePair) where
    unfoldable pub group_chunks :
        List (Chunk Time) → List (ℕ × SampleStream) → List (ℕ × SampleStream)
    group_chunks [] streams = streams
    group_chunks (c ∷ chunks) streams =
        group_chunks chunks (add_samples c.metric (decode c.bytes) streams)

    -- ChunkQuerier.Query, where `chunks` is the answer of the store.
    unfoldable pub chunk_query :
        Sorter timestamp_of → Result (List (Chunk Time)) → Result (List SampleStream)
    chunk_query sorter chunks = do
      found ← chunks
      ok (streams_of (sort_streams sorter (group_chunks found [])))

  -- The inner loop of QueryRange
  unfoldable pub merge_matrix :
      List SampleStream → List (ℕ × SampleStream) → List (ℕ × SampleStream)
  merge_matrix [] streams = streams
  merge_matrix (ss ∷ matrix) streams = merge_matrix matrix (add_samples ss.metric ss.values streams)

  module _ {W : Type 0} where
    -- The outer loop of QueryRange
    unfoldable pub ask_all :
        ℤ
        → ℤ
        → List LabelMatcher
        → W
        → List (Querier W)
        → List (ℕ × SampleStream)
        → Result (List (ℕ × SampleStream))
    ask_all from to matchers w [] streams = ok streams
    ask_all from to matchers w (q ∷ queriers) streams = do
      matrix ← q.query from to matchers w
      ask_all from to matchers w queriers (merge_matrix matrix streams)

    unfoldable pub query_range :
        Sorter timestamp_of
        → List (Querier W)
        → ℤ
        → ℤ
        → List LabelMatcher
        → W
        → Result (List SampleStream)
    query_range sorter queriers from to matchers w = do
      streams ← ask_all from to matchers w queriers []
      ok (streams_of (sort_streams sorter streams))

    -- QueryInstant
    abbrev pub query_instant :
        Sorter timestamp_of
        → List (Querier W)
        → ℤ
        → ℤ
        → List LabelMatcher
        → W
        → Result (List SampleStream)
    query_instant sorter queriers ts staleness_delta matchers w =
        query_range sorter queriers (ts -ℤ staleness_delta) ts matchers w

-- The loops of MergeQuerier.LabelValuesForLabelName: a set of values, as the keys of a map.
abbrev pub add_all : List Text → List (Text × Unit {0}) → List (Text × Unit {0})
add_all [] set = set
add_all (v ∷ vals) set = add_all vals (insert v tt set)

unfoldable pub merge_values :
    {W : Type 0}
    → Text
    → W
    → List (Querier W)
    → List (Text × Unit {0})
    → Result (List (Text × Unit {0}))
merge_values name w [] set = ok set
merge_values name w (q ∷ queriers) set = do
  vals ← q.label_values name w
  merge_values name w queriers (add_all vals set)

unfoldable pub merged_label_values : {W : Type 0} → Text → W → List (Querier W) → Result (List Text)
merged_label_values name w queriers = do
  set ← merge_values name w queriers []
  ok (map (λ entry. entry.0) set)
