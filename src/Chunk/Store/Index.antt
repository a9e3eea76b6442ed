-- ===== src/Chunk/Store/Index.antt =====
-- chunk/chunk_store.go: `calculateDynamoWrites`, which makes the index entries of chunks, and
-- `processResponse`, which reads them back.
use frankenstein.Prelude.{
  ℕ, Bool, false, not, ◌||◌, List, [], ◌∷◌, ◌++◌, Option, none, some, if◌then◌else◌,
}
use frankenstein.Prelude.Int.{ℤ}
use frankenstein.Prelude.Order.{Text, text_ord}
use frankenstein.Prelude.Dict.{lookup}
use frankenstein.Prelude.Result.{Result, ok, err, Error, ◌>>=◌, no_metric_name_label, invalid_item}
use frankenstein.Model.{Metric, LabelMatcher, metric_name_label}
use frankenstein.Chunk.Types.{Chunk}
use frankenstein.Chunk.Buckets.{big_buckets}
use frankenstein.Chunk.Store.{Deps, WriteRequest, Item, hash_value, only_id}

-- Go's `v, ok := m[k]`, with an error for a missing key
abbrev pub or_fail {ℓ} : {A : Type ℓ} → Option A → Error → Result A
or_fail none e = err e
or_fail (some a) e = ok a

-- item[...].B, which must not be nil
abbrev pub attribute : Option (List ℕ) → Result (List ℕ)
attribute b = or_fail b invalid_item

module _ {Time W : Type 0} (deps : Deps Time W) where
  -- The innermost loop, over the labels of a chunk's metric.
  unfoldable pub label_writes : Text → Text → List ℕ → Metric → List WriteRequest
  label_writes hash id value [] = []
  label_writes hash id value ((label, v) ∷ metric) =
      let rest = label_writes hash id value metric in
      if text_ord.same label metric_name_label
      then rest
      else record { hash_value = hash; range_value = deps.encode label v id; chunk_value = value }
        ∷ rest

  -- The loop over the hours that the chunk touches.
  unfoldable pub hour_writes : Text → Text → Chunk Time → List ℕ → List ℤ → List WriteRequest
  hour_writes user_id metric_name c value [] = []
  hour_writes user_id metric_name c value (hour ∷ hours) =
      label_writes (hash_value deps user_id hour metric_name) c.id value c.metric
      ++ hour_writes user_id metric_name c value hours

  unfoldable pub chunk_writes : Text → Chunk Time → Result (List WriteRequest)
  chunk_writes user_id c = do
    metric_name ← or_fail (lookup metric_name_label c.metric) no_metric_name_label
    chunk_value ← deps.marshal c
    ok (hour_writes user_id metric_name c chunk_value (big_buckets deps.unix c.from c.through))

  unfoldable pub calculate_dynamo_writes : Text → List (Chunk Time) → Result (List WriteRequest)
  calculate_dynamo_writes user_id [] = ok []
  calculate_dynamo_writes user_id (c ∷ chunks) = do
    first ← chunk_writes user_id c
    rest ← calculate_dynamo_writes user_id chunks
    ok (first ++ rest)

  -- One item of an answer: its label, the label's value and the chunk.
  unfoldable pub read_item : Item → Result (Text × Text × Chunk Time)
  read_item item = do
    range_value ← attribute item.range_value
    parts ← deps.decode range_value
    chunk_value ← attribute item.chunk_value
    c ← deps.unmarshal chunk_value (only_id deps parts.2)
    ok (parts.0, parts.1, c)

  -- Whether an item is not for the matcher: the read came by another label or value.
  abbrev pub is_dropped : Option LabelMatcher → Text → Text → Bool
  is_dropped none label value = false
  is_dropped (some m) label value = not (text_ord.same label m.name) || not (deps.matches m value)

  abbrev pub kept : Option LabelMatcher → Text × Text × Chunk Time → List (Chunk Time)
  kept matcher (label, value, c) = if is_dropped matcher label value then [] else c ∷ []

  -- The chunk set as it is after the items, and the error at which reading stopped.
  unfoldable pub process_response :
      Option LabelMatcher → List Item → List (Chunk Time) → List (Chunk Time) × Option Error
  process_response matcher [] chunk_set = (chunk_set, none)
  process_response matcher (item ∷ items) chunk_set = elim (read_item item) [
    | err e ↦ (chunk_set, some e)
    | ok read ↦ process_response matcher items (chunk_set ++ kept matcher read)
  ]
