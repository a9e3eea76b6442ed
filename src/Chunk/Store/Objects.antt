-- ===== src/Chunk/Store/Objects.antt =====
-- chunk/chunk_store.go: Put and Get, over S3, the index and the cache of chunk/chunk_cache.go.
use frankenstein.Prelude.{ℕ, List, [], ◌∷◌, ◌++◌, map, Option, none, some}
use frankenstein.Prelude.Order.{Text, text_ord}
use frankenstein.Prelude.Dict.{lookup}
use frankenstein.Prelude.Result.{Result, ok, err, Error, ◌>>=◌}
use frankenstein.User.{Context, get_id}
use frankenstein.Model.{LabelMatcher}
use frankenstein.Chunk.Types.{Chunk}
use frankenstein.Chunk.Batch.{batch_requests}
use frankenstein.Chunk.Store.{Deps, Cache, WriteRequest, chunk_name}
use frankenstein.Chunk.Store.Index.{calculate_dynamo_writes}
use frankenstein.Chunk.Store.Query.{last_error, lookup_chunks}

-- memcacheKey
abbrev pub memcache_key : Text → Text → Text
memcache_key user_id chunk_id = chunk_name user_id chunk_id

-- `lastErr` after the errors of goroutines, in order of arrival
unfoldable pub gather_errors : List (Option Error) → Option Error → Option Error
gather_errors [] error = error
gather_errors (e ∷ errors) error = gather_errors errors (last_error error e)

-- One goroutine for each element: each takes effect at once, in the order of the list.
unfoldable pub run_all :
    {A W : Type 0} → (A → W → Option Error × W) → List A → W → List (Option Error) × W
run_all f [] w = ([], w)
run_all f (a ∷ as') w = let (e, w1) = f a w in let (es, w2) = run_all f as' w1 in (e ∷ es, w2)

-- Cache.FetchChunkData: what the cache has, with its bytes, and what it lacks.
unfoldable pub split_cached :
    {Time : Type 0}
    → Text
    → List (Text × List ℕ)
    → List (Chunk Time)
    → List (Chunk Time) × List (Chunk Time)
split_cached user_id items [] = ([], [])
split_cached user_id items (c ∷ chunks) =
    let (found, missing) = split_cached user_id items chunks in
    elim (lookup (memcache_key user_id c.id) items) [
      | none ↦ (found, c ∷ missing)
      | some value ↦ (record c { bytes = value } ∷ found, missing)
    ]

-- What StoreChunkData reads of a variable that changes: the ID of one chunk, the data of another.
abbrev pub read_twice : {Time : Type 0} → Chunk Time × Chunk Time → Chunk Time
read_twice (c, d) = record c { bytes = d.bytes }

module _ {Time W : Type 0} where
  -- Cache.StoreChunkData
  abbrev pub store_chunk_data : Cache W → Text → Chunk Time → W → Option Error × W
  store_chunk_data cache user_id c w = cache.set_item (memcache_key user_id c.id) c.bytes w

  -- Cache.StoreChunks: its goroutines share the loop's variable, and each reads it twice. `taken` is
  -- what each one finds there as it reads the ID, and then the data.
  unfoldable pub store_chunks :
      Cache W → Text → List (Chunk Time × Chunk Time) → W → Option Error × W
  store_chunks cache user_id taken w =
      let (errors, w1) = run_all (store_chunk_data cache user_id) (map read_twice taken) w in
      (gather_errors errors none, w1)

  unfoldable pub fetch_cached :
      Cache W → Text → List (Chunk Time) → W → List (Chunk Time) × List (Chunk Time)
  fetch_cached cache user_id chunks w =
      elim (cache.get_multi (map (λ c. memcache_key user_id c.id) chunks) w) [
        | err e ↦ ([], chunks)
        | ok items ↦ split_cached user_id items chunks
      ]

module _ {Time W : Type 0} (deps : Deps Time W) where
  -- An error of the cache is logged and dropped.
  unfoldable pub put_chunk : Text → Chunk Time → W → Option Error × W
  put_chunk user_id c w =
      let (error, w1) = deps.put_object (chunk_name user_id c.id) c.bytes w in
      elim error [
        | some e ↦ (some e, w1)
        | none ↦ elim deps.cache [
          | none ↦ (none, w1)
          | some cache ↦ (none, (store_chunk_data cache user_id c w1).1)
        ]
      ]

  -- `arrange` is the order in which the goroutines take effect and their errors arrive.
  unfoldable pub put_chunks :
      (List (Chunk Time) → List (Chunk Time)) → Text → List (Chunk Time) → W → Option Error × W
  put_chunks arrange user_id chunks w =
      let (errors, w1) = run_all (put_chunk user_id) (arrange chunks) w in
      (gather_errors errors none, w1)

  -- batchWriteDynamo: UnprocessedItems are dropped.
  abbrev pub batch_write_dynamo : List WriteRequest → W → Option Error × W
  batch_write_dynamo reqs w =
      let (error, unprocessed, w1) = deps.batch_write_item reqs w in (error, w1)

  unfoldable pub update_index :
      (List (List WriteRequest) → List (List WriteRequest))
      → Text
      → List (Chunk Time)
      → W
      → Option Error × W
  update_index arrange user_id chunks w = elim (calculate_dynamo_writes deps user_id chunks) [
    | err e ↦ (some e, w)
    | ok write_reqs ↦
        let (errors, w1) = run_all batch_write_dynamo (arrange (batch_requests write_reqs)) w in
        (gather_errors errors none, w1)
  ]

  unfoldable pub put :
      (List (Chunk Time) → List (Chunk Time))
      → (List (List WriteRequest) → List (List WriteRequest))
      → Context
      → List (Chunk Time)
      → W
      → Option Error × W
  put arrange arrange_batches ctx chunks w = elim (get_id ctx) [
    | err e ↦ (some e, w)
    | ok user_id ↦
        let (error, w1) = put_chunks arrange user_id chunks w in
        elim error [ some e ↦ (some e, w1) | none ↦ update_index arrange_batches user_id chunks w1 ]
  ]

  -- The goroutine of `fetchChunkData`: the chunk with the object's bytes.
  abbrev pub fetch_one : Text → W → Chunk Time → Result (Chunk Time)
  fetch_one user_id w c =
      deps.get_object (chunk_name user_id c.id) w >>= λ buf. ok (record c { bytes = buf })

  -- The gathering loop: all chunks, or the first error that arrived.
  unfoldable pub gather_chunks : List (Result (Chunk Time)) → Result (List (Chunk Time))
  gather_chunks [] = ok []
  gather_chunks (err e ∷ rest) = err e
  gather_chunks (ok c ∷ rest) = gather_chunks rest >>= λ chunks. ok (c ∷ chunks)

  unfoldable pub fetch_chunk_data :
      (List (Result (Chunk Time)) → List (Result (Chunk Time)))
      → Text
      → List (Chunk Time)
      → W
      → Result (List (Chunk Time))
  fetch_chunk_data arrival user_id chunk_set w =
      gather_chunks (arrival (map (fetch_one user_id w) chunk_set))

  -- The first part of `Get`: what the cache has, and what it lacks.
  unfoldable pub cached_and_missing :
      Text → List (Chunk Time) → W → List (Chunk Time) × List (Chunk Time)
  cached_and_missing user_id missing w = elim deps.cache [
    | none ↦ ([], missing)
    | some cache ↦ fetch_cached cache user_id missing w
  ]

  -- What `Get` writes to the cache when it has fetched chunks from S3.
  abbrev pub cache_fetched : Text → List (Chunk Time × Chunk Time) → W → W
  cache_fetched user_id taken w = elim deps.cache [
    | none ↦ w
    | some cache ↦ (store_chunks cache user_id taken w).1
  ]

  -- The orders of arrival, and what the goroutines of `StoreChunks` read.
  pub record Arrivals : Type 0 where
    pub sets : List (Result (List (Chunk Time))) → List (Result (List (Chunk Time)))
    pub fetched : List (Result (Chunk Time)) → List (Result (Chunk Time))
    pub taken : List (Chunk Time) → List (Chunk Time × Chunk Time)

  unfoldable pub get :
      Arrivals → Context → Time → Time → List LabelMatcher → W → Result (List (Chunk Time)) × W
  get arrivals ctx from through matchers w = elim (get_id ctx) [
    | err e ↦ (err e, w)
    | ok user_id ↦ elim (lookup_chunks deps arrivals.sets w user_id from through matchers) [
      | err e ↦ (err e, w)
      | ok chunks ↦
          let (from_cache, missing) = cached_and_missing user_id chunks w in
          elim (fetch_chunk_data arrivals.fetched user_id missing w) [
            | err e ↦ (err e, w)
            | ok from_s3 ↦ (
              ok (deps.sorter.sort (from_cache ++ from_s3)),
              cache_fetched user_id (arrivals.taken from_s3) w,
            )
          ]
    ]
  ]
