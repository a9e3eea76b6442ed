-- ===== src/Chunk/Store/Query.antt =====
-- chunk/chunk_store.go: looking chunks up in the index.
use frankenstein.Prelude.{
  ℕ, ◌+◌, ◌/◌, ◌%◌, Bool, true, false, not, ◌&&◌, List, [], ◌∷◌, ◌++◌, map, Option, none, some,
  if◌then◌else◌, ltb,
}
use frankenstein.Prelude.Int.{ℤ}
use frankenstein.Prelude.Order.{Text, text_ord}
use frankenstein.Prelude.Result.{Result, ok, err, Error, ◌>>=◌, panicked}
use frankenstein.Model.{LabelMatcher}
use frankenstein.Chunk.Types.{Chunk}
use frankenstein.Chunk.Matchers.{extract_metric_name, is_equal}
use frankenstein.Chunk.Sets.{unique, merge, n_way_intersect}
use frankenstein.Chunk.Buckets.{big_buckets}
use frankenstein.Chunk.Store.{Deps, QueryInput, Item, Pages, hash_value}
use frankenstein.Chunk.Store.Index.{process_response}

-- string(b): the UTF-8 of the code point with a byte's number
abbrev pub byte_string : ℕ → Text
byte_string b = if ltb b 128 then b ∷ [] else (192 + b / 64) ∷ (128 + b % 64) ∷ []

-- `next`: the last byte goes up by one, and wraps. The empty string has no last byte: a panic.
unfoldable pub next : Text → Result Text
next [] = err panicked
next (b ∷ []) = ok (byte_string ((b + 1) % 256))
next (b ∷ c ∷ s) = next (c ∷ s) >>= λ rest. ok (b ∷ rest)

-- What a loop over a channel of results and a channel of errors keeps of the errors: the last.
abbrev pub last_error : Option Error → Option Error → Option Error
last_error old none = old
last_error old (some e) = some e

module _ {Time W : Type 0} (deps : Deps Time W) where
  -- The callback that the two lookups hand to QueryPages.
  unfoldable pub on_page : Option LabelMatcher → List Item → Bool → Pages Time → Pages Time × Bool
  on_page matcher resp last_page pages =
      let (chunk_set, error) = process_response deps matcher resp pages.chunk_set in
      let failed : Bool = elim error [ none ↦ false | some e ↦ true ] in
      (record { chunk_set = chunk_set; processing_error = error }, failed && not last_page)

  abbrev pub no_pages : Pages Time
  no_pages = record { chunk_set = []; processing_error = none }

  -- The two error returns after the query, and the sort.
  abbrev pub query_result : Pages Time × Option Error → Result (List (Chunk Time))
  query_result (pages, some e) = err e
  query_result (pages, none) = elim pages.processing_error [
    | some e ↦ err e
    | none ↦ ok (deps.sorter.sort pages.chunk_set)
  ]

  unfoldable pub query : QueryInput → Option LabelMatcher → W → Result (List (Chunk Time))
  query input matcher w = query_result (deps.query_pages input (on_page matcher) no_pages w)

  unfoldable pub lookup_chunks_for_metric_name : W → Text → ℤ → Text → Result (List (Chunk Time))
  lookup_chunks_for_metric_name w user_id hour metric_name = do
    chunk_set ←
        query (record { hash_value = hash_value deps user_id hour metric_name; range = none }) none
          w
    ok (unique chunk_set)

  -- The bounds of the range of index entries that a matcher can match.
  unfoldable pub range_bounds : LabelMatcher → Result (List ℕ × List ℕ)
  range_bounds m =
      if is_equal m.mtype
      then (do
        next_value ← next m.value
        ok (deps.encode m.name m.value [], deps.encode m.name next_value []))
      else (do
        next_label ← next m.name
        ok (deps.encode m.name [] [], deps.encode next_label [] []))

  unfoldable pub lookup_chunks_for_matcher :
      W → Text → ℤ → Text → LabelMatcher → Result (List (Chunk Time))
  lookup_chunks_for_matcher w user_id hour metric_name m = do
    bounds ← range_bounds m
    query (record { hash_value = hash_value deps user_id hour metric_name; range = some bounds })
        (some m) w

  -- The gathering loop of `lookupChunksFor`: the sets in order of arrival, and the last error.
  unfoldable pub gather_sets :
      List (Result (List (Chunk Time)))
      → List (List (Chunk Time))
      → Option Error
      → List (List (Chunk Time)) × Option Error
  gather_sets [] sets error = (sets, error)
  gather_sets (ok set ∷ rest) sets error = gather_sets rest (sets ++ set ∷ []) error
  gather_sets (err e ∷ rest) sets error = gather_sets rest sets (some e)

  abbrev pub or_empty : Option (List (Chunk Time)) → List (Chunk Time)
  or_empty none = []
  or_empty (some set) = set

  -- A set and an error that may come with it: a goroutine sends the error, if there is one.
  abbrev pub sent : List (Chunk Time) × Option Error → Result (List (Chunk Time))
  sent (set, none) = ok set
  sent (set, some e) = err e

  -- `arrival` is the order in which the goroutines' results arrive.
  module _ (arrival : List (Result (List (Chunk Time))) → List (Result (List (Chunk Time)))) where
    unfoldable pub lookup_chunks_for :
        W → Text → ℤ → Text → List LabelMatcher → Result (List (Chunk Time))
    lookup_chunks_for w user_id hour metric_name [] =
        lookup_chunks_for_metric_name w user_id hour metric_name
    lookup_chunks_for w user_id hour metric_name (m ∷ matchers) =
        let results = map (lookup_chunks_for_matcher w user_id hour metric_name) (m ∷ matchers) in
        let (sets, error) = gather_sets (arrival results) [] none in
        sent (or_empty (n_way_intersect sets), error)

    -- The gathering loop of `lookupChunks`.
    unfoldable pub gather_merged :
        List (Result (List (Chunk Time)))
        → List (Chunk Time)
        → Option Error
        → List (Chunk Time) × Option Error
    gather_merged [] chunks error = (chunks, error)
    gather_merged (ok incoming ∷ rest) chunks error =
        gather_merged rest (merge chunks incoming) error
    gather_merged (err e ∷ rest) chunks error = gather_merged rest chunks (some e)

    unfoldable pub lookup_chunks :
        W → Text → Time → Time → List LabelMatcher → Result (List (Chunk Time))
    lookup_chunks w user_id from through matchers = do
      named ← (extract_metric_name matchers).result
      sent (
          gather_merged
            (arrival (
              map (λ hour. lookup_chunks_for w user_id hour named.0 named.1)
                (big_buckets deps.unix from through)))
            [] none)
