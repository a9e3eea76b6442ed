-- ===== src/Examples/StoreRuns.antt =====
-- The chunk store over services that keep a count of the writes.
use frankenstein.Chunk.Store.Fetch.{ids, get-success}
use mathlib.Core.List.{Permᴰ}
use mathlib.Core.List.Permᴰ
use frankenstein.Chunk.Sets.{unique_loop, merge}
use frankenstein.Chunk.Sets.{unique}
use frankenstein.Chunk.Matchers.{extract_metric_name}
use frankenstein.Prelude.Sort.{insertion_sorter, IsSorted, insertion_sort, insert_sorted}
use frankenstein.Chunk.Batch.{batch_requests}
use frankenstein.Chunk.Store.RoundTrip.{chunk_writes-only_name}
use frankenstein.Chunk.Store.Writes.{NoErrors, put-success}
use frankenstein.Chunk.Store.Paging.{query-first_page, query_forgets_error, run_pages}
use frankenstein.Prelude.Int.{ℤ, pos}
use frankenstein.Model.{metric_name_label, LabelMatcher, MatchType}
use frankenstein.Prelude.Dict.{lookup}
use frankenstein.Prelude.{
  map, List, none, [], some, ℕ, ◌∷◌, ◌≡◌, drop, length, refl, take, true, ◌++◌, Member, ap, suc,
  inl,
}
use frankenstein.Chunk.Types.{Chunk, id_of}
use frankenstein.Chunk.Store.Index.{
  process_response, read_item, chunk_writes, calculate_dynamo_writes, hour_writes, label_writes,
}
use frankenstein.Chunk.Buckets.{big_buckets, hours_from, hour}
use frankenstein.Prelude.Result.{ok, err, invalid_item, Result}
use frankenstein.Prelude.Order.{text_ord, Text}
use frankenstein.Chunk.Store.Query.{
  query, lookup_chunks, lookup_chunks_for, lookup_chunks_for_metric_name, on_page, gather_merged,
}
use frankenstein.Chunk.Store.Objects.{
  batch_write_dynamo, put, put_chunks, put_chunk, update_index, run_all, gather_errors, Arrivals,
  get, cached_and_missing, fetch_chunk_data, gather_chunks, cache_fetched,
}
use frankenstein.Chunk.Store.{Item, QueryInput, Deps, WriteRequest}

-- One encoding that can be decoded: lengths first.
abbrev encode : Text → Text → Text → List ℕ
encode label v id = length label ∷ length v ∷ label ++ (v ++ id)

abbrev decode : List ℕ → Result (Text × Text × Text)
decode [] = err invalid_item
decode (n ∷ []) = err invalid_item
decode (n ∷ m ∷ rest) = ok (take n rest, take m (drop n rest), drop m (drop n rest))

take-front : (xs ys : List ℕ) → take (length xs) (xs ++ ys) ≡ xs
take-front [] ys = refl
take-front (x ∷ xs) ys = ap (◌∷◌ x) (take-front xs ys)

drop-front : (xs ys : List ℕ) → drop (length xs) (xs ++ ys) ≡ ys
drop-front [] ys = refl
drop-front (x ∷ xs) ys = drop-front xs ys

decodes : (label v id : Text) → decode (encode label v id) ≡ ok (label, v, id)
decodes label v id =
    rw (take-front label (v ++ id), drop-front label (v ++ id), take-front v id, drop-front v id)
      refl

abbrev cpu : Text × Text
cpu = (8 ∷ [], 9 ∷ [])

abbrev one_chunk : Chunk ℤ
one_chunk = record {
  id = 1 ∷ [];
  from = pos 0;
  through = pos 10;
  metric = (metric_name_label, 7 ∷ []) ∷ cpu ∷ [];
  bytes = 5 ∷ [];
}

abbrev bad_item : Item
bad_item = record { range_value = none; chunk_value = none }

abbrev good_item : Item
good_item = record {
  range_value = some (encode (8 ∷ []) (9 ∷ []) (1 ∷ []));
  chunk_value = some (3 ∷ []);
}

-- A service whose answers have these pages.
abbrev deps : List (List Item) → Deps ℤ ℕ
deps pages = record {
  unix = λ t. t;
  show_int = λ n. [];
  encode = encode;
  decode = decode;
  marshal = λ c. ok (3 ∷ []);
  unmarshal = λ value c. ok (record one_chunk { bytes = []; id = c.id });
  matches = λ m v. true;
  put_object = λ name bytes w. (none, suc w);
  get_object = λ name w. ok (5 ∷ []);
  batch_write_item = λ reqs w. (none, [], suc w);
  query_pages = λ input fn s w. (run_pages pages fn s, none);
  sorter = insertion_sorter id_of;
  cache = none;
  zero_time = pos 0;
}

abbrev question : QueryInput
question = record { hash_value = []; range = none }

abbrev two_good : List (List Item)
two_good = (good_item ∷ []) ∷ (good_item ∷ []) ∷ []

abbrev bad_good : List (List Item)
bad_good = (bad_item ∷ []) ∷ (good_item ∷ []) ∷ []

abbrev read_chunk : Chunk ℤ
read_chunk = record one_chunk { bytes = [] }

good_read :
    (pages : List (List Item))
    → process_response (deps pages) none (good_item ∷ []) [] ≡ (read_chunk ∷ [], none)
unfolding process_response read_item
good_read pages = refl

bad_read : process_response (deps bad_good) none (bad_item ∷ []) [] ≡ ([], some invalid_item)
unfolding process_response read_item
bad_read = refl

query-first_page_example :
    query (deps two_good) question none 0 ≡ ok ((deps two_good).sorter.sort (read_chunk ∷ []))
query-first_page_example =
    query-first_page (deps two_good) question 0 none (good_item ∷ []) ((good_item ∷ []) ∷ [])
      (λ fn s. refl) (read_chunk ∷ []) (good_read two_good)

query_forgets_error_example :
    query (deps bad_good) question none 0 ≡ ok ((deps bad_good).sorter.sort (read_chunk ∷ []))
query_forgets_error_example =
    query_forgets_error (deps bad_good) question 0 none (bad_item ∷ []) ((good_item ∷ []) ∷ [])
      (λ fn s. refl) (good_item ∷ []) [] (read_chunk ∷ []) invalid_item refl bad_read
      (good_read bad_good)

name_run : lookup metric_name_label one_chunk.metric ≡ some (7 ∷ [])
unfolding lookup
name_run = refl

hour_run : Member (pos 0) (big_buckets (deps []).unix one_chunk.from one_chunk.through)
unfolding big_buckets hours_from hour
hour_run = inl refl

abbrev named_chunk : Chunk ℤ
named_chunk = record one_chunk { metric = (metric_name_label, 7 ∷ []) ∷ [] }

named_run : lookup metric_name_label named_chunk.metric ≡ some (7 ∷ [])
unfolding lookup
named_run = refl

only_name_run : chunk_writes (deps []) [] named_chunk ≡ ok []
only_name_run =
    chunk_writes-only_name (deps []) named_chunk (3 ∷ []) [] (7 ∷ []) named_run refl (refl, tt)

put_run : (put (deps []) (λ cs. cs) (λ bs. bs) (some []) (one_chunk ∷ []) 0).0 ≡ none
unfolding put put_chunks put_chunk update_index run_all gather_errors calculate_dynamo_writes
    chunk_writes lookup hour_writes label_writes big_buckets hours_from hour batch_requests
put_run = refl

put-success_example :
    (user_id : Text) × (some [] ≡ some user_id)
    × NoErrors (run_all (put_chunk (deps []) user_id) (one_chunk ∷ []) 0).0
    × ((reqs : List WriteRequest) × (calculate_dynamo_writes (deps []) user_id (one_chunk ∷ [])
          ≡ ok reqs)
        × NoErrors
            (run_all
              (batch_write_dynamo (deps []))
              (batch_requests reqs)
              (put_chunks (deps []) (λ cs. cs) user_id (one_chunk ∷ []) 0).1).0)
put-success_example =
    put-success (deps []) (λ cs. cs) (λ bs. bs) (some []) (one_chunk ∷ []) 0 put_run

abbrev by_name : List LabelMatcher
by_name = record { mtype = MatchType.equal; name = metric_name_label; value = 7 ∷ [] } ∷ []

abbrev in_turn : Arrivals (deps two_good)
in_turn = record { sets = λ rs. rs; fetched = λ rs. rs; taken = λ cs. map (λ c. (c, c)) cs }

get_run :
    get (deps two_good) in_turn (some []) (pos 0) (pos 10) by_name 0 ≡ (ok (one_chunk ∷ []), 0)
unfolding get lookup_chunks extract_metric_name big_buckets hours_from hour lookup_chunks_for
    lookup_chunks_for_metric_name query on_page run_pages process_response read_item unique
    unique_loop gather_merged merge cached_and_missing fetch_chunk_data gather_chunks cache_fetched
    insertion_sort insert_sorted
get_run = refl

get-success_example :
    (user_id : Text) × (some [] ≡ some user_id)
    × (chunks : List (Chunk ℤ)) × (lookup_chunks
          (deps two_good)
          in_turn.sets
          0
          user_id
          (pos 0)
          (pos 10)
          by_name
        ≡ ok chunks)
    × Permᴰ (ids (one_chunk ∷ [])) (ids chunks)
    × IsSorted id_of (one_chunk ∷ [])
get-success_example =
    get-success (deps two_good) in_turn (λ rs. Permᴰ.refl rs) (some []) (pos 0) (pos 10) by_name 0 0
      (one_chunk ∷ []) get_run
