-- ===== src/Chunk/Store.antt =====
-- chunk/chunk_store.go: what the store takes from outside, and the names of chunks and index entries.
pub mod Index
pub mod Paging
pub mod RoundTrip
pub mod Writes
pub mod Query
pub mod Objects
pub mod Fetch
pub mod Abstract
use frankenstein.Prelude.{ℕ, Bool, List, [], ◌++◌, Option, some}
use frankenstein.Prelude.Int.{ℤ}
use frankenstein.Prelude.Order.{Text, codes, Ord, text_ord}
use frankenstein.Prelude.Result.{Result, Error}
use frankenstein.Prelude.Sort.{Sorter}
use frankenstein.Model.{LabelMatcher}
use frankenstein.Chunk.Types.{Chunk, id_of}

-- dynamodb.WriteRequest, its PutRequest: the attributes "h", "r" and "c" of the item
pub record WriteRequest : Type 0 where
  pub hash_value : Text
  pub range_value : List ℕ
  pub chunk_value : List ℕ

-- An item of an answer; `none` is an attribute whose bytes are nil.
pub record Item : Type 0 where
  pub range_value : Option (List ℕ)
  pub chunk_value : Option (List ℕ)

-- DynamoDB gives an item back with the attributes that it was written with.
abbrev pub stored : WriteRequest → Item
stored r = record { range_value = some r.range_value; chunk_value = some r.chunk_value }

-- dynamodb.QueryInput: the hash to look up, and for a range the bounds of BETWEEN
pub record QueryInput : Type 0 where
  pub hash_value : Text
  pub range : Option (List ℕ × List ℕ)

module _ (Time : Type 0) where
  -- The variables that the callback of QueryPages shares with its caller.
  pub record Pages : Type 0 where
    pub chunk_set : List (Chunk Time)
    pub processing_error : Option Error

-- chunk.Cache over a memcache client
pub record Cache (W : Type 0) : Type 0 where
  pub get_multi : List Text → W → Result (List (Text × List ℕ))
  pub set_item : Text → List ℕ → W → Option Error × W

-- The clients and libraries that the store calls, over a type `W` of states of the services. Reads
-- leave the services as they are. `batch_write_item` answers with an error and UnprocessedItems.
-- `query_pages` hands the callback a page and whether it is the last,
-- for as long as it returns true.
pub record Deps (Time W : Type 0) : Type 0 where
  pub unix : Time → ℤ
  pub show_int : ℤ → Text
  pub encode : Text → Text → Text → List ℕ
  pub decode : List ℕ → Result (Text × Text × Text)
  pub marshal : Chunk Time → Result (List ℕ)
  pub unmarshal : List ℕ → Chunk Time → Result (Chunk Time)
  pub matches : LabelMatcher → Text → Bool
  pub put_object : Text → List ℕ → W → Option Error × W
  pub get_object : Text → W → Result (List ℕ)
  pub batch_write_item : List WriteRequest → W → Option Error × List WriteRequest × W
  pub query_pages :
      QueryInput
      → (List Item → Bool → Pages Time → Pages Time × Bool)
      → Pages Time
      → W
      → Pages Time × Option Error
  pub sorter : Sorter ⦃o = text_ord⦄ (id_of {Time = Time})
  pub cache : Option (Cache W)
  pub zero_time : Time

abbrev pub chunk_name : Text → Text → Text
chunk_name user_id chunk_id = user_id ++ codes "/" ++ chunk_id

module _ {Time W : Type 0} (deps : Deps Time W) where
  abbrev pub hash_value : Text → ℤ → Text → Text
  hash_value user_id hour metric_name =
      user_id ++ (codes ":" ++ (deps.show_int hour ++ (codes ":" ++ metric_name)))

  -- A chunk that has only its ID: what processResponse reads an item into.
  abbrev pub only_id : Text → Chunk Time
  only_id chunk_id = record {
    id = chunk_id;
    from = deps.zero_time;
    through = deps.zero_time;
    metric = [];
    bytes = [];
  }
