-- ===== src/Chunk/Store/Abstract/Services.antt =====
-- What the store relies on of DynamoDB, S3 and memcache as they change: a view of the state of each,
-- and how each call changes the views.
use mathlib.Core.List.{Permᴰ}
use frankenstein.Prelude.{
  ℕ, ◌≡◌, ◌+◌, length, refl, ◌⊎◌, Bool, true, false, ◌||◌, List, [], ◌∷◌, ◌++◌, Option, none, some,
  if◌then◌else◌, arith, All, map,
}
use frankenstein.Prelude.Order.{Text, text_ord}
use frankenstein.Prelude.Dict.{lookup}
use frankenstein.Prelude.Result.{ok}
use frankenstein.Prelude.Pairwise.{Pairwise}
use frankenstein.Chunk.Store.{Deps, Cache, WriteRequest, Item, QueryInput, Pages, stored}
use frankenstein.Chunk.Store.Abstract.{selected}
use frankenstein.Chunk.Store.Abstract.Keys.{has_same_key, AreApart}

-- Whether requests put an item under the key of an entry.
abbrev pub is_put : List WriteRequest → WriteRequest → Bool
is_put [] r = false
is_put (q ∷ reqs) r = has_same_key q r || is_put reqs r

-- The entries that requests leave as they are
abbrev pub not_put : List WriteRequest → List WriteRequest → List WriteRequest
not_put reqs [] = []
not_put reqs (r ∷ rs) = if is_put reqs r then not_put reqs rs else r ∷ not_put reqs rs

-- The table of DynamoDB: its items, and how many requests it has given back unprocessed so far.
pub record Table : Type 0 where
  pub entries : List WriteRequest
  pub given_back : ℕ

pub record Services {Time W : Type 0} (deps : Deps Time W) : Type 0 where
  -- The table, the objects of the bucket, the values in memcache
  pub table : W → Table
  pub object : W → Text → Option (List ℕ)
  pub cached : W → Text → Option (List ℕ)
  -- In which order a query gives the entries under its key condition.
  pub page : QueryInput → W → List WriteRequest
  pub put_object_ok :
      (name : Text) (bytes : List ℕ) (w : W)
      → (deps.put_object name bytes w).0 ≡ none
      → let w1 = (deps.put_object name bytes w).1 in
        (table w1 ≡ table w)
        × ((k : Text) → object w1 k ≡ (if text_ord.same name k then some bytes else object w k))
        × ((k : Text) → cached w1 k ≡ cached w k)
  pub get_object_ok :
      (name : Text) (bytes : List ℕ) (w : W)
      → (object w name ≡ some bytes → deps.get_object name w ≡ ok bytes)
        × (deps.get_object name w ≡ ok bytes → object w name ≡ some bytes)
  -- Without an error, DynamoDB may give requests of a batch back.
  pub batch_write_back :
      (reqs : List WriteRequest) (w : W)
      → (deps.batch_write_item reqs w).0 ≡ none
      → let (error, unprocessed, w1) = deps.batch_write_item reqs w in
        (table w1).given_back ≡ length unprocessed + (table w).given_back
  -- When it gives none back, it has put the items of a batch without two items of one key, in place of
  -- those with their keys.
  pub batch_write_ok :
      (reqs : List WriteRequest) (w : W)
      → Pairwise AreApart reqs
      → (deps.batch_write_item reqs w).0 ≡ none
      → (deps.batch_write_item reqs w).1 ≡ []
      → let w1 = (deps.batch_write_item reqs w).2 in
        Permᴰ (table w1).entries (reqs ++ not_put reqs (table w).entries)
        × ((k : Text) → object w1 k ≡ object w k)
        × ((k : Text) → cached w1 k ≡ cached w k)
  -- A query is answered with one page.
  pub query_ok :
      (input : QueryInput) (w : W)
      → Permᴰ (page input w) (selected input (table w).entries)
        × ((fn : List Item → Bool → Pages Time → Pages Time × Bool) (s : Pages Time)
            → deps.query_pages input fn s w ≡ ((fn (map stored (page input w)) true s).0, none))
  -- Memcache forgets at will, but has nothing that was not set.
  pub set_item_ok :
      (cache : Cache W) (key : Text) (value : List ℕ) (w : W)
      → deps.cache ≡ some cache
      → let w1 = (cache.set_item key value w).1 in
        (table w1 ≡ table w)
        × ((k : Text) → object w1 k ≡ object w k)
        × ((k : Text) (b : List ℕ)
            → cached w1 k ≡ some b
            → (cached w k ≡ some b) ⊎ ((key ≡ k) × (value ≡ b)))
  pub get_multi_ok :
      (cache : Cache W) (keys : List Text) (items : List (Text × List ℕ)) (w : W)
      → deps.cache ≡ some cache
      → cache.get_multi keys w ≡ ok items
      → (k : Text) (b : List ℕ) → lookup k items ≡ some b
      → cached w k ≡ some b

pub AreApart-flip : (r s : WriteRequest) → AreApart r s → AreApart s r
AreApart-flip r s h = ground (
  arith,
  h,
  text_ord.same_iff r.hash_value s.hash_value,
  text_ord.same_iff s.hash_value r.hash_value,
  text_ord.same_iff r.range_value s.range_value,
  text_ord.same_iff s.range_value r.range_value,
)

is_put-apart :
    (r : WriteRequest) (reqs : List WriteRequest) → All (AreApart r) reqs → is_put reqs r ≡ false
is_put-apart r [] h = refl
is_put-apart r (q ∷ reqs) h = rw (AreApart-flip r q h.0, is_put-apart r reqs h.1) refl

-- Requests with other keys leave all entries as they are.
pub not_put-apart :
    (reqs rs : List WriteRequest) → All (λ r. All (AreApart r) reqs) rs → not_put reqs rs ≡ rs
not_put-apart reqs [] h = refl
not_put-apart reqs (r ∷ rs) h = rw (is_put-apart r reqs h.0, not_put-apart reqs rs h.1) refl
