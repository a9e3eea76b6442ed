-- ===== src/Chunk/Store/Abstract/Found.antt =====
-- chunk/chunk_store.go: what `Get` makes of the chunks that its lookup finds, given what S3 and the
-- cache hold.
use mathlib.Core.List.{Permᴰ}
use mathlib.Core.List.Permᴰ
use frankenstein.Prelude.{
  ℕ, ◌≡◌, refl, sym, ap, ◌∙◌, Bool, List, [], ◌∷◌, ◌++◌, map, Option, none, some, All, All-map,
  All-zip,
}
use frankenstein.Prelude.Order.{Text, text_ord}
use frankenstein.Prelude.Dict.{lookup}
use frankenstein.Prelude.Sort.{All-perm}
use frankenstein.Prelude.Keyed.{IsDistinct}
use frankenstein.Prelude.Distinct.{
  passing, All-passing, passing-IsDistinct, map-IsDistinct, find-perm, IsDistinct-perm,
  sort-IsStrict, sorted_unique, ComesFrom-find,
}
use frankenstein.Prelude.Result.{Result, ok}
use frankenstein.Chunk.Types.{Chunk, id_of}
use frankenstein.Chunk.Store.{Deps, Cache, chunk_name}
use frankenstein.Chunk.Store.Objects.{memcache_key, fetch_chunk_data, cached_and_missing}
use frankenstein.Chunk.Store.Abstract.{bare, answer}
use frankenstein.Chunk.Store.Abstract.Answers.{answer-IsDistinct}
use frankenstein.Chunk.Store.Abstract.Whole.{
  bytes_of, whole, IsCachedRight, IsStored, cached_and_missing-Splits, fetch_chunk_data-whole,
  find-whole,
}

-- Every answer of the cache that has a chunk has its bytes.
abbrev pub HoldsBytes : {Time W : Type 0} → Deps Time W → Text → List (Chunk Time) → W → Type 0
HoldsBytes {Time} {W} deps user_id cs w =
    (cache : Cache W) (keys : List Text) (items : List (Text × List ℕ))
    → deps.cache ≡ some cache
    → cache.get_multi keys w ≡ ok items
    → All
        (λ c.
          (value : List ℕ)
          → lookup (memcache_key user_id c.id) items ≡ some value
          → value ≡ c.bytes)
        cs

module _ {Time W : Type 0} (deps : Deps Time W) (user_id : Text) (cs : List (Chunk Time)) (w : W)
    (distinct : IsDistinct id_of cs)
    (stored : All (λ c. deps.get_object (chunk_name user_id c.id) w ≡ ok c.bytes) cs)
    (cached : HoldsBytes deps user_id cs w) (p : Chunk Time → Bool) where
  abbrev found : List (Chunk Time)
  found = deps.sorter.sort (answer p cs)

  bytes_of-id : All (λ c. bytes_of cs c.id ≡ c.bytes) cs
  bytes_of-id =
      All-map (λ c e. ap (λ (o : Option (Chunk Time)). elim o [ none ↦ [] | some d ↦ d.bytes ]) e)
        cs (ComesFrom-find id_of cs distinct)

  All-bare :
      (P : Chunk Time → Type 0) (keeps : (c : Chunk Time) → P c → P (bare c))
      (xs : List (Chunk Time))
      → All P xs
      → All P (map bare xs)
  All-bare P keeps [] h = tt
  All-bare P keeps (x ∷ xs) h = (keeps x h.0, All-bare P keeps xs h.1)

  -- What holds of the chunks, whatever their bytes, holds of those that are found.
  All-found :
      (P : Chunk Time → Type 0) → ((c : Chunk Time) → P c → P (bare c)) → All P cs → All P found
  All-found P keeps h =
      All-perm P (deps.sorter.sort-perm (answer p cs))
        (All-bare P keeps (passing id_of p cs) (All-passing id_of P p cs h))

  found-IsStored : All (IsStored cs deps user_id w) found
  found-IsStored =
      All-found (IsStored cs deps user_id w) (λ c h. h)
        (All-zip (λ c e s. s ∙ ap ok (sym e)) cs bytes_of-id stored)

  found-IsCachedRight :
      (cache : Cache W) (keys : List Text) (items : List (Text × List ℕ))
      → deps.cache ≡ some cache
      → cache.get_multi keys w ≡ ok items
      → All (IsCachedRight cs user_id items) found
  found-IsCachedRight cache keys items e f =
      All-found (IsCachedRight cs user_id items) (λ c h. h)
        (All-zip (λ c e r value l. r value l ∙ sym e) cs bytes_of-id (cached cache keys items e f))

  -- In whatever order they arrive, the cached and the fetched chunks are the chunks that pass.
  pub fetched-answer :
      (arrival : List (Result (Chunk Time)) → List (Result (Chunk Time)))
      → ((rs : List (Result (Chunk Time))) → Permᴰ (arrival rs) rs)
      → let parts = cached_and_missing deps user_id found w in
        (from_s3 : List (Chunk Time)) × (fetch_chunk_data deps arrival user_id parts.1 w
          ≡ ok from_s3)
        × (deps.sorter.sort (parts.0 ++ from_s3) ≡ deps.sorter.sort (passing id_of p cs))
  fetched-answer arrival arrives =
      let parts = cached_and_missing deps user_id found w in
      let (splits, missing_stored) =
        cached_and_missing-Splits cs deps user_id w found found-IsCachedRight found-IsStored in
      let (arrived, fetches, d) =
        fetch_chunk_data-whole cs deps user_id w arrival parts.1 arrives missing_stored in
      let all_whole : Permᴰ (parts.0 ++ map (whole cs) arrived) (map (whole cs) (answer p cs)) =
        Permᴰ.trans (Permᴰ.append_left parts.0 (Permᴰ.map (whole cs) d))
          (Permᴰ.trans splits (Permᴰ.map (whole cs) (deps.sorter.sort-perm (answer p cs)))) in
      let whole_distinct : IsDistinct id_of (map (whole cs) (answer p cs)) =
        map-IsDistinct id_of (whole cs) (λ c. refl) (answer p cs)
          (answer-IsDistinct p cs distinct) in
      (
        map (whole cs) arrived,
        fetches,
        sorted_unique id_of deps.sorter (passing id_of p cs)
            (deps.sorter.sort (parts.0 ++ map (whole cs) arrived))
            (passing-IsDistinct id_of p cs distinct)
            (sort-IsStrict id_of deps.sorter (parts.0 ++ map (whole cs) arrived)
              (IsDistinct-perm id_of all_whole whole_distinct))
            λ k.
              find-perm id_of k whole_distinct
                (Permᴰ.trans (deps.sorter.sort-perm (parts.0 ++ map (whole cs) arrived)) all_whole)
              ∙ find-whole cs distinct p k,
      )
