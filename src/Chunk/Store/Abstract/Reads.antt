-- ===== src/Chunk/Store/Abstract/Reads.antt =====
-- chunk/chunk_store.go: what `Get` changes: the cache, and only by objects that it has fetched.
use mathlib.Core.List.{Permᴰ}
use mathlib.Core.Path.{subst}
use frankenstein.Prelude.{
  ℕ, ◌≡◌, refl, sym, ap, ◌∙◌, inl, inr, List, [], ◌∷◌, map, none, some, All, All-map, Member,
  All-Member, Option-cases,
}
use frankenstein.Prelude.Order.{Text}
use frankenstein.Prelude.Sort.{All-perm}
use frankenstein.Prelude.Result.{Result, ok, err, Result-cases, ok-inj, ◌>>=◌}
use frankenstein.User.{Context}
use frankenstein.Model.{LabelMatcher}
use frankenstein.Chunk.Types.{Chunk}
use frankenstein.Chunk.Store.{Deps, Cache, chunk_name}
use frankenstein.Chunk.Store.Query.{lookup_chunks}
use frankenstein.Chunk.Store.Objects.{
  run_all, fetch_one, gather_chunks, fetch_chunk_data, store_chunk_data, store_chunks, read_twice,
  cached_and_missing, cache_fetched, Arrivals, get,
}
use frankenstein.Chunk.Store.Abstract.Services.{Services}
use frankenstein.Chunk.Store.Abstract.Puts.{IsCoherent, cache_set-IsCoherent}

module _ {Time W : Type 0} (deps : Deps Time W) (services : Services deps) where
  -- A state differs from another in nothing but the cache, which has nothing but what S3 has.
  abbrev pub OnlyCaches : W → W → Type 0
  OnlyCaches w w1 =
      (services.table w1 ≡ services.table w)
      × ((k : Text) → services.object w1 k ≡ services.object w k)
      × IsCoherent deps services w1

  -- A chunk is whole: S3 has its bytes.
  abbrev IsWhole : Text → W → Chunk Time → Type 0
  IsWhole user_id w c = services.object w (chunk_name user_id c.id) ≡ some c.bytes

  run_all-store_chunk_data :
      (cache : Cache W) (user_id : Text) (cs : List (Chunk Time)) (w : W)
      → deps.cache ≡ some cache
      → All (IsWhole user_id w) cs
      → IsCoherent deps services w
      → OnlyCaches w (run_all (store_chunk_data cache user_id) cs w).1
  unfolding run_all
  run_all-store_chunk_data cache user_id [] w e h o = (refl, (λ k. refl), o)
  run_all-store_chunk_data cache user_id (c ∷ cs) w e h o =
      let w1 = (store_chunk_data cache user_id c w).1 in
      let (entries, objects, cached) =
        services.set_item_ok cache (chunk_name user_id c.id) c.bytes w e in
      let right =
        cache_set-IsCoherent deps services user_id cache (chunk_name user_id c.id) c.bytes w e h.0
          o in
      let (entries', objects', last) =
        run_all-store_chunk_data cache user_id cs w1 e
          (All-map (λ d s. objects (chunk_name user_id d.id) ∙ s) cs h.1) right in
      (entries' ∙ entries, (λ k. objects' k ∙ objects k), last)

  -- Each goroutine of StoreChunks finds one of the chunks in the variable that they share, and still
  -- finds it there when it reads a second time.
  abbrev pub TakesWhole : Arrivals deps → Type 0
  TakesWhole arrivals =
      (cs : List (Chunk Time))
      → All (λ (taken : Chunk Time × Chunk Time). Member taken.0 cs × (taken.1 ≡ taken.0))
          (arrivals.taken cs)

  map-read_twice :
      (user_id : Text) (w : W) (cs : List (Chunk Time)) (taken : List (Chunk Time × Chunk Time))
      → All (IsWhole user_id w) cs
      → All (λ (t : Chunk Time × Chunk Time). Member t.0 cs × (t.1 ≡ t.0)) taken
      → All (IsWhole user_id w) (map read_twice taken)
  map-read_twice user_id w cs [] whole h = tt
  map-read_twice user_id w cs ((c, d) ∷ taken) whole ((m, same), h) = (
    All-Member (IsWhole user_id w) cs whole m ∙ ap (λ (x : Chunk Time). some x.bytes) (sym same),
    map-read_twice user_id w cs taken whole h,
  )

  abbrev GivesWhole : Text → W → Result (Chunk Time) → Type 0
  GivesWhole user_id w r = (c : Chunk Time) → r ≡ ok c → IsWhole user_id w c

  map-fetch_one :
      (user_id : Text) (w : W) (cs : List (Chunk Time))
      → All (GivesWhole user_id w) (map (fetch_one deps user_id w) cs)
  map-fetch_one user_id w [] = tt
  map-fetch_one user_id w (c ∷ cs) =
      (one (deps.get_object (chunk_name user_id c.id) w) refl, map-fetch_one user_id w cs)
    where
      one :
          (r : Result (List ℕ))
          → deps.get_object (chunk_name user_id c.id) w ≡ r
          → GivesWhole user_id w (r >>= λ buf. ok (record c { bytes = buf }))
      one (err e) q d h = cc
      one (ok buf) q d h =
          subst (IsWhole user_id w) (ok-inj (record c { bytes = buf }) d h)
            ((services.get_object_ok (chunk_name user_id c.id) buf w).1 q)

  gather_chunks-IsWhole :
      (user_id : Text) (w : W) (rs : List (Result (Chunk Time))) (cs : List (Chunk Time))
      → All (GivesWhole user_id w) rs
      → gather_chunks deps rs ≡ ok cs
      → All (IsWhole user_id w) cs
  unfolding gather_chunks
  gather_chunks-IsWhole user_id w [] [] h e = tt
  gather_chunks-IsWhole user_id w [] (c ∷ cs) h e = cc
  gather_chunks-IsWhole user_id w (err f ∷ rs) cs h e = cc
  gather_chunks-IsWhole user_id w (ok c ∷ rs) cs h e = elim (Result-cases (gather_chunks deps rs)) [
    | inl (f, q) ↦ cc (rw (q, gather_chunks) at e)
    | inr (ds, q) ↦
        subst (All (IsWhole user_id w)) (ok-inj (c ∷ ds) cs (rw (q, gather_chunks) at e))
          (h.0 c refl, gather_chunks-IsWhole user_id w rs ds h.1 q)
  ]

  module _ (arrivals : Arrivals deps)
      (chunks_arrive : (rs : List (Result (Chunk Time))) → Permᴰ (arrivals.fetched rs) rs)
      (takes : TakesWhole arrivals) where
    cache_fetched-OnlyCaches :
        (user_id : Text) (w : W) (taken : List (Chunk Time × Chunk Time))
        → All (IsWhole user_id w) (map read_twice taken)
        → IsCoherent deps services w
        → OnlyCaches w (cache_fetched deps user_id taken w)
    unfolding store_chunks
    cache_fetched-OnlyCaches user_id w taken h o = elim (Option-cases deps.cache) [
      | inl e ↦ rw e (refl, (λ k. refl), o)
      | inr (cache, e) ↦
          rw e (run_all-store_chunk_data cache user_id (map read_twice taken) w e h o)
    ]

    -- Get, by whoever and whatever comes of it, changes nothing but the cache, and a cache that
    -- has nothing but what S3 has under the same name still has nothing else, as long as every
    -- goroutine of StoreChunks finds one of the chunks in the variable that they share, the
    -- same when it reads the ID and the data. Reads of S3 give what it holds, and memcache has
    -- nothing that was not set.
    pub get-OnlyCaches :
        (ctx : Context) (from through : Time) (matchers : List LabelMatcher) (w : W)
        → IsCoherent deps services w
        → OnlyCaches w (get deps arrivals ctx from through matchers w).1
    unfolding get fetch_chunk_data
    get-OnlyCaches none from through matchers w o = (refl, (λ k. refl), o)
    get-OnlyCaches (some user_id) from through matchers w o =
        elim (Result-cases (lookup_chunks deps arrivals.sets w user_id from through matchers)) [
          | inl (e, q) ↦ rw (q, get) (refl, (λ k. refl), o)
          | inr (chunks, q) ↦
              let missing = (cached_and_missing deps user_id chunks w).1 in
              elim (Result-cases (fetch_chunk_data deps arrivals.fetched user_id missing w)) [
                | inl (e, f) ↦ rw (q, f, get) (refl, (λ k. refl), o)
                | inr (from_s3, f) ↦
                    rw (q, f, get)
                      (cache_fetched-OnlyCaches user_id w (arrivals.taken from_s3)
                        (map-read_twice user_id w from_s3 (arrivals.taken from_s3)
                          (gather_chunks-IsWhole user_id w _ from_s3
                            (All-perm _ (chunks_arrive _) (map-fetch_one user_id w missing)) f)
                          (takes from_s3))
                        o)
              ]
        ]
