-- ===== src/Chunk/Store/Fetch.antt =====
-- The chunks that a `Get` returns, by their IDs.
use frankenstein.Chunk.Store.Query.{lookup_chunks}
use frankenstein.Model.{LabelMatcher}
use frankenstein.User.{Context}
use mathlib.Core.Path.{subst}
use mathlib.Core.List.{Permᴰ}
use mathlib.Core.List.Permᴰ
use frankenstein.Prelude.{
  ℕ, List, [], ◌∷◌, ◌++◌, map, Option, none, some, ◌≡◌, refl, sym, All, Nothing, ap, arith,
}
use frankenstein.Prelude.Order.{Text, text_ord}
use frankenstein.Prelude.Dict.{lookup}
use frankenstein.Prelude.Sort.{All-perm, IsSorted}
use frankenstein.Prelude.Result.{Result, ok, err, ◌>>=◌}
use frankenstein.Chunk.Types.{Chunk, id_of}
use frankenstein.Chunk.Store.{Deps, Cache, LabelMatcher}
use frankenstein.Chunk.Store.Objects.{
  memcache_key, split_cached, fetch_cached, fetch_one, gather_chunks, fetch_chunk_data,
  cached_and_missing, Arrivals, get,
}

module _ {Time : Type 0} where
  abbrev pub ids : List (Chunk Time) → List Text
  ids chunks = map id_of chunks

  split_cached-ids :
      (user_id : Text) (items : List (Text × List ℕ)) (chunks : List (Chunk Time))
      → let parts = split_cached user_id items chunks in
        Permᴰ (ids parts.0 ++ ids parts.1) (ids chunks)
  unfolding split_cached
  split_cached-ids user_id items [] = Permᴰ.nil
  split_cached-ids user_id items (c ∷ chunks) =
      by_item (lookup (memcache_key user_id c.id) items) (split_cached-ids user_id items chunks)
    where
      rest : List (Chunk Time) × List (Chunk Time)
      rest = split_cached user_id items chunks

      by_item :
          (o : Option (List ℕ))
          → Permᴰ (ids rest.0 ++ ids rest.1) (ids chunks)
          → let parts : List (Chunk Time) × List (Chunk Time) = elim o [
            | none ↦ (rest.0, c ∷ rest.1)
            | some value ↦ (record c { bytes = value } ∷ rest.0, rest.1)
          ] in
            Permᴰ (ids parts.0 ++ ids parts.1) (ids (c ∷ chunks))
      by_item none ih =
          Permᴰ.trans (Permᴰ.middle c.id (ids rest.0) (ids rest.1)) (Permᴰ.cons refl ih)
      by_item (some value) ih = Permᴰ.cons refl ih

  abbrev IsOk : Result (Chunk Time) → Type 0
  IsOk (ok c) = Unit
  IsOk (err e) = Nothing

  abbrev id_of_result : Result (Chunk Time) → Text
  id_of_result (ok c) = c.id
  id_of_result (err e) = []

module _ {Time W : Type 0} (deps : Deps Time W) where
  cached_and_missing-ids :
      (user_id : Text) (chunks : List (Chunk Time)) (w : W)
      → let parts = cached_and_missing deps user_id chunks w in
        Permᴰ (ids parts.0 ++ ids parts.1) (ids chunks)
  unfolding cached_and_missing fetch_cached
  cached_and_missing-ids user_id chunks w = by_cache deps.cache
    where
      by_answer :
          (r : Result (List (Text × List ℕ)))
          → let parts : List (Chunk Time) × List (Chunk Time) = elim r [
            | err e ↦ ([], chunks)
            | ok items ↦ split_cached user_id items chunks
          ] in
            Permᴰ (ids parts.0 ++ ids parts.1) (ids chunks)
      by_answer (err e) = Permᴰ.refl (ids chunks)
      by_answer (ok items) = split_cached-ids user_id items chunks

      by_cache :
          (o : Option (Cache W))
          → let parts : List (Chunk Time) × List (Chunk Time) = elim o [
            | none ↦ ([], chunks)
            | some cache ↦ fetch_cached cache user_id chunks w
          ] in
            Permᴰ (ids parts.0 ++ ids parts.1) (ids chunks)
      by_cache none = Permᴰ.refl (ids chunks)
      by_cache (some cache) =
          by_answer (cache.get_multi (map (λ c. memcache_key user_id c.id) chunks) w)

  gather_chunks-ids :
      (rs : List (Result (Chunk Time))) (got : List (Chunk Time))
      → gather_chunks deps rs ≡ ok got
      → (ids got ≡ map id_of_result rs) × All IsOk rs
  unfolding gather_chunks
  gather_chunks-ids [] got h = (cc, tt)
  gather_chunks-ids (err e ∷ rs) got h = cc
  gather_chunks-ids (ok c ∷ rs) got h =
      go (gather_chunks deps rs) (λ later. gather_chunks-ids rs later) refl
    where
      go :
          (r : Result (List (Chunk Time)))
          → ((later : List (Chunk Time))
              → gather_chunks deps rs ≡ ok later
              → (ids later ≡ map id_of_result rs) × All IsOk rs)
          → gather_chunks deps rs ≡ r
          → (ids got ≡ map id_of_result (ok c ∷ rs)) × All IsOk (ok c ∷ rs)
      go (err e) ih q = cc (rw (q, gather_chunks) at h)
      go (ok later) ih q =
          let (same, all_ok) = ih later q in (cc (rw (q, gather_chunks) at h, same), (tt, all_ok))

  fetch_one-id :
      (user_id : Text) (w : W) (c : Chunk Time)
      → IsOk (fetch_one deps user_id w c)
      → id_of_result (fetch_one deps user_id w c) ≡ c.id
  fetch_one-id user_id w c h = go (deps.get_object _ w) h
    where
      go :
          (r : Result (List ℕ))
          → IsOk (r >>= λ buf. ok (record c { bytes = buf }))
          → id_of_result (r >>= λ buf. ok (record c { bytes = buf })) ≡ c.id
      go (ok buf) g = refl
      go (err e) g = elim g [ ]

  map-fetch_one :
      (user_id : Text) (w : W) (chunks : List (Chunk Time))
      → All IsOk (map (fetch_one deps user_id w) chunks)
      → map id_of_result (map (fetch_one deps user_id w) chunks) ≡ ids chunks
  map-fetch_one user_id w [] h = refl
  map-fetch_one user_id w (c ∷ chunks) h =
      cc (fetch_one-id user_id w c h.0, map-fetch_one user_id w chunks h.1)

  fetch_chunk_data-ids :
      (arrival : List (Result (Chunk Time)) → List (Result (Chunk Time))) (user_id : Text)
      (chunks : List (Chunk Time)) (w : W) (got : List (Chunk Time))
      → ((rs : List (Result (Chunk Time))) → Permᴰ (arrival rs) rs)
      → fetch_chunk_data deps arrival user_id chunks w ≡ ok got
      → Permᴰ (ids got) (ids chunks)
  unfolding fetch_chunk_data
  fetch_chunk_data-ids arrival user_id chunks w got arrives h =
      let rs = map (fetch_one deps user_id w) chunks in
      let (same, all_ok) = gather_chunks-ids (arrival rs) got h in
      let in_order =
        map-fetch_one user_id w chunks (All-perm IsOk (Permᴰ.symm (arrives rs)) all_ok) in
      subst (λ xs. Permᴰ xs (ids chunks)) (sym same)
        (subst (λ ys. Permᴰ (map id_of_result (arrival rs)) ys) in_order
          (Permᴰ.map id_of_result (arrives rs)))

  ids-append : (xs ys : List (Chunk Time)) → ids (xs ++ ys) ≡ ids xs ++ ids ys
  ids-append [] ys = refl
  ids-append (x ∷ xs) ys = ap (◌∷◌ x.id) (ids-append xs ys)

  module _ (arrivals : Arrivals deps)
      (arrives : (rs : List (Result (Chunk Time))) → Permᴰ (arrivals.fetched rs) rs) where
    -- What the chunks of `Get` are, given those that the lookup has found.
    fetched-ids :
        (user_id : Text) (chunks from_s3 : List (Chunk Time)) (w : W)
        → let parts = cached_and_missing deps user_id chunks w in
          fetch_chunk_data deps arrivals.fetched user_id parts.1 w ≡ ok from_s3
          → Permᴰ (ids (deps.sorter.sort (parts.0 ++ from_s3))) (ids chunks)
    fetched-ids user_id chunks from_s3 w h =
        let parts = cached_and_missing deps user_id chunks w in
        Permᴰ.trans (Permᴰ.map id_of (deps.sorter.sort-perm (parts.0 ++ from_s3))) (
          subst (λ xs. Permᴰ xs (ids chunks)) (sym (ids-append parts.0 from_s3))
            (Permᴰ.trans
              (Permᴰ.append_left (ids parts.0)
                (fetch_chunk_data-ids arrivals.fetched user_id parts.1 w from_s3 arrives h))
              (cached_and_missing-ids user_id chunks w)))

    -- A `Get` that succeeds, in whatever order its goroutines' results arrive, has a user, and returns
    -- exactly the chunks that the lookup has found, by their IDs and as often as there, in order of ID:
    -- what the cache has and what S3 has make up all of them.
    pub get-success :
        (ctx : Context) (from through : Time) (matchers : List LabelMatcher) (w final : W)
        (got : List (Chunk Time))
        → get deps arrivals ctx from through matchers w ≡ (ok got, final)
        → (user_id : Text) × (ctx ≡ some user_id)
          × (chunks : List (Chunk Time)) × (lookup_chunks deps arrivals.sets w user_id from through
                matchers
              ≡ ok chunks)
          × Permᴰ (ids got) (ids chunks)
          × IsSorted id_of got
    unfolding get
    get-success none from through matchers w final got h = cc
    get-success (some user_id) from through matchers w final got h =
        go (lookup_chunks deps arrivals.sets w user_id from through matchers) refl
      where
        Claim : Type 0
        Claim =
            (u : Text) × (some user_id ≡ some u)
            × (chunks : List (Chunk Time)) × (lookup_chunks deps arrivals.sets w u from through
                  matchers
                ≡ ok chunks)
            × Permᴰ (ids got) (ids chunks)
            × IsSorted id_of got

        fetch :
            (chunks : List (Chunk Time)) (r : Result (List (Chunk Time)))
            → lookup_chunks deps arrivals.sets w user_id from through matchers ≡ ok chunks
            → fetch_chunk_data deps arrivals.fetched user_id
                (cached_and_missing deps user_id chunks w).1
                w
              ≡ r
            → Claim
        fetch chunks (err e) q p = cc (rw (q, p, get) at h)
        fetch chunks (ok from_s3) q p =
            let same : got
                ≡ deps.sorter.sort ((cached_and_missing deps user_id chunks w).0 ++ from_s3) =
              ground (arith, q, p, h) in
            (
              user_id,
              refl,
              chunks,
              q,
              subst (λ xs. Permᴰ (ids xs) (ids chunks)) (sym same)
                  (fetched-ids user_id chunks from_s3 w p),
              subst (IsSorted id_of) (sym same) (deps.sorter.sort-IsSorted _),
            )

        go :
            (r : Result (List (Chunk Time)))
            → lookup_chunks deps arrivals.sets w user_id from through matchers ≡ r
            → Claim
        go (err e) q = cc (rw (q, get) at h)
        go (ok chunks) q = fetch chunks _ q refl
