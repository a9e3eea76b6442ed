-- ===== src/Chunk/Store/Abstract/Whole.antt =====
-- chunk/chunk_store.go: `Get` refines the abstract view: the chunks that match, with their bytes.
use mathlib.Core.Option
use mathlib.Core.List.{Permᴰ}
use mathlib.Core.List.Permᴰ
use frankenstein.Prelude.{
  ℕ, ◌≡◌, refl, sym, ap, ◌∙◌, inl, inr, Bool, List, [], ◌∷◌, ◌++◌, map, Option, none, some,
  Bool-cases, All,
}
use frankenstein.Prelude.Order.{Text, text_ord}
use frankenstein.Prelude.Dict.{lookup}
use frankenstein.Prelude.Sort.{find, All-perm}
use frankenstein.Prelude.Keyed.{IsDistinct}
use frankenstein.Prelude.Distinct.{passing, kept_if, find-passing, find-map, find-key}
use frankenstein.Prelude.Gather.{arranged}
use frankenstein.Prelude.Result.{Result, ok, err, ◌>>=◌}
use frankenstein.Chunk.Types.{Chunk, id_of}
use frankenstein.Chunk.Store.{Deps, Cache, chunk_name}
use frankenstein.Chunk.Store.Objects.{
  memcache_key, split_cached, fetch_cached, fetch_one, gather_chunks, fetch_chunk_data,
  cached_and_missing,
}
use frankenstein.Chunk.Store.Abstract.{answer}
use frankenstein.Chunk.Store.Abstract.Answers.{gated, find-answer}
use frankenstein.Chunk.Store.Abstract.Gathered.{map-ext}

module _ {Time : Type 0} (cs : List (Chunk Time)) where
  -- The bytes of the chunk with an ID
  abbrev pub bytes_of : Text → List ℕ
  bytes_of k = elim (find id_of k cs) [ none ↦ [] | some c ↦ c.bytes ]

  abbrev pub whole : Chunk Time → Chunk Time
  whole c = record c { bytes = bytes_of c.id }

  -- What the cache says of a chunk is right, where it says something.
  abbrev pub IsCachedRight : Text → List (Text × List ℕ) → Chunk Time → Type 0
  IsCachedRight user_id items c =
      (value : List ℕ)
      → lookup (memcache_key user_id c.id) items ≡ some value
      → value ≡ bytes_of c.id

  module _ {W : Type 0} (deps : Deps Time W) (user_id : Text) (w : W) where
    -- S3 has the chunk's object.
    abbrev pub IsStored : Chunk Time → Type 0
    IsStored c = deps.get_object (chunk_name user_id c.id) w ≡ ok (bytes_of c.id)

    -- A list of chunks, taken apart into what is whole and what S3 has.
    abbrev Splits : List (Chunk Time) → List (Chunk Time) × List (Chunk Time) → Type 0
    Splits chunks (found, missing) =
        Permᴰ (found ++ map whole missing) (map whole chunks) × All IsStored missing

    split_cached-Splits :
        (items : List (Text × List ℕ)) (chunks : List (Chunk Time))
        → All (IsCachedRight user_id items) chunks
        → All IsStored chunks
        → Splits chunks (split_cached user_id items chunks)
    unfolding split_cached
    split_cached-Splits items [] h s = (Permᴰ.nil, tt)
    split_cached-Splits items (c ∷ chunks) h s =
        by_item (lookup (memcache_key user_id c.id) items) h.0
          (split_cached-Splits items chunks h.1 s.1)
      where
        rest : List (Chunk Time) × List (Chunk Time)
        rest = split_cached user_id items chunks

        by_item :
            (o : Option (List ℕ))
            → ((value : List ℕ) → o ≡ some value → value ≡ bytes_of c.id)
            → Splits chunks rest
            → Splits (c ∷ chunks) (elim o [
              | none ↦ (rest.0, c ∷ rest.1)
              | some value ↦ (record c { bytes = value } ∷ rest.0, rest.1)
            ])
        by_item none right ih = (
          Permᴰ.trans (Permᴰ.middle (whole c) rest.0 (map whole rest.1)) (Permᴰ.cons refl ih.0),
          (s.0, ih.1),
        )
        by_item (some value) right ih =
            (Permᴰ.cons (ap (λ b. record c { bytes = b }) (right value refl)) ih.0, ih.1)

    pub cached_and_missing-Splits :
        (chunks : List (Chunk Time))
        → ((cache : Cache W) (keys : List Text) (items : List (Text × List ℕ))
            → deps.cache ≡ some cache
            → cache.get_multi keys w ≡ ok items
            → All (IsCachedRight user_id items) chunks)
        → All IsStored chunks
        → Splits chunks (cached_and_missing deps user_id chunks w)
    unfolding cached_and_missing fetch_cached
    cached_and_missing-Splits chunks right s = by_cache deps.cache refl
      where
        by_answer :
            (r : Result (List (Text × List ℕ)))
            → ((items : List (Text × List ℕ))
                → r ≡ ok items
                → All (IsCachedRight user_id items) chunks)
            → Splits chunks
                (elim r [ err e ↦ ([], chunks) | ok items ↦ split_cached user_id items chunks ])
        by_answer (err e) f = (Permᴰ.refl (map whole chunks), s)
        by_answer (ok items) f = split_cached-Splits items chunks (f items refl) s

        by_cache :
            (o : Option (Cache W))
            → deps.cache ≡ o
            → Splits chunks
                (elim o [ none ↦ ([], chunks) | some cache ↦ fetch_cached cache user_id chunks w ])
        by_cache none e = (Permᴰ.refl (map whole chunks), s)
        by_cache (some cache) e =
            by_answer (cache.get_multi (map (λ c. memcache_key user_id c.id) chunks) w)
              (λ items f. right cache (map (λ c. memcache_key user_id c.id) chunks) items e f)

    gather_chunks-whole :
        (chunks : List (Chunk Time))
        → gather_chunks deps (map (λ c. ok (whole c)) chunks) ≡ ok (map whole chunks)
    unfolding gather_chunks
    gather_chunks-whole [] = refl
    gather_chunks-whole (c ∷ chunks) = rw (gather_chunks-whole chunks) refl

    fetch_one-whole :
        (chunks : List (Chunk Time))
        → All IsStored chunks
        → All (λ c. fetch_one deps user_id w c ≡ ok (whole c)) chunks
    fetch_one-whole [] s = tt
    fetch_one-whole (c ∷ chunks) s = (
      ap (λ (r : Result (List ℕ)). r >>= λ buf. ok (record c { bytes = buf })) s.0,
      fetch_one-whole chunks s.1,
    )

    pub fetch_chunk_data-whole :
        (arrival : List (Result (Chunk Time)) → List (Result (Chunk Time)))
        (missing : List (Chunk Time))
        → ((rs : List (Result (Chunk Time))) → Permᴰ (arrival rs) rs)
        → All IsStored missing
        → (arrived : List (Chunk Time)) × (fetch_chunk_data deps arrival user_id missing w
            ≡ ok (map whole arrived))
          × Permᴰ arrived missing
    unfolding fetch_chunk_data
    fetch_chunk_data-whole arrival missing arrives s =
        let fetch = fetch_one deps user_id w in
        let (arrived, e, d) =
          arranged fetch (arrival (map fetch missing)) missing (arrives (map fetch missing)) in
        (
          arrived,
          rw
              (
                e,
                map-ext fetch (λ c. ok (whole c)) arrived
                    (fetch_one-whole arrived (All-perm IsStored d s)),
              )
              (gather_chunks-whole arrived),
          d,
        )

  module _ (distinct : IsDistinct id_of cs) (p : Chunk Time → Bool) where
    -- With its bytes, a chunk that was found is the chunk.
    whole-gated :
        (k : Text)
        → Option.map whole (gated p (find id_of k cs)) ≡ kept_if id_of p (find id_of k cs)
    whole-gated k = by_found (find id_of k cs) refl
      where
        by_found :
            (o : Option (Chunk Time))
            → find id_of k cs ≡ o
            → Option.map whole (gated p o) ≡ kept_if id_of p o
        by_found none e = refl
        by_found (some c) e = elim (Bool-cases (p c)) [
          | inr f ↦ rw f refl
          | inl f ↦ rw f (
              ap (λ b. some (record c { bytes = b }))
                (ap (λ (o : Option (Chunk Time)). elim o [ none ↦ [] | some d ↦ d.bytes ])
                  (ap (λ j. find id_of j cs) (find-key id_of k c cs e) ∙ e)))
        ]

    pub find-whole :
        (k : Text) → find id_of k (map whole (answer p cs)) ≡ find id_of k (passing id_of p cs)
    find-whole k =
        find-map id_of whole (λ c. refl) k (answer p cs)
        ∙ ap (Option.map whole) (find-answer k p cs distinct)
        ∙ whole-gated k
        ∙ sym (find-passing id_of k p cs distinct)
