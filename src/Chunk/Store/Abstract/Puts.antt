-- ===== src/Chunk/Store/Abstract/Puts.antt =====
-- chunk/chunk_store.go: what the writes of chunks by `Put` leave in S3 and in the cache.
use mathlib.Core.List.Permᴰ
use mathlib.Core.Path.{subst}
use frankenstein.Prelude.{
  ℕ, ◌≡◌, refl, sym, ap, ◌∙◌, inl, inr, List, [], ◌∷◌, ◌++◌, Option, none, some, arith, Bool-cases,
  Option-cases,
}
use frankenstein.Prelude.Order.{Text, codes, text_ord}
use frankenstein.Prelude.Sort.{find}
use frankenstein.Prelude.Keyed.{
  count_key, count_key-append, count_of_head, find_of_count, IsDistinct,
}
use frankenstein.Prelude.Distinct.{find-perm, IsDistinct-perm}
use frankenstein.Prelude.Strict.{find_head}
use frankenstein.Chunk.Types.{Chunk, id_of}
use frankenstein.Chunk.Store.{Deps, Cache, chunk_name}
use frankenstein.Chunk.Store.Objects.{run_all, put_chunk, store_chunk_data}
use frankenstein.Chunk.Store.Writes.{NoErrors}
use frankenstein.Chunk.Store.Abstract.Hash.{text_same-front}
use frankenstein.Chunk.Store.Abstract.Services.{Services, Table}

abbrev pub bytes_found : {Time : Type 0} → Option (Chunk Time) → Option (List ℕ)
bytes_found o = elim o [ none ↦ none | some c ↦ some c.bytes ]

-- The bytes of the chunk with an ID
abbrev pub file : {Time : Type 0} → List (Chunk Time) → Text → Option (List ℕ)
file cs id = bytes_found (find id_of id cs)

module _ {Time W : Type 0} (deps : Deps Time W) (services : Services deps) where
  -- S3 holds the chunks of a user and no others of that user.
  abbrev pub IsFiled : Text → List (Chunk Time) → W → Type 0
  IsFiled user_id cs w = (id : Text) → services.object w (chunk_name user_id id) ≡ file cs id

  -- The cache has nothing but what S3 has.
  abbrev pub IsCoherent : W → Type 0
  IsCoherent w =
      (k : Text) (b : List ℕ) → services.cached w k ≡ some b → services.object w k ≡ some b

  module _ (user_id : Text) where
    pub cache_set-IsCoherent :
        (cache : Cache W) (key : Text) (value : List ℕ) (w : W)
        → deps.cache ≡ some cache
        → services.object w key ≡ some value
        → IsCoherent w
        → IsCoherent (cache.set_item key value w).1
    cache_set-IsCoherent cache key value w e o h k b q =
        let (entries, objects, cached) = services.set_item_ok cache key value w e in
        objects k ∙ elim (cached k b q) [
          | inl old ↦ h k b old
          | inr (same, bytes) ↦ subst (λ j. services.object w j ≡ some b) same (o ∙ ap some bytes)
        ]

    put_object-IsFiled :
        (c : Chunk Time) (cs : List (Chunk Time)) (w : W)
        → (deps.put_object (chunk_name user_id c.id) c.bytes w).0 ≡ none
        → IsFiled user_id cs w
        → IsFiled user_id (c ∷ cs) (deps.put_object (chunk_name user_id c.id) c.bytes w).1
    put_object-IsFiled c cs w h filed id =
        let (entries, objects, cached) =
          services.put_object_ok (chunk_name user_id c.id) c.bytes w h in
        objects (chunk_name user_id id) ∙ elim (Bool-cases (text_ord.same c.id id)) [
          | inl e ↦ rw (names id ∙ e, e) refl
          | inr e ↦ rw (names id ∙ e, e) (filed id)
        ]
      where
        names :
            (id : Text)
            → text_ord.same (chunk_name user_id c.id) (chunk_name user_id id)
              ≡ text_ord.same c.id id
        names id = text_same-front (user_id ++ codes "/") c.id id

    put_object-IsCoherent :
        (name : Text) (bytes : List ℕ) (w : W)
        → (deps.put_object name bytes w).0 ≡ none
        → services.object w name ≡ none
        → IsCoherent w
        → IsCoherent (deps.put_object name bytes w).1
    put_object-IsCoherent name bytes w h new coherent k b q =
        let (entries, objects, cached) = services.put_object_ok name bytes w h in
        let before = coherent k b (sym (cached k) ∙ q) in
        elim (Bool-cases (text_ord.same name k)) [
          | inl e ↦ cc (before, new, (text_ord.same_iff name k).0 e)
          | inr e ↦ objects k ∙ rw e before
        ]

    -- What holds between calls: the table, if it is kept, and the objects of some chunks.
    abbrev pub Files : List (Chunk Time) → Table → W → Type 0
    Files cs es w = (services.table w ≡ es) × IsFiled user_id cs w × IsCoherent w

    put_chunk-Files :
        (c : Chunk Time) (cs : List (Chunk Time)) (es : Table) (w : W)
        → count_key id_of c.id cs ≡ 0
        → (put_chunk deps user_id c w).0 ≡ none
        → Files cs es w
        → Files (c ∷ cs) es (put_chunk deps user_id c w).1
    unfolding put_chunk
    put_chunk-Files c cs es w new h (same, filed, coherent) =
        elim (Option-cases (deps.put_object (chunk_name user_id c.id) c.bytes w).0) [
          | inr (e, q) ↦ cc (rw (q, put_chunk) at h)
          | inl q ↦
              let w1 = (deps.put_object (chunk_name user_id c.id) c.bytes w).1 in
              let (entries, objects, cached) =
                services.put_object_ok (chunk_name user_id c.id) c.bytes w q in
              let unnamed = filed c.id ∙ ap bytes_found (find_of_count id_of c.id cs new) in
              let stored = put_object-IsFiled c cs w q filed in
              let right =
                put_object-IsCoherent (chunk_name user_id c.id) c.bytes w q unnamed coherent in
              elim (Option-cases deps.cache) [
                | inl f ↦ rw (q, f, put_chunk) (entries ∙ same, stored, right)
                | inr (cache, f) ↦
                    rw (q, f, put_chunk) (cached_too w1 cache f (entries ∙ same) stored right)
              ]
        ]
      where
        cached_too :
            (w1 : W) (cache : Cache W)
            → deps.cache ≡ some cache
            → services.table w1 ≡ es
            → IsFiled user_id (c ∷ cs) w1
            → IsCoherent w1
            → Files (c ∷ cs) es (store_chunk_data cache user_id c w1).1
        cached_too w1 cache f e s r =
            let (entries, objects, cached) =
              services.set_item_ok cache (chunk_name user_id c.id) c.bytes w1 f in
            (
              entries ∙ e,
              (λ id. objects (chunk_name user_id id) ∙ s id),
              cache_set-IsCoherent cache (chunk_name user_id c.id) c.bytes w1 f
                  (s c.id ∙ ap bytes_found (find_head id_of c cs)) r,
            )

    pub run_all-put_chunk :
        (xs cs : List (Chunk Time)) (es : Table) (w : W)
        → IsDistinct id_of (xs ++ cs)
        → NoErrors (run_all (put_chunk deps user_id) xs w).0
        → Files cs es w
        → Files (xs ++ cs) es (run_all (put_chunk deps user_id) xs w).1
    unfolding run_all count_key
    run_all-put_chunk [] cs es w d h f = f
    run_all-put_chunk (c ∷ xs) cs es w d h f =
        let p = Permᴰ.middle c xs cs in
        let one =
          put_chunk-Files c cs es w
            (ground (arith, count_of_head id_of c (xs ++ cs) d, count_key-append id_of c.id xs cs))
            h.0 f in
        let (same, filed, coherent) =
          run_all-put_chunk xs (c ∷ cs) es (put_chunk deps user_id c w).1
            (IsDistinct-perm id_of p d) h.1 one in
        (same, (λ id. filed id ∙ ap bytes_found (find-perm id_of id d p)), coherent)
