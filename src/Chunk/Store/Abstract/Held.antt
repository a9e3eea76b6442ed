-- ===== src/Chunk/Store/Abstract/Held.antt =====
-- chunk/chunk_store.go: a `Put` that returns no error, from a store that holds chunks.
use mathlib.Core.List.{Permᴰ, append_assoc}
use mathlib.Core.List.Permᴰ
use mathlib.Core.Path.{subst}
use frankenstein.Prelude.{
  ◌≡◌, refl, sym, ap, ◌∙◌, inl, inr, List, [], ◌∷◌, ◌++◌, none, some, All, All-map, Option-cases,
}
use frankenstein.Prelude.Int.{ℤ}
use frankenstein.Prelude.Order.{Text, text_ord}
use frankenstein.Prelude.Sort.{All-perm}
use frankenstein.Prelude.Keyed.{IsDistinct}
use frankenstein.Prelude.Distinct.{find-perm, IsDistinct-perm}
use frankenstein.Prelude.Pairwise.{split-Pairwise, perm-Pairwise}
use frankenstein.Prelude.Result.{ok, Result-cases, ok-inj}
use frankenstein.Wire.RoundTrip.{IsMap}
use frankenstein.Chunk.Types.{Chunk, id_of}
use frankenstein.Chunk.Batch.{batch_requests, batch_requests_lem, concat}
use frankenstein.Chunk.Store.{Deps, WriteRequest, chunk_name}
use frankenstein.Chunk.Store.Index.{chunk_writes, calculate_dynamo_writes}
use frankenstein.Chunk.Store.Objects.{
  run_all, put_chunk, put_chunks, update_index, put, batch_write_dynamo,
}
use frankenstein.Chunk.Store.Writes.{NoErrors, gather_errors-none}
use frankenstein.Chunk.Store.Abstract.{Decodes}
use frankenstein.Chunk.Store.Abstract.Filed.{HasPlainTexts}
use frankenstein.Chunk.Store.Abstract.Hash.{HasNoColon}
use frankenstein.Chunk.Store.Abstract.Keys.{AreApart, calculate_dynamo_writes-Pairwise}
use frankenstein.Chunk.Store.Abstract.Services.{Services, Table, AreApart-flip}
use frankenstein.Chunk.Store.Abstract.Batches.{concat-perm, run_all-batches}
use frankenstein.Chunk.Store.Abstract.Puts.{bytes_found, IsFiled, IsCoherent, run_all-put_chunk}

-- Texts that go into range values have no null bytes, and metrics name no label twice.
abbrev pub IsIndexable : {Time : Type 0} → Chunk Time → Type 0
IsIndexable c = HasPlainTexts c × IsMap c.metric

module _ {Time W : Type 0} (deps : Deps Time W) (user_id : Text) where
  calculate_dynamo_writes-append :
      (xs ys : List (Chunk Time)) (reqs db : List WriteRequest)
      → calculate_dynamo_writes deps user_id xs ≡ ok reqs
      → calculate_dynamo_writes deps user_id ys ≡ ok db
      → calculate_dynamo_writes deps user_id (xs ++ ys) ≡ ok (reqs ++ db)
  unfolding calculate_dynamo_writes
  calculate_dynamo_writes-append [] ys reqs db e f = f ∙ ap (λ rs. ok (rs ++ db)) (ok-inj [] reqs e)
  calculate_dynamo_writes-append (x ∷ xs) ys reqs db e f =
      elim (Result-cases (chunk_writes deps user_id x)) [
        | inl (g, q) ↦ cc (rw (q, calculate_dynamo_writes) at e)
        | inr (first, q) ↦ elim (Result-cases (calculate_dynamo_writes deps user_id xs)) [
          | inl (g, r) ↦ cc (rw (q, r, calculate_dynamo_writes) at e)
          | inr (rest, r) ↦
              let whole = ok-inj (first ++ rest) reqs (rw (q, r, calculate_dynamo_writes) at e) in
              rw (q, calculate_dynamo_writes-append xs ys rest db r f)
                (ap ok (sym (append_assoc first rest db) ∙ ap (λ rs. rs ++ db) whole))
        ]
      ]

  -- The two steps of a `Put` that returns no error
  put-steps :
      (arrange : List (Chunk Time) → List (Chunk Time))
      (arrange_batches : List (List WriteRequest) → List (List WriteRequest))
      (chunks : List (Chunk Time)) (w : W)
      → (put deps arrange arrange_batches (some user_id) chunks w).0 ≡ none
      → let w1 = (run_all (put_chunk deps user_id) (arrange chunks) w).1 in
        NoErrors (run_all (put_chunk deps user_id) (arrange chunks) w).0
        × ((reqs : List WriteRequest) × (calculate_dynamo_writes deps user_id chunks ≡ ok reqs)
            × NoErrors
                (run_all (batch_write_dynamo deps) (arrange_batches (batch_requests reqs)) w1).0
            × ((put deps arrange arrange_batches (some user_id) chunks w).1
                ≡ (run_all (batch_write_dynamo deps) (arrange_batches (batch_requests reqs)) w1).1))
  unfolding put put_chunks update_index
  put-steps arrange arrange_batches chunks w h =
      elim (Option-cases (put_chunks deps arrange user_id chunks w).0) [
        | inr (e, q) ↦ cc (rw (q, put) at h)
        | inl q ↦ elim (Result-cases (calculate_dynamo_writes deps user_id chunks)) [
          | inl (e, f) ↦ cc (rw (q, f, put, update_index) at h)
          | inr (reqs, f) ↦ (
            gather_errors-none _ q,
            (
              reqs,
              f,
              gather_errors-none _ (rw (q, f, put, update_index) at h),
              rw (q, f, put, update_index) refl,
            ),
          )
        ]
      ]

module _ {Time W : Type 0} (deps : Deps Time W) (services : Services deps) (user_id : Text) where
  -- The state of the services holds some chunks of the user: the table just their index entries, S3
  -- just their bytes, the cache nothing but what S3 has.
  abbrev pub Holds : List (Chunk Time) → W → Type 0
  Holds cs w =
      ((db : List WriteRequest) × (calculate_dynamo_writes deps user_id cs ≡ ok db)
        × Permᴰ ((services.table w).entries) db)
      × IsFiled deps services user_id cs w
      × IsCoherent deps services w

  module _ (decodes : Decodes deps) (shows : (i h : ℤ) → deps.show_int i ≡ deps.show_int h → i ≡ h)
      (plain : (i : ℤ) → HasNoColon (deps.show_int i))
      (arrange : List (Chunk Time) → List (Chunk Time))
      (arranges : (cs : List (Chunk Time)) → Permᴰ (arrange cs) cs)
      (arrange_batches : List (List WriteRequest) → List (List WriteRequest))
      (arranges_batches : (bs : List (List WriteRequest)) → Permᴰ (arrange_batches bs) bs) where
    pub put-Holds :
        (chunks cs : List (Chunk Time)) (w : W)
        → All IsIndexable (chunks ++ cs)
        → IsDistinct id_of (chunks ++ cs)
        → (put deps arrange arrange_batches (some user_id) chunks w).0 ≡ none
        → (services.table (put deps arrange arrange_batches (some user_id) chunks w).1).given_back
          ≡ (services.table w).given_back
        → Holds cs w
        → Holds (chunks ++ cs) (put deps arrange arrange_batches (some user_id) chunks w).1
    put-Holds chunks cs w indexable distinct h back ((db, indexed, same), filed, coherent) =
        let (no_errors, (reqs, computed, no_errors', state)) =
          put-steps deps user_id arrange arrange_batches chunks w h in
        let w1 = (run_all (put_chunk deps user_id) (arrange chunks) w).1 in
        let p = Permᴰ.append_right cs (arranges chunks) in
        let (entries, filed', coherent') =
          run_all-put_chunk deps services user_id (arrange chunks) cs (services.table w) w
            (IsDistinct-perm id_of p distinct) no_errors (refl, filed, coherent) in
        let all_indexed =
          calculate_dynamo_writes-append deps user_id chunks cs reqs db computed indexed in
        let (cross, apart, rest) = split-Pairwise AreApart reqs db (
          calculate_dynamo_writes-Pairwise deps decodes shows plain user_id (chunks ++ cs)
            (reqs ++ db) (All-map (λ c i. i.0) (chunks ++ cs) indexable)
            (All-map (λ c i. i.1) (chunks ++ cs) indexable) distinct all_indexed) in
        let bs = arrange_batches (batch_requests reqs) in
        let batched : Permᴰ (concat bs) reqs =
          subst (Permᴰ (concat bs)) (batch_requests_lem reqs).0
            (concat-perm (arranges_batches (batch_requests reqs))) in
        let before : Permᴰ ((services.table w1).entries) db =
          subst (λ (t : Table). Permᴰ t.entries db) (sym entries) same in
        let (after, (objects, cached)) =
          run_all-batches deps services bs w1 (perm-Pairwise AreApart AreApart-flip batched apart)
            (All-perm _ batched (All-map (λ r a. All-perm (AreApart r) before a) reqs cross))
            no_errors'
            (ap (λ x. (services.table x).given_back) (sym state)
              ∙ back
              ∙ ap (λ (t : Table). t.given_back) (sym entries)) in
        subst (Holds (chunks ++ cs)) (sym state) (
          (
            reqs ++ db,
            all_indexed,
            Permᴰ.trans after (
                Permᴰ.trans (Permᴰ.append_right ((services.table w1).entries) batched)
                  (Permᴰ.append_left reqs before)),
          ),
          (λ id.
              objects (chunk_name user_id id)
              ∙ filed' id
              ∙ ap bytes_found (find-perm id_of id distinct p)),
          λ k b q. objects k ∙ coherent' k b (sym (cached k) ∙ q),
        )
