-- ===== src/Chunk/Store/Writes.antt =====
-- `Put`, by the errors that it returns.
use frankenstein.Prelude.{List, [], ◌∷◌, Option, none, some, ◌≡◌, refl, inl, inr, All, Option-cases}
use frankenstein.Prelude.Order.{Text}
use frankenstein.Prelude.Result.{Result, ok, err, Error}
use frankenstein.User.{Context}
use frankenstein.Chunk.Types.{Chunk}
use frankenstein.Chunk.Batch.{batch_requests}
use frankenstein.Chunk.Store.{Deps, WriteRequest}
use frankenstein.Chunk.Store.Index.{calculate_dynamo_writes}
use frankenstein.Chunk.Store.Objects.{
  batch_write_dynamo, gather_errors, run_all, put_chunk, put_chunks, update_index, put,
}

abbrev pub NoErrors : List (Option Error) → Type 0
NoErrors = All (λ e. e ≡ none)

gather_errors_after :
    (errors : List (Option Error)) (e : Error) → ¬ (gather_errors errors (some e) ≡ none)
unfolding gather_errors
gather_errors_after [] e h = cc
gather_errors_after (none ∷ errors) e h = gather_errors_after errors e h
gather_errors_after (some f ∷ errors) e h = gather_errors_after errors f h

-- The gathering loop returns no error only if none arrived.
pub gather_errors-none :
    (errors : List (Option Error)) → gather_errors errors none ≡ none → NoErrors errors
unfolding gather_errors
gather_errors-none [] h = tt
gather_errors-none (none ∷ errors) h = (refl, gather_errors-none errors h)
gather_errors-none (some e ∷ errors) h = absurd (gather_errors_after errors e h)

module _ {Time W : Type 0} (deps : Deps Time W) (arrange : List (Chunk Time) → List (Chunk Time))
    (arrange_batches : List (List WriteRequest) → List (List WriteRequest)) where
  update_index-success :
      (user_id : Text) (chunks : List (Chunk Time)) (w : W)
      → (update_index deps arrange_batches user_id chunks w).0 ≡ none
      → (reqs : List WriteRequest) × (calculate_dynamo_writes deps user_id chunks ≡ ok reqs)
        × NoErrors (run_all (batch_write_dynamo deps) (arrange_batches (batch_requests reqs)) w).0
  unfolding update_index
  update_index-success user_id chunks w h = go (calculate_dynamo_writes deps user_id chunks) refl
    where
      go :
          (r : Result (List WriteRequest))
          → calculate_dynamo_writes deps user_id chunks ≡ r
          → (reqs : List WriteRequest) × (calculate_dynamo_writes deps user_id chunks ≡ ok reqs)
            × NoErrors
                (run_all (batch_write_dynamo deps) (arrange_batches (batch_requests reqs)) w).0
      go (err e) q = cc (rw (q, update_index) at h)
      go (ok reqs) q = (reqs, q, gather_errors-none _ (rw (q, update_index) at h))

  -- A `Put` that returns no error, in whatever order its goroutines ran, has a user, has had no error
  -- from the write of any chunk to S3, has computed the index entries of all chunks, and has had no
  -- error from the write of any batch of them, which came after the chunks.
  pub put-success :
      (ctx : Context) (chunks : List (Chunk Time)) (w : W)
      → (put deps arrange arrange_batches ctx chunks w).0 ≡ none
      → (user_id : Text) × (ctx ≡ some user_id)
        × NoErrors (run_all (put_chunk deps user_id) (arrange chunks) w).0
        × ((reqs : List WriteRequest) × (calculate_dynamo_writes deps user_id chunks ≡ ok reqs)
            × NoErrors
                (run_all
                  (batch_write_dynamo deps)
                  (arrange_batches (batch_requests reqs))
                  (put_chunks deps arrange user_id chunks w).1).0)
  unfolding put put_chunks
  put-success none chunks w h = cc
  put-success (some user_id) chunks w h =
      elim (Option-cases (put_chunks deps arrange user_id chunks w).0) [
        | inr (e, q) ↦ cc (rw (q, put) at h)
        | inl q ↦ (
          user_id,
          refl,
          gather_errors-none _ q,
          update_index-success user_id chunks _ (rw (q, put) at h),
        )
      ]
