-- ===== src/Chunk/Batch.antt =====
-- chunk/chunk_store.go: `batchRequests` cuts the writes into batches that DynamoDB takes.
use mathlib.Core.List.{append-nil}
use frankenstein.Prelude.{
  ℕ, zero, suc, ◌≤◌, ◌≡◌, refl, ap, ◌∙◌, inl, inr, List, [], ◌∷◌, ◌++◌, arith, All, Bool-cases, ltb,
  if◌then◌else◌, length, take, drop, length-take, length-drop, take-append-drop,
}

abbrev pub dynamo_max_batch_size : ℕ
dynamo_max_batch_size = 25

module _ {ℓ} {A : Type ℓ} where
  -- `rest` is writeReqs[i:]. Each round takes one request at least, so a round for each is enough.
  batch_loop : ℕ → List A → List (List A)
  batch_loop zero rest = []
  batch_loop (suc fuel) [] = []
  batch_loop (suc fuel) (r ∷ rest) =
      let reqs =
        if ltb (length (r ∷ rest)) dynamo_max_batch_size
        then r ∷ rest
        else take dynamo_max_batch_size (r ∷ rest) in
      reqs ∷ batch_loop fuel (drop dynamo_max_batch_size (r ∷ rest))

  unfoldable pub batch_requests : List A → List (List A)
  unfolding batch_loop
  batch_requests write_reqs = batch_loop (length write_reqs) write_reqs

  abbrev pub concat : List (List A) → List A
  concat [] = []
  concat (x ∷ xs) = x ++ concat xs

  -- A batch that DynamoDB takes: some requests, and not too many.
  abbrev pub IsBatch : List A → Type 0
  IsBatch reqs = (1 ≤ length reqs) × (length reqs ≤ dynamo_max_batch_size)

  drop_short : (n : ℕ) (xs : List A) → length xs ≤ n → drop n xs ≡ []
  drop_short zero [] h = refl
  drop_short zero (x ∷ xs) h = absurd (omega arith)
  drop_short (suc n) [] h = refl
  drop_short (suc n) (x ∷ xs) h = drop_short n xs (omega arith)

  batch_loop_lem :
      (fuel : ℕ) (rest : List A)
      → length rest ≤ fuel
      → (concat (batch_loop fuel rest) ≡ rest) × All IsBatch (batch_loop fuel rest)
  unfolding batch_loop
  batch_loop_lem zero [] h = (refl, tt)
  batch_loop_lem zero (r ∷ rest) h = absurd (omega arith)
  batch_loop_lem (suc fuel) [] h = (refl, tt)
  batch_loop_lem (suc fuel) (r ∷ rest) h =
      let later =
        batch_loop_lem fuel (drop 25 (r ∷ rest)) (omega (arith, length-drop 25 (r ∷ rest))) in
      elim (Bool-cases (ltb (length (r ∷ rest)) 25)) [
        | inl short ↦ rw short (
          ap (◌++◌ (r ∷ rest)) (later.0 ∙ drop_short 25 (r ∷ rest) (ground arith))
              ∙ append-nil (r ∷ rest),
          ((ground arith, ground arith), later.1),
        )
        | inr long ↦ rw long (
          ap (◌++◌ (take 25 (r ∷ rest))) later.0 ∙ take-append-drop 25 (r ∷ rest),
          (
            (ground (arith, length-take 25 (r ∷ rest)), ground (arith, length-take 25 (r ∷ rest))),
            later.1,
          ),
        )
      ]

  -- The batches hold every request once, in order, and each has from 1 to 25 of them.
  pub batch_requests_lem :
      (write_reqs : List A)
      → (concat (batch_requests write_reqs) ≡ write_reqs) × All IsBatch (batch_requests write_reqs)
  unfolding batch_requests
  batch_requests_lem write_reqs = batch_loop_lem (length write_reqs) write_reqs (omega arith)
