-- ===== src/Querier/Whole.antt =====
-- querier.go: the answer of ChunkQuerier, by the chunks of the store.
use mathlib.Core.List.{append-nil, Permᴰ}
use mathlib.Core.Path.{subst}
use frankenstein.Prelude.{
  ◌≤◌, ℕ, ◌≡◌, refl, sym, ap, ◌∙◌, inl, inr, List, [], ◌∷◌, Option, none, some, arith, All,
  Bool-cases, some-inj, ◌==◌,
}
use frankenstein.Prelude.Int.{int_ord}
use frankenstein.Prelude.Order.{nat_ord}
use frankenstein.Prelude.Dict.{lookup, insert}
use frankenstein.Prelude.Keyed.{
  count_key, IsDistinct, IsDistinct-tail, count_of_head, key_of, insert-IsDistinct, lookup_of_count,
}
use frankenstein.Prelude.Sort.{Sorter}
use frankenstein.Model.{Metric, SamplePair, SampleStream}
use frankenstein.Chunk.Types.{Chunk}
use frankenstein.Querier.{
  timestamp_of, or_stream, sort_streams, streams_of, add_samples, group_chunks, merge_matrix,
}
use frankenstein.Querier.Streams.{values_of, samples_of_chunks, chunk_streams_lem}
use frankenstein.Querier.Merged.{samples_of_matrix}

module _ (fingerprint : Metric → ℕ) (sorter : Sorter timestamp_of) where
  -- Every stream is under the fingerprint of its metric.
  abbrev IsFiled : ℕ × SampleStream → Type 0
  IsFiled e = fingerprint e.1.metric ≡ e.0

  abbrev pub IsWellKeyed : List (ℕ × SampleStream) → Type 0
  IsWellKeyed streams = All IsFiled streams × IsDistinct key_of streams

  -- Then the samples of a fingerprint are those of the stream under it.
  samples-streams_of :
      (fp : ℕ) (streams : List (ℕ × SampleStream))
      → IsWellKeyed streams
      → samples_of_matrix fingerprint sorter fp (streams_of streams) ≡ values_of (lookup fp streams)
  unfolding lookup
  samples-streams_of fp [] k = refl
  samples-streams_of fp ((j, ss) ∷ streams) (filed, d) = elim (Bool-cases (j == fp)) [
    | inl e ↦
        let gone =
          lookup_of_count fp streams (ground (arith, e, count_of_head key_of (j, ss) streams d)) in
        rw
          (
            filed.0,
            e,
            samples-streams_of fp streams (filed.1, IsDistinct-tail key_of (j, ss) streams d),
            gone,
          )
          (append-nil ss.values)
    | inr e ↦
        rw (filed.0, e)
          (samples-streams_of fp streams (filed.1, IsDistinct-tail key_of (j, ss) streams d))
  ]

  lookup-IsFiled :
      (fp : ℕ) (ss : SampleStream) (streams : List (ℕ × SampleStream))
      → All IsFiled streams
      → lookup fp streams ≡ some ss
      → fingerprint ss.metric ≡ fp
  unfolding lookup
  lookup-IsFiled fp ss [] f h = cc
  lookup-IsFiled fp ss ((j, u) ∷ streams) f h = elim (Bool-cases (j == fp)) [
    | inl e ↦
        ap (λ (x : SampleStream). fingerprint x.metric) (sym (some-inj u ss (rw (e, lookup) at h)))
        ∙ f.0
        ∙ (nat_ord.same_iff j fp).0 e
    | inr e ↦ lookup-IsFiled fp ss streams f.1 (rw (e, lookup) at h)
  ]

  insert-IsFiled :
      (fp : ℕ) (ss : SampleStream) (streams : List (ℕ × SampleStream))
      → fingerprint ss.metric ≡ fp
      → All IsFiled streams
      → All IsFiled (insert fp ss streams)
  unfolding insert
  insert-IsFiled fp ss [] h f = (h, tt)
  insert-IsFiled fp ss ((j, u) ∷ streams) h f = elim (Bool-cases (j == fp)) [
    | inl e ↦ rw e (h, f.1)
    | inr e ↦ rw e (f.0, insert-IsFiled fp ss streams h f.1)
  ]

  add_samples-IsWellKeyed :
      (metric : Metric) (values : List SamplePair) (streams : List (ℕ × SampleStream))
      → IsWellKeyed streams
      → IsWellKeyed (add_samples fingerprint metric values streams)
  unfolding add_samples
  add_samples-IsWellKeyed metric values streams (filed, d) = (
    insert-IsFiled (fingerprint metric) _ streams (go (lookup (fingerprint metric) streams) refl)
        filed,
    insert-IsDistinct (fingerprint metric) _ streams d,
  )
    where
      go :
          (o : Option SampleStream)
          → lookup (fingerprint metric) streams ≡ o
          → fingerprint (or_stream metric o).metric ≡ fingerprint metric
      go none e = refl
      go (some ss) e = lookup-IsFiled (fingerprint metric) ss streams filed e

  sort_streams-IsWellKeyed :
      (streams : List (ℕ × SampleStream))
      → IsWellKeyed streams
      → IsWellKeyed (sort_streams sorter streams)
  unfolding sort_streams count_key
  sort_streams-IsWellKeyed streams (filed, d) =
      (all_filed streams filed, λ k. subst (λ n. n ≤ 1) (sym (same_count k streams)) (d k))
    where
      all_filed :
          (ss : List (ℕ × SampleStream)) → All IsFiled ss → All IsFiled (sort_streams sorter ss)
      all_filed [] f = tt
      all_filed ((j, u) ∷ ss) f = (f.0, all_filed ss f.1)

      same_count :
          (k : ℕ) (ss : List (ℕ × SampleStream))
          → count_key key_of k (sort_streams sorter ss) ≡ count_key key_of k ss
      same_count k [] = refl
      same_count k ((j, u) ∷ ss) = ground (arith, same_count k ss)

  pub merge_matrix-IsWellKeyed :
      (matrix : List SampleStream) (streams : List (ℕ × SampleStream))
      → IsWellKeyed streams
      → IsWellKeyed (merge_matrix fingerprint matrix streams)
  unfolding merge_matrix
  merge_matrix-IsWellKeyed [] streams k = k
  merge_matrix-IsWellKeyed (ss ∷ matrix) streams k =
      merge_matrix-IsWellKeyed matrix (add_samples fingerprint ss.metric ss.values streams)
        (add_samples-IsWellKeyed ss.metric ss.values streams k)

  pub no_streams-IsWellKeyed : IsWellKeyed []
  unfolding count_key
  no_streams-IsWellKeyed = (tt, λ k. omega arith)

  pub samples-sort_streams :
      (fp : ℕ) (streams : List (ℕ × SampleStream))
      → IsWellKeyed streams
      → samples_of_matrix fingerprint sorter fp (streams_of (sort_streams sorter streams))
        ≡ values_of (lookup fp (sort_streams sorter streams))
  samples-sort_streams fp streams k =
      samples-streams_of fp (sort_streams sorter streams) (sort_streams-IsWellKeyed streams k)

  module _ {Time : Type 0} (decode : List ℕ → List SamplePair) where
    group_chunks-IsWellKeyed :
        (chunks : List (Chunk Time)) (streams : List (ℕ × SampleStream))
        → IsWellKeyed streams
        → IsWellKeyed (group_chunks fingerprint decode chunks streams)
    unfolding group_chunks
    group_chunks-IsWellKeyed [] streams k = k
    group_chunks-IsWellKeyed (c ∷ chunks) streams k =
        group_chunks-IsWellKeyed chunks (add_samples fingerprint c.metric (decode c.bytes) streams)
          (add_samples-IsWellKeyed c.metric (decode c.bytes) streams k)

    -- The answer of ChunkQuerier has, of a fingerprint, the samples of the chunks of that fingerprint.
    pub samples-chunks :
        (fp : ℕ) (chunks : List (Chunk Time))
        → Permᴰ
            (samples_of_matrix fingerprint sorter fp
              (streams_of (sort_streams sorter (group_chunks fingerprint decode chunks []))))
            (samples_of_chunks fingerprint sorter decode fp chunks)
    samples-chunks fp chunks =
        rw
          (samples-sort_streams fp (group_chunks fingerprint decode chunks [])
            (group_chunks-IsWellKeyed chunks [] no_streams-IsWellKeyed))
          (chunk_streams_lem fingerprint sorter decode fp chunks).0
