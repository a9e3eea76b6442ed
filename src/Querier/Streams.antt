-- ===== src/Querier/Streams.antt =====
-- What the two queries collect for a fingerprint.
use frankenstein.Prelude.{
  ℕ, Bool, true, false, inl, inr, Bool-cases, ◌==◌, if◌then◌else◌, arith, List, [], ◌∷◌, ◌++◌,
  Option, none, some, ◌≡◌, refl, sym, ap, ◌∙◌,
}
use mathlib.Core.Path.{subst}
use mathlib.Core.Option
use mathlib.Core.List.{append-nil, append_assoc, Permᴰ}
use frankenstein.Prelude.Int.{int_ord}
use frankenstein.Prelude.Order.{nat_ord}
use frankenstein.Prelude.Dict.{lookup, lookup-insert}
use frankenstein.Prelude.Sort.{Sorter, IsSorted}
use frankenstein.Model.{Metric, SamplePair, SampleStream}
use frankenstein.Chunk.Types.{Chunk}
use frankenstein.Querier.{
  timestamp_of, or_stream, extended, add_samples, sort_streams, group_chunks,
}

-- The values of the stream of a fingerprint, none if it has no stream.
abbrev pub values_of : Option SampleStream → List SamplePair
values_of none = []
values_of (some ss) = ss.values

abbrev in_order : Sorter timestamp_of → SampleStream → SampleStream
in_order sorter ss = record ss { values = sorter.sort ss.values }

module _ (fingerprint : Metric → ℕ) (sorter : Sorter timestamp_of) where
  -- The samples of the chunks whose metric has the fingerprint, in the order of the chunks.
  abbrev pub samples_of_chunks :
      {Time : Type 0} → (List ℕ → List SamplePair) → ℕ → List (Chunk Time) → List SamplePair
  samples_of_chunks decode fp [] = []
  samples_of_chunks decode fp (c ∷ chunks) =
      if fingerprint c.metric == fp
      then decode c.bytes ++ samples_of_chunks decode fp chunks
      else samples_of_chunks decode fp chunks

  values-extended :
      (metric : Metric) (values : List SamplePair) (o : Option SampleStream)
      → (extended (or_stream metric o) values).values ≡ values_of o ++ values
  values-extended metric values none = refl
  values-extended metric values (some ss) = refl

  pub values-add_samples :
      (metric : Metric) (values : List SamplePair) (fp : ℕ) (streams : List (ℕ × SampleStream))
      → values_of (lookup fp (add_samples fingerprint metric values streams)) ≡ (
          if fingerprint metric == fp
          then values_of (lookup fp streams) ++ values
          else values_of (lookup fp streams))
  unfolding add_samples
  values-add_samples metric values fp streams = elim (Bool-cases (fingerprint metric == fp)) [
    | inl e ↦ ground (
      arith,
      e,
      lookup-insert (fingerprint metric) fp
          (extended (or_stream metric (lookup (fingerprint metric) streams)) values) streams,
      values-extended metric values (lookup (fingerprint metric) streams),
    )
    | inr e ↦ ground (
      arith,
      e,
      lookup-insert (fingerprint metric) fp
          (extended (or_stream metric (lookup (fingerprint metric) streams)) values) streams,
    )
  ]

  values-sort_streams :
      (fp : ℕ) (streams : List (ℕ × SampleStream))
      → lookup fp (sort_streams sorter streams)
        ≡ Option.map {A = SampleStream} (in_order sorter) (lookup fp streams)
  unfolding sort_streams lookup
  values-sort_streams fp [] = refl
  values-sort_streams fp ((k, ss) ∷ streams) = elim (Bool-cases (k == fp)) [
    | inl e ↦ rw e refl
    | inr e ↦ rw e (values-sort_streams fp streams)
  ]

  -- Sorting keeps the values of a stream.
  pub sorted-values :
      (fp : ℕ) (streams : List (ℕ × SampleStream)) (vs : List SamplePair)
      → values_of (lookup fp streams) ≡ vs
      → let found = values_of (lookup fp (sort_streams sorter streams)) in
        Permᴰ found vs × IsSorted timestamp_of found
  sorted-values fp streams vs h =
      rw (values-sort_streams fp streams) (by_stream (lookup fp streams) h)
    where
      by_stream :
          (o : Option SampleStream)
          → values_of o ≡ vs
          → let found = values_of (Option.map {A = SampleStream} (in_order sorter) o) in
            Permᴰ found vs × IsSorted timestamp_of found
      by_stream none e = (subst (λ xs. Permᴰ [] xs) e Permᴰ.nil, tt)
      by_stream (some ss) e = (
        subst (λ xs. Permᴰ (sorter.sort ss.values) xs) e (sorter.sort-perm ss.values),
        sorter.sort-IsSorted ss.values,
      )

  module _ {Time : Type 0} (decode : List ℕ → List SamplePair) where
    values-group_chunks :
        (fp : ℕ) (chunks : List (Chunk Time)) (streams : List (ℕ × SampleStream))
        → values_of (lookup fp (group_chunks fingerprint decode chunks streams))
          ≡ values_of (lookup fp streams) ++ samples_of_chunks decode fp chunks
    unfolding group_chunks
    values-group_chunks fp [] streams = sym (append-nil (values_of (lookup fp streams)))
    values-group_chunks fp (c ∷ chunks) streams =
        values-group_chunks fp chunks (add_samples fingerprint c.metric (decode c.bytes) streams)
        ∙ ap (λ vs. vs ++ samples_of_chunks decode fp chunks)
            (values-add_samples c.metric (decode c.bytes) fp streams)
        ∙ joined (fingerprint c.metric == fp) (values_of (lookup fp streams))
      where
        joined :
            (b : Bool) (vs : List SamplePair)
            → (if b then vs ++ decode c.bytes else vs) ++ samples_of_chunks decode fp chunks
              ≡ vs
                ++ (if b
                    then decode c.bytes ++ samples_of_chunks decode fp chunks
                    else samples_of_chunks decode fp chunks)
        joined true vs = append_assoc vs (decode c.bytes) (samples_of_chunks decode fp chunks)
        joined false vs = refl

    -- Before the map becomes a matrix, the stream of every fingerprint has the samples of all chunks
    -- of that fingerprint, each as often as the chunks have it, and they are in order of time.
    pub chunk_streams_lem :
        (fp : ℕ) (chunks : List (Chunk Time))
        → let found =
            values_of
              (lookup fp (sort_streams sorter (group_chunks fingerprint decode chunks []))) in
          Permᴰ found (samples_of_chunks decode fp chunks) × IsSorted timestamp_of found
    unfolding lookup
    chunk_streams_lem fp chunks =
        sorted-values fp (group_chunks fingerprint decode chunks [])
          (samples_of_chunks decode fp chunks) (values-group_chunks fp chunks [])
