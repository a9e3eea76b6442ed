-- ===== src/Querier/Merged.antt =====
-- What `QueryRange` collects for a fingerprint, from all of its queriers.
use mathlib.Core.List.{append-nil, append_assoc, Permᴰ}
use frankenstein.Prelude.{
  ℕ, Bool, true, false, List, [], ◌∷◌, ◌++◌, ◌≡◌, refl, sym, ap, ◌∙◌, if◌then◌else◌, ◌==◌,
}
use frankenstein.Prelude.Int.{ℤ, int_ord}
use frankenstein.Prelude.Order.{nat_ord}
use frankenstein.Prelude.Dict.{lookup}
use frankenstein.Prelude.Sort.{Sorter, IsSorted}
use frankenstein.Prelude.Result.{Result, ok, err, ◌>>=◌}
use frankenstein.Model.{Metric, SamplePair, SampleStream, LabelMatcher}
use frankenstein.Querier.{Querier, timestamp_of, sort_streams, merge_matrix, ask_all, add_samples}
use frankenstein.Querier.Streams.{values_of, values-add_samples, sorted-values}

module _ (fingerprint : Metric → ℕ) (sorter : Sorter timestamp_of) where
  -- The samples of the streams whose metric has the fingerprint, in their order.
  abbrev pub samples_of_matrix : ℕ → List SampleStream → List SamplePair
  samples_of_matrix fp [] = []
  samples_of_matrix fp (ss ∷ matrix) =
      if fingerprint ss.metric == fp
      then ss.values ++ samples_of_matrix fp matrix
      else samples_of_matrix fp matrix

  abbrev pub samples_of_answer : ℕ → Result (List SampleStream) → List SamplePair
  samples_of_answer fp (ok matrix) = samples_of_matrix fp matrix
  samples_of_answer fp (err e) = []

  values-merge_matrix :
      (fp : ℕ) (matrix : List SampleStream) (streams : List (ℕ × SampleStream))
      → values_of (lookup fp (merge_matrix fingerprint matrix streams))
        ≡ values_of (lookup fp streams) ++ samples_of_matrix fp matrix
  unfolding merge_matrix
  values-merge_matrix fp [] streams = sym (append-nil (values_of (lookup fp streams)))
  values-merge_matrix fp (ss ∷ matrix) streams =
      values-merge_matrix fp matrix (add_samples fingerprint ss.metric ss.values streams)
      ∙ ap (λ vs. vs ++ samples_of_matrix fp matrix)
          (values-add_samples fingerprint sorter ss.metric ss.values fp streams)
      ∙ joined (fingerprint ss.metric == fp) (values_of (lookup fp streams))
    where
      joined :
          (b : Bool) (vs : List SamplePair)
          → (if b then vs ++ ss.values else vs) ++ samples_of_matrix fp matrix
            ≡ vs
              ++ (if b
                  then ss.values ++ samples_of_matrix fp matrix
                  else samples_of_matrix fp matrix)
      joined true vs = append_assoc vs ss.values (samples_of_matrix fp matrix)
      joined false vs = refl

  module _ {W : Type 0} (from to : ℤ) (matchers : List LabelMatcher) (w : W) where
    -- The samples that the queriers answer with for the fingerprint, one querier after the other.
    abbrev pub samples_of_queriers : ℕ → List (Querier W) → List SamplePair
    samples_of_queriers fp [] = []
    samples_of_queriers fp (q ∷ queriers) =
        samples_of_answer fp (q.query from to matchers w) ++ samples_of_queriers fp queriers

    values-ask_all :
        (fp : ℕ) (queriers : List (Querier W)) (streams final : List (ℕ × SampleStream))
        → ask_all fingerprint from to matchers w queriers streams ≡ ok final
        → values_of (lookup fp final)
          ≡ values_of (lookup fp streams) ++ samples_of_queriers fp queriers
    unfolding ask_all
    values-ask_all fp [] streams final h =
        ap (λ r. values_of (lookup fp (or_none r))) (sym h)
        ∙ sym (append-nil (values_of (lookup fp streams)))
      where
        or_none : Result (List (ℕ × SampleStream)) → List (ℕ × SampleStream)
        or_none (ok m) = m
        or_none (err e) = []
    values-ask_all fp (q ∷ queriers) streams final h =
        go (q.query from to matchers w) (λ more g. values-ask_all fp queriers more final g) h
      where
        go :
            (r : Result (List SampleStream))
            → ((more : List (ℕ × SampleStream))
                → ask_all fingerprint from to matchers w queriers more ≡ ok final
                → values_of (lookup fp final)
                  ≡ values_of (lookup fp more) ++ samples_of_queriers fp queriers)
            → (r >>= λ matrix.
                ask_all fingerprint from to matchers w queriers
                  (merge_matrix fingerprint matrix streams))
              ≡ ok final
            → values_of (lookup fp final)
              ≡ values_of (lookup fp streams)
                ++ (samples_of_answer fp r ++ samples_of_queriers fp queriers)
        go (err e) ih g = cc
        go (ok matrix) ih g =
            ih (merge_matrix fingerprint matrix streams) g
            ∙ ap (λ vs. vs ++ samples_of_queriers fp queriers)
                (values-merge_matrix fp matrix streams)
            ∙ append_assoc (values_of (lookup fp streams)) (samples_of_matrix fp matrix)
                (samples_of_queriers fp queriers)

    -- When no querier fails, the stream of every fingerprint that `QueryRange` has made, before the map
    -- becomes a list, has the samples that all queriers answered with for that fingerprint, each as
    -- often as they did, and they are in order of time.
    pub merged_streams_lem :
        (fp : ℕ) (queriers : List (Querier W)) (streams : List (ℕ × SampleStream))
        → ask_all fingerprint from to matchers w queriers [] ≡ ok streams
        → let found = values_of (lookup fp (sort_streams sorter streams)) in
          Permᴰ found (samples_of_queriers fp queriers) × IsSorted timestamp_of found
    unfolding lookup
    merged_streams_lem fp queriers streams h =
        sorted-values fingerprint sorter fp streams (samples_of_queriers fp queriers)
          (values-ask_all fp queriers [] streams h)
