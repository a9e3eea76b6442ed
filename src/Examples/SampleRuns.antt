-- ===== src/Examples/SampleRuns.antt =====
-- Samples, matchers and streams on small inputs.
use frankenstein.Querier.Merged.{samples_of_queriers, merged_streams_lem}
use mathlib.Core.List.{Permᴰ}
use frankenstein.Ring.Lookup.Owner.{get-owner}
use frankenstein.Distributor.Routing.{samples_for, query_follows_append, samples_by_ingester_lem}
use frankenstein.Querier.{sort_streams, timestamp_of, Querier, ask_all, merge_matrix, add_samples}
use frankenstein.Iterator.Reads.{
  time_of, last_until, samples_in, range_values_lem, value_at_or_before_time_lem,
}
use frankenstein.Ring.Model.{Desc}
use frankenstein.Querier.Streams.{values_of}
use frankenstein.Prelude.Sort.{IsSorted, insertion_sorter}
use frankenstein.Prelude.Dict.{lookup, insert}
use frankenstein.Prelude.{List, ℕ, [], some, ◌∷◌, ◌≡◌, arith, refl, ◌∙◌, Bool-cases, ltb}
use frankenstein.Model.{
  LabelMatcher, Sample, SampleStream, MatchType, SamplePair, metric_name_label,
}
use frankenstein.Iterator.{Interval, range_values, value_at_or_before_time}
use frankenstein.Distributor.{or_nil, query_ingester, samples_by_ingester, token_for_metric}
use frankenstein.Prelude.{inl, inr}
use frankenstein.Prelude.Result.{ok, ◌>>=◌}
use frankenstein.Prelude.Order.{text_ord, nat_ord, Text}
use frankenstein.Prelude.Int.{int_ord, pos}
use frankenstein.Ring.Lookup.{get}

abbrev at_time : ℕ → SamplePair
at_time t = record { timestamp = pos t; value = t }

abbrev stream : SampleStream
stream = record { metric = []; values = at_time 1 ∷ at_time 4 ∷ at_time 6 ∷ [] }

abbrev stream_sorted : IsSorted time_of stream.values
stream_sorted = ((ground arith, (ground arith, tt)), ((ground arith, tt), (tt, tt)))

value_at_or_before_time_lem_example :
    value_at_or_before_time (pos 0) stream (pos 5)
    ≡ last_until (pos 5) (record { timestamp = pos 0; value = 0 }) stream.values
value_at_or_before_time_lem_example =
    value_at_or_before_time_lem (pos 0) stream (pos 5) stream_sorted

abbrev from_two_to_six : Interval
from_two_to_six = record { oldest_inclusive = pos 2; newest_inclusive = pos 6 }

range_values_lem_example :
    range_values stream from_two_to_six ≡ ok (samples_in from_two_to_six stream.values)
range_values_lem_example = range_values_lem stream from_two_to_six stream_sorted (ground arith)

abbrev name_matcher : LabelMatcher
name_matcher = record { mtype = MatchType.equal; name = metric_name_label; value = 7 ∷ [] }

abbrev other_matcher : LabelMatcher
other_matcher = record { mtype = MatchType.regex_match; name = 8 ∷ []; value = 9 ∷ [] }

abbrev named : Sample
named = record { metric = (metric_name_label, 7 ∷ []) ∷ []; value = 1; timestamp = pos 3 }

abbrev one_host : Desc
one_host = record {
  ingesters = (1 ∷ [], record { hostname = 2 ∷ []; timestamp = 0 }) ∷ [];
  tokens = record { token = 10; ingester = 1 ∷ [] } ∷ [];
}

get_run : (key : ℕ) → get one_host key ≡ ok (record { hostname = 2 ∷ []; timestamp = 0 })
unfolding lookup
get_run key =
    get-owner one_host key (tt, tt)
    ∙ elim (Bool-cases (ltb key 10)) [ inl e ↦ rw e refl | inr e ↦ rw e refl ]

grouped_run : samples_by_ingester one_host [] (named ∷ []) [] ≡ ok ((2 ∷ [], named ∷ []) ∷ [])
unfolding samples_by_ingester lookup insert
grouped_run = rw (get_run (token_for_metric [] named.metric)) refl

samples_by_ingester_lem_example :
    or_nil (lookup {K = Text} (2 ∷ []) ((2 ∷ [], named ∷ []) ∷ []))
    ≡ samples_for one_host [] (2 ∷ []) (named ∷ [])
samples_by_ingester_lem_example =
    samples_by_ingester_lem one_host [] (2 ∷ []) (named ∷ []) ((2 ∷ [], named ∷ []) ∷ [])
      grouped_run

name_run : lookup metric_name_label named.metric ≡ some (7 ∷ [])
unfolding lookup
name_run = refl

query_follows_append_example :
    query_ingester (some []) (other_matcher ∷ name_matcher ∷ []) one_host
    ≡ (get one_host (token_for_metric [] named.metric) >>= λ i. ok ([], i))
query_follows_append_example =
    query_follows_append one_host [] named (other_matcher ∷ []) name_matcher [] (refl, tt) refl refl
      name_run

abbrev answers_with : List SamplePair → Querier (Unit {0})
answers_with values = record {
  query = λ from to matchers w. ok (record { metric = []; values = values } ∷ []);
  label_values = λ name w. ok [];
}

abbrev two_queriers : List (Querier (Unit {0}))
two_queriers = answers_with (at_time 4 ∷ []) ∷ answers_with (at_time 1 ∷ []) ∷ []

abbrev merged_stream : SampleStream
merged_stream = record { metric = []; values = at_time 4 ∷ at_time 1 ∷ [] }

ask_run : ask_all (λ metric. 0) (pos 0) (pos 9) [] tt two_queriers [] ≡ ok ((0, merged_stream) ∷ [])
unfolding ask_all merge_matrix add_samples lookup insert
ask_run = refl

merged_streams_lem_example :
    let found =
      values_of
        (lookup 0 (sort_streams (insertion_sorter timestamp_of) ((0, merged_stream) ∷ []))) in
    Permᴰ found (
      samples_of_queriers
        (λ metric. 0)
        (insertion_sorter timestamp_of)
        (pos 0)
        (pos 9)
        []
        tt
        0
        two_queriers)
    × IsSorted timestamp_of found
merged_streams_lem_example =
    merged_streams_lem (λ metric. 0) (insertion_sorter timestamp_of) (pos 0) (pos 9) [] tt 0
      two_queriers ((0, merged_stream) ∷ []) ask_run
