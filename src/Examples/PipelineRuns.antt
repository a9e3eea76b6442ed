-- ===== src/Examples/PipelineRuns.antt =====
-- A query through an ingester and the chunk store, and label values of two queriers.
use mathlib.Core.List.{Permᴰ}
use mathlib.Core.List.Permᴰ
use frankenstein.Prelude.{ℕ, List, [], ◌∷◌, none}
use frankenstein.Prelude.Int.{pos, int_ord}
use frankenstein.Prelude.Order.{Text}
use frankenstein.Prelude.Sort.{Sorter, insertion_sorter}
use frankenstein.Prelude.Result.{Result, ok, err, external}
use frankenstein.Model.{Metric, SamplePair, SampleStream}
use frankenstein.Ring.Model.{Desc}
use frankenstein.Distributor.{Clients, query}
use frankenstein.Querier.{Querier, timestamp_of, merged_label_values}
use frankenstein.Querier.Values.{Answers, answers_of, first_error, merged_label_values-Answers}
use frankenstein.Examples.HistoryRuns.{State}

abbrev sample : SamplePair
sample = record { timestamp = pos 8; value = 2 }

abbrev recent : List SampleStream
recent = record { metric = []; values = sample ∷ [] } ∷ []

abbrev api : Clients Text State
api = record {
  factory = λ h. ok h;
  append = λ c user_id samples w. (none, w);
  query = λ c user_id from to matchers w. ok recent;
  label_values = λ c user_id name w. ok [];
}

abbrev ring : Desc
ring = record {
  ingesters = (97 ∷ [], record { hostname = 49 ∷ []; timestamp = 1 }) ∷ [];
  tokens = record { token = 5; ingester = 97 ∷ [] } ∷ [];
}

abbrev fingerprint : Metric → ℕ
fingerprint metric = 0

abbrev samples_from : List ℕ → List SamplePair
samples_from bytes = record { timestamp = pos 3; value = 1 } ∷ []

abbrev by_time : Sorter timestamp_of
by_time = insertion_sorter timestamp_of

abbrev with_values : Result (List Text) → Querier (Unit {0})
with_values r = record { query = λ from to matchers w. ok []; label_values = λ name w. r }

abbrev three_queriers : List (Querier (Unit {0}))
three_queriers =
    with_values (ok ((1 ∷ []) ∷ (2 ∷ []) ∷ []))
    ∷ with_values (ok ((2 ∷ []) ∷ []))
    ∷ with_values (err (external 3))
    ∷ []

merged_label_values-Answers_example :
    let answers = answers_of (8 ∷ []) tt three_queriers in
    Answers
      (8 ∷ [])
      tt
      answers
      (merged_label_values (8 ∷ []) tt three_queriers)
      (first_error answers)
merged_label_values-Answers_example = merged_label_values-Answers (8 ∷ []) tt three_queriers
