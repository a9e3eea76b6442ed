-- ===== src/Distributor.antt =====
-- distributor.go: sends samples to the ingesters that the ring names, and asks them.
pub mod Routing
pub mod Plain
pub mod Cached
use Prim.Native.Nat.{bit_xor}
use frankenstein.Prelude.{
  ℕ, ◌+◌, ◌*◌, ◌%◌, Bool, true, false, List, [], ◌∷◌, ◌++◌, map, Option, none, some, if◌then◌else◌,
  length,
}
use frankenstein.Prelude.Int.{ℤ}
use frankenstein.Prelude.Order.{Text, text_ord}
use frankenstein.Prelude.Dict.{lookup, insert}
use frankenstein.Prelude.Result.{
  Result, ok, err, Error, ◌>>=◌, not_equality_matcher, no_metric_name_matcher,
}
use frankenstein.User.{Context, get_id}
use frankenstein.Model.{Metric, MatchType, LabelMatcher, Sample, SampleStream, metric_name_label}
use frankenstein.Ring.Model.{IngesterDesc, Desc}
use frankenstein.Ring.Lookup.{get, get_all}
use frankenstein.Chunk.Matchers.{is_name, is_equal}
use frankenstein.Chunk.Store.Query.{last_error}
use frankenstein.Chunk.Store.Objects.{gather_errors}

-- hash/fnv, New32: FNV-1 on 32 bits.
abbrev pub fnv_offset : ℕ
fnv_offset = 2166136261

abbrev pub fnv_prime : ℕ
fnv_prime = 16777619

-- Write, from a state of the hash on
unfoldable pub fnv_write : ℕ → Text → ℕ
fnv_write h [] = h
fnv_write h (b ∷ bs) = fnv_write (bit_xor ((h * fnv_prime) % 4294967296) b) bs

unfoldable pub token_for : Text → Text → ℕ
token_for user_id name = fnv_write (fnv_write fnv_offset user_id) name

-- metric[model.MetricNameLabel]: a missing label reads as the empty value.
abbrev pub or_blank : Option Text → Text
or_blank none = []
or_blank (some name) = name

unfoldable pub token_for_metric : Text → Metric → ℕ
token_for_metric user_id metric = token_for user_id (or_blank (lookup metric_name_label metric))

abbrev pub or_nil : Option (List Sample) → List Sample
or_nil none = []
or_nil (some samples) = samples

-- The loop of `Append` that sorts samples by the host name of their ingester.
unfoldable pub samples_by_ingester :
    Desc → Text → List Sample → List (Text × List Sample) → Result (List (Text × List Sample))
samples_by_ingester ring user_id [] groups = ok groups
samples_by_ingester ring user_id (sample ∷ samples) groups = do
  collector ← get ring (token_for_metric user_id sample.metric)
  let host = collector.hostname
  samples_by_ingester ring user_id samples
      (insert host (or_nil (lookup host groups) ++ sample ∷ []) groups)

-- `metricNameFromLabelMatchers`
unfoldable pub metric_name_from_label_matchers : List LabelMatcher → Result Text
metric_name_from_label_matchers [] = err no_metric_name_matcher
metric_name_from_label_matchers (m ∷ matchers) =
    let rest = metric_name_from_label_matchers matchers in
    if is_name m then (if is_equal m.mtype then ok m.value else err not_equality_matcher) else rest

-- The ingester that `Query` asks.
unfoldable pub query_ingester : Context → List LabelMatcher → Desc → Result (Text × IngesterDesc)
query_ingester ctx matchers ring = do
  metric_name ← metric_name_from_label_matchers matchers
  user_id ← get_id ctx
  collector ← get ring (token_for user_id metric_name)
  ok (user_id, collector)

-- Clients of ingesters, of a type `C`, over a type `W` of states of the ingesters. `factory` is the
-- distributor's clientFactory; questions leave the ingesters as they are.
pub record Clients (C W : Type 0) : Type 0 where
  pub factory : Text → Result C
  pub append : C → Text → List Sample → W → Option Error × W
  pub query : C → Text → ℤ → ℤ → List LabelMatcher → W → Result (List SampleStream)
  pub label_values : C → Text → Text → W → Result (List Text)

-- The state of a distributor: its ring as last read, and the clients that it has made.
pub record Distributor (C : Type 0) : Type 0 where
  pub ring : Desc
  pub clients : List (Text × C)

-- NewDistributor; the ring is what its watch reads.
abbrev pub new_distributor : {C : Type 0} → Desc → Distributor C
new_distributor ring = record { ring = ring; clients = [] }

-- The last metric of `Collect`
abbrev pub num_clients : {C : Type 0} → Distributor C → ℕ
num_clients d = length d.clients

module _ {C W : Type 0} (api : Clients C W) where
  -- getClientFor, as one step: the lock that it takes to add a client makes it one.
  unfoldable pub get_client_for : Distributor C → Text → Result C × Distributor C
  get_client_for d hostname = elim (lookup hostname d.clients) [
    | some client ↦ (ok client, d)
    | none ↦ elim (api.factory hostname) [
      | err e ↦ (err e, d)
      | ok client ↦ (ok client, record d { clients = insert hostname client d.clients })
    ]
  ]

  -- sendSamples
  unfoldable pub send_samples :
      Text → Text → List Sample → Distributor C → W → Option Error × Distributor C × W
  send_samples user_id hostname samples d w =
      let (client, d1) = get_client_for d hostname in
      elim client [
        | err e ↦ (some e, d1, w)
        | ok c ↦ let (e, w1) = api.append c user_id samples w in (e, d1, w1)
      ]

  -- The goroutines of `Append`, in the order in which they take effect.
  unfoldable pub send_all :
      Text → List (Text × List Sample) → Distributor C → W → List (Option Error) × Distributor C × W
  send_all user_id [] d w = ([], d, w)
  send_all user_id ((hostname, samples) ∷ groups) d w =
      let (e, d1, w1) = send_samples user_id hostname samples d w in
      let (es, d2, w2) = send_all user_id groups d1 w1 in (e ∷ es, d2, w2)

  -- `arrange` is the order in which the goroutines take effect and their errors arrive.
  unfoldable pub append :
      (List (Text × List Sample) → List (Text × List Sample))
      → Context
      → List Sample
      → Distributor C
      → W
      → Option Error × Distributor C × W
  append arrange ctx samples d w = elim (get_id ctx) [
    | err e ↦ (some e, d, w)
    | ok user_id ↦ elim (samples_by_ingester d.ring user_id samples []) [
      | err e ↦ (some e, d, w)
      | ok groups ↦
          let (es, d1, w1) = send_all user_id (arrange groups) d w in
          (gather_errors es none, d1, w1)
    ]
  ]

  unfoldable pub query :
      Context
      → ℤ
      → ℤ
      → List LabelMatcher
      → Distributor C
      → W
      → Result (List SampleStream) × Distributor C
  query ctx from to matchers d w = elim (query_ingester ctx matchers d.ring) [
    | err e ↦ (err e, d)
    | ok asked ↦
        let (client, d1) = get_client_for d asked.1.hostname in
        (client >>= (λ c. api.query c asked.0 from to matchers w), d1)
  ]

  -- valueSet[v] = struct{}{}
  abbrev pub add_value : List (Text × Unit {0}) → Text → List (Text × Unit {0})
  add_value set v = insert v tt set

  abbrev pub add_values : List (Text × Unit {0}) → List Text → List (Text × Unit {0})
  add_values set [] = set
  add_values set (v ∷ vals) = add_values (add_value set v) vals

  -- The loop of `LabelValuesForLabelName` over all ingesters.
  unfoldable pub collect_values :
      Text
      → Text
      → List IngesterDesc
      → List (Text × Unit {0})
      → Distributor C
      → W
      → Result (List (Text × Unit {0})) × Distributor C
  collect_values user_id label_name [] set d w = (ok set, d)
  collect_values user_id label_name (c ∷ ingesters) set d w =
      let (client, d1) = get_client_for d c.hostname in
      elim (client >>= λ made. api.label_values made user_id label_name w) [
        | err e ↦ (err e, d1)
        | ok vals ↦ collect_values user_id label_name ingesters (add_values set vals) d1 w
      ]

  -- LabelValuesForLabelName, for a context that has a user
  unfoldable pub label_values_for_label_name :
      Text → Text → Distributor C → W → Result (List Text) × Distributor C
  label_values_for_label_name user_id label_name d w =
      let (set, d1) = collect_values user_id label_name (get_all d.ring) [] d w in
      (set >>= (λ values. ok (map (λ entry. entry.0) values)), d1)
