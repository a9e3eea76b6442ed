-- ===== src/Distributor/Plain.antt =====
-- distributor.go: the calls of a distributor, and the same without a state of clients.
use frankenstein.Prelude.{List, [], ◌∷◌, map, Option, none, some}
use frankenstein.Prelude.Int.{ℤ}
use frankenstein.Prelude.Order.{Text, text_ord}
use frankenstein.Prelude.Result.{Result, ok, err, Error, ◌>>=◌}
use frankenstein.User.{Context, get_id}
use frankenstein.Model.{LabelMatcher, Sample, SampleStream}
use frankenstein.Ring.Model.{IngesterDesc, Desc}
use frankenstein.Ring.Lookup.{get_all}
use frankenstein.Chunk.Store.Objects.{gather_errors}
use frankenstein.Distributor.{
  Clients, Distributor, append, query, query_ingester, samples_by_ingester,
  label_values_for_label_name, add_values,
}

-- A call of a distributor, with what its goroutines and its context decide; or a ring that it reads.
pub data Call : Type 0 where
  append_call :
      (List (Text × List Sample) → List (Text × List Sample)) → Context → List Sample → Call
  query_call : Context → ℤ → ℤ → List LabelMatcher → Call
  label_values_call : Text → Text → Call
  ring_read : Desc → Call

-- What a caller gets.
pub data Answer : Type 0 where
  appended : Option Error → Answer
  queried : Result (List SampleStream) → Answer
  label_values_answer : Result (List Text) → Answer
  no_answer : Answer

module _ {C W : Type 0} (api : Clients C W) where
  -- A distributor's answer to a call, and what it leaves.
  abbrev pub do_call : Call → Distributor C → W → Answer × Distributor C × W
  do_call (append_call arrange ctx samples) d w =
      let (e, d1, w1) = append api arrange ctx samples d w in (appended e, d1, w1)
  do_call (query_call ctx from to matchers) d w =
      let (r, d1) = query api ctx from to matchers d w in (queried r, d1, w)
  do_call (label_values_call user_id label_name) d w =
      let (r, d1) = label_values_for_label_name api user_id label_name d w in
      (label_values_answer r, d1, w)
  do_call (ring_read ring) d w = (no_answer, record d { ring = ring }, w)

  abbrev pub do_calls : List Call → Distributor C → W → List Answer × W
  do_calls [] d w = ([], w)
  do_calls (call ∷ calls) d w =
      let (a, d1, w1) = do_call call d w in let (as', w2) = do_calls calls d1 w1 in (a ∷ as', w2)

  -- The same without a state of clients: a client is made for every use.
  abbrev pub made_for : Text → (C → Option Error × W) → W → Option Error × W
  made_for hostname use_it w = elim (api.factory hostname) [ err e ↦ (some e, w) | ok c ↦ use_it c ]

  abbrev pub plain_send_all : Text → List (Text × List Sample) → W → List (Option Error) × W
  plain_send_all user_id [] w = ([], w)
  plain_send_all user_id ((hostname, samples) ∷ groups) w =
      let (e, w1) = made_for hostname (λ c. api.append c user_id samples w) w in
      let (es, w2) = plain_send_all user_id groups w1 in (e ∷ es, w2)

  abbrev pub plain_append :
      (List (Text × List Sample) → List (Text × List Sample))
      → Context
      → List Sample
      → Desc
      → W
      → Option Error × W
  plain_append arrange ctx samples ring w = elim (get_id ctx) [
    | err e ↦ (some e, w)
    | ok user_id ↦ elim (samples_by_ingester ring user_id samples []) [
      | err e ↦ (some e, w)
      | ok groups ↦
          let (es, w1) = plain_send_all user_id (arrange groups) w in (gather_errors es none, w1)
    ]
  ]

  abbrev pub plain_query :
      Context → ℤ → ℤ → List LabelMatcher → Desc → W → Result (List SampleStream)
  plain_query ctx from to matchers ring w = query_ingester ctx matchers ring >>= λ asked.
      api.factory asked.1.hostname >>= λ c. api.query c asked.0 from to matchers w

  abbrev pub plain_values :
      Text → Text → List IngesterDesc → List (Text × Unit {0}) → W → Result (List (Text × Unit {0}))
  plain_values user_id label_name [] set w = ok set
  plain_values user_id label_name (i ∷ ingesters) set w =
      elim (api.factory i.hostname >>= λ c. api.label_values c user_id label_name w) [
        | err e ↦ err e
        | ok vals ↦ plain_values user_id label_name ingesters (add_values api set vals) w
      ]

  abbrev pub plain_calls : List Call → Desc → W → List Answer × W
  plain_calls [] ring w = ([], w)
  plain_calls (append_call arrange ctx samples ∷ calls) ring w =
      let (e, w1) = plain_append arrange ctx samples ring w in
      let (as', w2) = plain_calls calls ring w1 in (appended e ∷ as', w2)
  plain_calls (query_call ctx from to matchers ∷ calls) ring w =
      let (as', w2) = plain_calls calls ring w in
      (queried (plain_query ctx from to matchers ring w) ∷ as', w2)
  plain_calls (label_values_call user_id label_name ∷ calls) ring w =
      let (as', w2) = plain_calls calls ring w in
      (
        label_values_answer (
              plain_values user_id label_name (get_all ring) [] w >>= λ set.
              ok (map (λ entry. entry.0) set))
            ∷ as',
        w2,
      )
  plain_calls (ring_read r ∷ calls) ring w =
      let (as', w2) = plain_calls calls r w in (no_answer ∷ as', w2)
