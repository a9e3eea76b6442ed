-- ===== src/Examples/DistributorRuns.antt =====
-- A distributor over ingesters that keep what they are sent, and one that is not there.
use frankenstein.Prelude.{ℕ, ◌≡◌, ◌+◌, refl, List, [], ◌∷◌, none, some, if◌then◌else◌, length}
use frankenstein.Prelude.Int.{pos}
use frankenstein.Prelude.Order.{Text, text_ord}
use frankenstein.Prelude.Search.{search_index}
use frankenstein.Prelude.Dict.{lookup, insert}
use frankenstein.Prelude.Result.{ok, err, external}
use frankenstein.Model.{Sample, metric_name_label}
use frankenstein.Ring.Model.{Desc}
use frankenstein.Ring.Lookup.{get, get_all, search}
use frankenstein.Chunk.Store.Objects.{gather_errors}
use frankenstein.Distributor.{
  token_for_metric, token_for, fnv_write, samples_by_ingester, Clients, new_distributor,
}
use frankenstein.Distributor.Plain.{
  Call, append_call, label_values_call, ring_read, appended, label_values_answer, no_answer,
  do_calls, plain_calls,
}
use frankenstein.Distributor.Cached.{new_distributor-IsMade, do_calls-plain_calls}

-- A client is its host name; the ingesters count the samples that they got.
abbrev api : Clients Text ℕ
api = record {
  factory = λ h. if text_ord.same h (50 ∷ []) then err (external 7) else ok h;
  append = λ c user_id samples w. (none, length samples + w);
  query = λ c user_id from to matchers w. ok [];
  label_values = λ c user_id name w. ok (c ∷ []);
}

abbrev two_hosts : Desc
two_hosts = record {
  ingesters =
      (97 ∷ [], record { hostname = 49 ∷ []; timestamp = 1 })
      ∷ (98 ∷ [], record { hostname = 50 ∷ []; timestamp = 1 })
      ∷ [];
  tokens = record { token = 5; ingester = 97 ∷ [] } ∷ [];
}

abbrev a_sample : Sample
a_sample = record { metric = (metric_name_label, 7 ∷ []) ∷ []; timestamp = pos 1; value = 0 }

abbrev some_calls : List Call
some_calls =
    append_call (λ gs. gs) (some (4 ∷ [])) (a_sample ∷ [])
    ∷ label_values_call (4 ∷ []) (8 ∷ [])
    ∷ ring_read (record two_hosts { ingesters = [] })
    ∷ append_call (λ gs. gs) (some (4 ∷ [])) (a_sample ∷ a_sample ∷ [])
    ∷ []

do_calls-plain_calls_example :
    do_calls api some_calls (new_distributor two_hosts) 0 ≡ plain_calls api some_calls two_hosts 0
do_calls-plain_calls_example =
    do_calls-plain_calls api some_calls (new_distributor two_hosts) 0
      (new_distributor-IsMade api two_hosts)

-- The second ingester has no client, so the label values fail; the samples of both appends arrive.
calls_run :
    plain_calls api some_calls two_hosts 0
    ≡ (appended none ∷ label_values_answer (err (external 7)) ∷ no_answer ∷ appended none ∷ [], 3)
unfolding samples_by_ingester get_all get gather_errors insert lookup search search_index
    token_for_metric token_for fnv_write
calls_run = refl
