-- ===== src/Program.antt =====
-- cmd/frankenstein/main.go: which parts a process starts, which paths it serves, and the pipeline of
-- a query.
pub mod Pipeline
use frankenstein.Prelude.{ℕ, List, [], ◌∷◌, ◌++◌, map, some, if◌then◌else◌}
use frankenstein.Prelude.Int.{ℤ, int_ord}
use frankenstein.Prelude.Order.{Text, codes, text_ord}
use frankenstein.Prelude.Sort.{Sorter}
use frankenstein.Prelude.Result.{Result, ok, err, Error, mode_not_supported, ◌>>=◌}
use frankenstein.Model.{Metric, SamplePair}
use frankenstein.Ring.Model.{Desc}
use frankenstein.Ring.Lookup.{get_all}
use frankenstein.Chunk.Store.{Deps}
use frankenstein.Chunk.Store.Objects.{Arrivals, get}
use frankenstein.Distributor.{Clients, Distributor, query, label_values_for_label_name}
use frankenstein.Querier.{Querier, timestamp_of, chunk_query}

-- What answers under a path. Appenders are the distributor and the ingester.
pub data Handler : Type 0 where
  appender_of_distributor : Handler
  api_router : Handler
  graph : Handler
  static_assets : Handler
  appender_of_ingester : Handler
  query_of_ingester : Handler
  label_values_of_ingester : Handler
  metrics : Handler

abbrev pub Routes : Type 0
Routes = List (Text × Handler)

abbrev pub prefix : Text
prefix = codes "/api/prom"

-- setupQuerier; the router under "/" serves the API below prefix + "/api/v1".
abbrev pub setup_querier : Text → Routes
setup_querier prefix =
    (codes "/", api_router)
    ∷ (prefix ++ codes "/graph", graph)
    ∷ (prefix ++ codes "/static/", static_assets)
    ∷ []

abbrev pub setup_distributor : Routes
setup_distributor = (prefix ++ codes "/push", appender_of_distributor) ∷ setup_querier prefix

abbrev pub setup_ingester : Routes
setup_ingester =
    (codes "/push", appender_of_ingester)
    ∷ (codes "/query", query_of_ingester)
    ∷ (codes "/label_values", label_values_of_ingester)
    ∷ []

-- main, up to its wait for a signal: what a process serves, or the error with which it ends. The
-- arguments are the mode, and the results of setupChunkStore and of the clients of Consul, of the
-- registration of an ingester and of local.NewIngester.
unfoldable pub main :
    {Store Consul Registration Ingester : Type 0}
    → Text
    → Result Store
    → Result Consul
    → Result Registration
    → (Store → Result Ingester)
    → Result Routes
main mode chunk_store consul registration new_ingester = do
  store ← chunk_store
  client ← consul
  routes ←
      if text_ord.same mode (codes "distributor")
      then ok setup_distributor
      else if text_ord.same mode (codes "ingester")
      then (registration >>= λ r. new_ingester store >>= λ i. ok setup_ingester)
      else err mode_not_supported
  ok (routes ++ (codes "/metrics", metrics) ∷ [])

module _ {C W : Type 0} (deps : Deps ℤ W) (api : Clients C W) (fingerprint : Metric → ℕ)
    (decode : List ℕ → List SamplePair) (sorter : Sorter timestamp_of) (arrivals : Arrivals deps)
    (user_id : Text) (d : Distributor C) where
  -- The distributor as a querier for a user. The clients that it makes do not change its answers.
  abbrev pub distributor_querier : Querier W
  distributor_querier = record {
    query = λ from to matchers w. (query api (some user_id) from to matchers d w).0;
    label_values = λ name w. (label_values_for_label_name api user_id name d w).0;
  }

  -- ChunkQuerier; it has no label values.
  abbrev pub chunk_querier : Querier W
  chunk_querier = record {
    query = λ from to matchers w.
        chunk_query fingerprint decode sorter
          (get deps arrivals (some user_id) from to matchers w).0;
    label_values = λ name w. ok [];
  }

  -- newQuerier of setupQuerier, for a context with a user: the queriers of its MergeQuerier.
  abbrev pub new_querier : List (Querier W)
  new_querier = distributor_querier ∷ chunk_querier ∷ []
