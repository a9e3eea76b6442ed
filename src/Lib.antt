-- ===== src/Lib.antt =====
-- Frankenstein is a horizontally scaled Prometheus. A distributor takes samples and sends each one to
-- the ingester that a consistent-hash ring names for its user and metric; the ring is a value in
-- Consul, which every ingester changes by compare-and-swap and every distributor watches. Ingesters
-- write chunks of samples to a chunk store: the bytes to S3, with a cache in front, and an index to
-- DynamoDB. A querier asks the distributor and the chunk store and puts the answers together.
--
-- Which file models what, by paths from the repository's root:
--   Prelude/       tests, lists, orders, Go's maps (Dict), sort.Search (Search), sort.Sort (Sort, as
--                  an interface that leaves the place of equal keys open), results, integers
--   Model, User    the types of Prometheus that the program passes around; user/id.go
--   Chunk/Types    chunk/chunk.go
--   Chunk/Sets     chunk/chunk_store.go: unique, merge, nWayIntersect. A set is a list of chunks in
--                  order of ID, and its abstract view is the lookup of an ID
--   Chunk/Batch, Chunk/Buckets, Chunk/Matchers
--                  chunk/chunk_store.go: batchRequests, bigBuckets, extractMetricName
--   Chunk/Limiter  chunk/semaphore.go and the goroutines of putChunks and updateIndex, as a step
--                  relation on counts of goroutines, beside calls that share the semaphore
--   Chunk/Store    chunk/chunk_store.go and chunk/chunk_cache.go: Index (the entries of a chunk and
--                  their reading), Query (the lookups), Objects (Put, Get and the cache),
--                  with what they do in RoundTrip, Paging, Writes and Fetch. Abstract is what the
--                  index promises, which chunks match a question, and under it the steps from the
--                  entries to it: Entries, Filed and Hours (what a query sees of the entries), Answers
--                  (the view by IDs), Hash and Ranges (keys), Refines, Lookups, Gathered and Get (the
--                  lookups), Whole, Found and Kept (the bytes); Keys (the keys of entries), Services (what
--                  DynamoDB, S3 and memcache hold), Batches, Puts, Held and Reads (what Put and Get do
--                  to it) and History (puts and gets one after another)
--   Chunk/Setup    chunk/chunk_store.go: NewAWSStore, awsConfigFromURL, CreateTables; and
--                  cmd/frankenstein/main.go: setupChunkStore
--   Chunk/Memcache chunk/chunk_cache.go: memcacheStatusCode; chunk/memcache_client.go: the servers,
--                  with Servers on their order, and Loop, the client's loop and Stop
--   Ring/Model     ring/model.go
--   Ring/Lookup    ring/ring.go: Get, GetAll, Collect and the callback of loop
--   Ring/Consul    ring/consul_client.go: Get, CAS, WatchKey and the backoff; WatchPrefix and the
--                  prefixed client in Prefix
--   Ring/Lifecycle ring/ingester_lifecycle.go: the callbacks that an ingester hands to CAS, and
--                  RegisterIngester; Loop is the loops of many ingesters as a relation on states, with
--                  Held, Left, Picked, Shared and Reached on what the ring holds, and Served on Get
--   Distributor    distributor.go, with Routing on the choice of ingesters; Plain is a distributor that
--                  keeps no clients, and Cached compares the two
--   Querier        querier.go, with Streams, Merged and Whole on samples and Values on label values
--   Program        cmd/frankenstein/main.go: main, setupDistributor, setupQuerier, setupIngester; Pipeline
--                  puts a query through the distributor and the chunk store
--   Iterator       iterator.go
--   Wire           ingester_client.go and server.go: messages at both ends
--   Server         server.go: the handlers, from a request to a reply
--   Client         ingester_client.go: the calls of an ingester; Remote puts client and server together
--   Api            api/api.go: the query API, from the values of a form to a status
--   Examples       runs on small inputs, and the theorems at such inputs
--
-- How the code is read. Stateful code passes its state along; `W` is the state of the services that
-- it calls, and Deps, Cache, Kv, Codec, Clients and Querier hold the calls. Goroutines whose results
-- are gathered from a channel are a list of results and an order of arrival that is an argument. A
-- Go map is a list of entries, one for each key. A float64 is its bit pattern. Arithmetic on uint32
-- wraps at 2^32; int64 values are integers.
--
-- Fuel. nWayIntersect splits its sets in half, and as many rounds as there are sets, and one more,
-- are given; batchRequests gets a round for each request; CAS has the ten rounds of the source.
--
-- DynamoDB. The abstract view of the index takes of it that a query gets one page, with the entries under
-- its hash and within its bounds in any order, and of the library for range values that it keeps the
-- order of tuples and reads back what it wrote, for texts without null bytes, as its documentation says.
--
-- Faults that theorems leave out. BatchWriteItem may give requests back unprocessed without an error, and
-- batchWriteDynamo drops them; the goroutines of StoreChunks share a variable, so that one of them may
-- read the ID of one chunk and the data of another. The model has both, and the histories of puts and
-- gets are those in which neither happens. Ingesters whose unregister fails stay in the ring as members
-- that are gone; tokens of members are taken to be different where generateTokens does not ensure it.
--
-- Not modelled: HTTP, JSON, protobuf, snappy and the clients of AWS, memcached and Consul, which are
-- parameters; metrics and logs; timers and the loops that only wait for them; the templates of the UI;
-- the main program's flags and its wait for a signal; and the build tools under
-- tools/, a copy of another project.
pub mod Api
pub mod Chunk
pub mod Client
pub mod Distributor
pub mod Examples
pub mod Iterator
pub mod Model
pub mod Prelude
pub mod Program
pub mod Querier
pub mod Ring
pub mod Server
pub mod User
pub mod Wire
