-- ===== src/Chunk/Setup.antt =====
-- chunk/chunk_store.go and cmd/frankenstein/main.go: making a chunk store, and its table.
use frankenstein.Prelude.{
  ℕ, Bool, false, ◌||◌, ◌==◌, if◌then◌else◌, List, [], ◌∷◌, ◌++◌, Option, none, some,
}
use frankenstein.Prelude.Order.{Text, codes, text_ord}
use frankenstein.Prelude.Result.{Result, ok, err, Error, ◌>>=◌, no_credentials}
use frankenstein.Chunk.Limiter.{max_concurrent_puts}

-- net/url's URL, as far as it is read: user and password, host and path
pub record Url : Type 0 where
  pub user : Option (Text × Text)
  pub host : Text
  pub path : Text

-- aws.Config: the credentials, an endpoint if it is not the region's own, and the region
pub record AwsConfig : Type 0 where
  pub credentials : Text × Text
  pub endpoint : Option Text
  pub region : Text

-- strings.Contains(s, "."); 46 is the code of the dot.
abbrev pub has_dot : Text → Bool
has_dot [] = false
has_dot (c ∷ s) = c == 46 || has_dot s

unfoldable pub aws_config_from_url : Url → Result AwsConfig
aws_config_from_url url = elim url.user [
  | none ↦ err no_credentials
  | some user ↦
      if has_dot url.host
      then ok (record {
        credentials = user;
        endpoint = some (codes "http://" ++ url.host);
        region = codes "dummy";
      })
      else ok (record { credentials = user; endpoint = none; region = url.host })
]

-- strings.TrimPrefix(s, "/"); 47 is the code of the slash.
abbrev pub trim_slash : Text → Text
trim_slash [] = []
trim_slash (c ∷ s) = if c == 47 then s else c ∷ s

-- StoreConfig, with a cache of type `C`
pub record StoreConfig (C : Type 0) : Type 0 where
  pub s3_url : Text
  pub dynamodb_url : Text
  pub chunk_cache : Option C

-- AWSStore, before its clients have connected
pub record AwsStore (C : Type 0) : Type 0 where
  pub dynamodb : AwsConfig
  pub s3 : AwsConfig
  pub chunk_cache : Option C
  pub table_name : Text
  pub bucket_name : Text
  pub put_permits : ℕ

-- `parse` is url.Parse.
unfoldable pub new_aws_store :
    {C : Type 0} → (Text → Result Url) → StoreConfig C → Result (AwsStore C)
new_aws_store parse cfg = do
  s3_url ← parse cfg.s3_url
  s3_config ← aws_config_from_url s3_url
  dynamodb_url ← parse cfg.dynamodb_url
  dynamodb_config ← aws_config_from_url dynamodb_url
  ok (record {
    dynamodb = dynamodb_config;
    s3 = s3_config;
    chunk_cache = cfg.chunk_cache;
    table_name = trim_slash dynamodb_url.path;
    bucket_name = trim_slash s3_url.path;
    put_permits = max_concurrent_puts;
  })

-- ListTables, with its limit, and CreateTable, over a type `W` of states of DynamoDB
pub record Tables (W : Type 0) : Type 0 where
  pub list_tables : ℕ → W → Result (List Text)
  pub create_table : Text → W → Option Error × W

abbrev pub is_named : Text → List Text → Bool
is_named name [] = false
is_named name (t ∷ ts) = text_ord.same t name || is_named name ts

abbrev pub list_limit : ℕ
list_limit = 10

-- The schema of the new table is left out.
unfoldable pub create_tables : {W : Type 0} → Tables W → Text → W → Option Error × W
create_tables tables table_name w = elim (tables.list_tables list_limit w) [
  | err e ↦ (some e, w)
  | ok names ↦ if is_named table_name names then (none, w) else tables.create_table table_name w
]

-- The flags that setupChunkStore reads
pub record Flags : Type 0 where
  pub s3_url : Text
  pub dynamodb_url : Text
  pub dynamodb_create_tables : Bool
  pub memcached_hostname : Text

-- setupChunkStore: `new_cache` makes the cache over a client for a host.
abbrev pub cache_of : {C : Type 0} → (Text → C) → Text → Option C
cache_of new_cache [] = none
cache_of new_cache (c ∷ host) = some (new_cache (c ∷ host))

abbrev pub ready : {C W : Type 0} → AwsStore C → Option Error × W → Result (AwsStore C) × W
ready store (some e, w) = (err e, w)
ready store (none, w) = (ok store, w)

unfoldable pub setup_chunk_store :
    {C W : Type 0}
    → (Text → Result Url)
    → (Text → C)
    → Tables W
    → Flags
    → W
    → Result (AwsStore C) × W
setup_chunk_store parse new_cache tables cfg w =
    elim (new_aws_store parse (record {
      s3_url = cfg.s3_url;
      dynamodb_url = cfg.dynamodb_url;
      chunk_cache = cache_of new_cache cfg.memcached_hostname;
    })) [
      | err e ↦ (err e, w)
      | ok store ↦
          if cfg.dynamodb_create_tables
          then ready store (create_tables tables store.table_name w)
          else (ok store, w)
    ]
