-- ===== src/Chunk/Memcache.antt =====
-- chunk/memcache_client.go and the status codes of chunk/chunk_cache.go.
pub mod Servers
pub mod Loop
use frankenstein.Prelude.{ℕ, List, ◌++◌, map, Option, none, some}
use frankenstein.Prelude.Order.{Text, codes, text_ord}
use frankenstein.Prelude.Sort.{Sorter}
use frankenstein.Prelude.Result.{Result, ok, err, Error}

abbrev pub itself : Text → Text
itself s = s

-- net.SRV: the target and the port
pub record Srv : Type 0 where
  pub target : Text
  pub port : ℕ

-- The errors of the memcache library that the status codes tell apart.
pub data CacheError : Type 0 where
  cache_miss malformed_key other_cache_error : CacheError

-- memcacheStatusCode
unfoldable pub memcache_status_code : Option CacheError → Text
memcache_status_code none = codes "200"
memcache_status_code (some cache_miss) = codes "404"
memcache_status_code (some malformed_key) = codes "400"
memcache_status_code (some other_cache_error) = codes "500"

-- fmt.Sprintf("%s:%d"), where `show` writes a number
abbrev pub server_of : (ℕ → Text) → Srv → Text
server_of show srv = srv.target ++ (codes ":" ++ show srv.port)

-- updateMemcacheServers: `set_servers` is ServerList.SetServers, on the list of servers as it was.
unfoldable pub update_memcache_servers :
    (ℕ → Text)
    → Sorter itself
    → (List Text → List Text → Option Error × List Text)
    → Result (List Srv)
    → List Text
    → Option Error × List Text
update_memcache_servers show sorter set_servers (err e) servers = (some e, servers)
update_memcache_servers show sorter set_servers (ok addrs) servers =
    set_servers (sorter.sort (map (server_of show) addrs)) servers
