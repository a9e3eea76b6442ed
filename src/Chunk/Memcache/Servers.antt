-- ===== src/Chunk/Memcache/Servers.antt =====
-- chunk/memcache_client.go: the list of servers does not depend on the order of DNS's answer.
use mathlib.Core.List.{Permᴰ}
use mathlib.Core.List.Permᴰ
use frankenstein.Prelude.{ℕ, ◌≡◌, ap, List, Option}
use frankenstein.Prelude.Order.{Text, text_ord}
use frankenstein.Prelude.Sort.{Sorter}
use frankenstein.Prelude.Ordered.{sort-any_order}
use frankenstein.Prelude.Result.{ok, Error}
use frankenstein.Chunk.Memcache.{itself, Srv, server_of, update_memcache_servers}

-- In whatever order DNS answers with the same records, with repetitions, updateMemcacheServers sets
-- the same list of servers.
pub update_memcache_servers-any_order :
    (show : ℕ → Text) (sorter : Sorter itself)
    (set_servers : List Text → List Text → Option Error × List Text) (addrs others : List Srv)
    (servers : List Text)
    → Permᴰ addrs others
    → update_memcache_servers show sorter set_servers (ok addrs) servers
      ≡ update_memcache_servers show sorter set_servers (ok others) servers
unfolding update_memcache_servers
update_memcache_servers-any_order show sorter set_servers addrs others servers p =
    ap (λ sorted. set_servers sorted servers)
      (sort-any_order itself (λ x y e. e) sorter (Permᴰ.map (server_of show) p))
