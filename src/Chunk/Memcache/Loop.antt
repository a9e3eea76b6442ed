-- ===== src/Chunk/Memcache/Loop.antt =====
-- chunk/memcache_client.go: the client, its loop and its Stop, as a step relation.
use frankenstein.Prelude.{
  ℕ, ◌≡◌, refl, sym, ap, Bool, true, false, ◌⊎◌, inl, inr, List, [], map, Option, none, some,
}
use mathlib.Core.Path.{subst}
use frankenstein.Prelude.Order.{Text, text_ord}
use frankenstein.Prelude.Sort.{Sorter, IsSorted}
use frankenstein.Prelude.Result.{Result, ok, err, Error}
use frankenstein.Chunk.Memcache.{itself, Srv, server_of, update_memcache_servers}

-- The state of a client.
pub record MemcacheClient : Type 0 where
  pub servers : List Text
  pub quit : Bool  -- the channel is closed
  pub wait : ℕ  -- the goroutines that the wait group waits for
  pub ticking : Bool
  pub tick_arrived : Bool  -- the ticker's channel, which holds at most one tick

module _ (show : ℕ → Text) (sorter : Sorter itself)
    (set_servers : List Text → List Text → Option Error × List Text) where
  abbrev pub updated : Result (List Srv) → List Text → List Text
  updated addrs servers = (update_memcache_servers show sorter set_servers addrs servers).1

  -- NewMemcacheClient, by the first answer of DNS: its error is only logged.
  unfoldable pub new_memcache_client : Result (List Srv) → MemcacheClient
  new_memcache_client addrs = record {
    servers = updated addrs [];
    quit = false;
    wait = 1;
    ticking = true;
    tick_arrived = false;
  }

  pub data Step (s : MemcacheClient) (t : MemcacheClient) : Type 0 where
    -- The ticker fires; a tick that finds its channel full is dropped.
    elapse : s.ticking ≡ true → t ≡ record s { tick_arrived = true } → Step s t
    -- updateLoop receives a tick, and DNS answers; an error is only logged.
    update :
        (addrs : Result (List Srv))
        → s.tick_arrived ≡ true
        → t ≡ record s { tick_arrived = false; servers = updated addrs s.servers }
        → Step s t
    -- updateLoop receives from the closed channel.
    stop_ticker : s.quit ≡ true → t ≡ record s { ticking = false } → Step s t
    -- Stop closes the channel; it returns when there is no goroutine to wait for.
    close : s.quit ≡ false → t ≡ record s { quit = true } → Step s t

  pub data Reach (s : MemcacheClient) : MemcacheClient → Type 0 where
    here : Reach s s
    next : {t u : MemcacheClient} → Reach s t → Step t u → Reach s u

  -- A goroutine is left to wait for, and the loop, once told to stop, always has a next round.
  pub record StaysUp (s : MemcacheClient) : Type 0 where
    pub in_order : IsSorted itself s.servers
    pub waits : s.wait ≡ 1
    pub spins : s.quit ≡ true → (t : MemcacheClient) × Step s t

  -- ServerList.SetServers sets the list, or fails and leaves it as it was.
  module _
      (set_or_kept : (new old : List Text)
        → (set_servers new old ≡ (none, new))
          ⊎ ((e : Error) × (set_servers new old ≡ (some e, old)))) where
    updated-IsSorted :
        (addrs : Result (List Srv)) (servers : List Text)
        → IsSorted itself servers
        → IsSorted itself (updated addrs servers)
    unfolding update_memcache_servers
    updated-IsSorted (err e) servers h = h
    updated-IsSorted (ok addrs) servers h =
        let names = map (server_of show) addrs in
        elim (set_or_kept (sorter.sort names) servers) [
          | inl e ↦ subst (IsSorted itself) (sym (ap (λ r. r.1) e)) (sorter.sort-IsSorted names)
          | inr (_, e) ↦ subst (IsSorted itself) (sym (ap (λ r. r.1) e)) h
        ]

    stays_up : {s : MemcacheClient} → IsSorted itself s.servers → s.wait ≡ 1 → StaysUp s
    stays_up h w = record { in_order = h; waits = w; spins = λ q. (_, stop_ticker q refl) }

    Step-StaysUp : {s t : MemcacheClient} → Step s t → StaysUp s → StaysUp t
    Step-StaysUp (elapse q e) v = subst StaysUp (sym e) (stays_up v.in_order v.waits)
    Step-StaysUp (update addrs q e) v =
        subst StaysUp (sym e) (stays_up (updated-IsSorted addrs _ v.in_order) v.waits)
    Step-StaysUp (stop_ticker q e) v = subst StaysUp (sym e) (stays_up v.in_order v.waits)
    Step-StaysUp (close q e) v = subst StaysUp (sym e) (stays_up v.in_order v.waits)

    -- Whatever DNS answers and in whatever order things happen, the servers of a client are in order,
    -- and Stop never returns: the goroutine that it waits for does not end, and after the channel is
    -- closed it always has a next round. SetServers sets the list that it gets, or fails and leaves
    -- the list as it was.
    pub Reach-StaysUp :
        (addrs : Result (List Srv)) {s : MemcacheClient}
        → Reach (new_memcache_client addrs) s
        → StaysUp s
    unfolding new_memcache_client
    Reach-StaysUp addrs here = stays_up (updated-IsSorted addrs [] tt) refl
    Reach-StaysUp addrs (next r st) = Step-StaysUp st (Reach-StaysUp addrs r)
