-- ===== src/Ring/Consul/Prefix.antt =====
-- ring/consul_client.go: watching a prefix, and the client that puts a prefix before every key.
use frankenstein.Prelude.{ℕ, Bool, true, false, List, [], ◌∷◌, ◌++◌, Option, if◌then◌else◌, ◌==◌}
use frankenstein.Prelude.Order.{Text}
use frankenstein.Prelude.Result.{ok, err, Error}
use frankenstein.Ring.Consul.{Codec, Outcome, Answer, initial_backoff, wait}

-- WatchPrefix: an answer holds all keys under the prefix, with their values.
pub data PrefixAnswer : Type 0 where
  prefix_failed : PrefixAnswer
  prefix_answer : List (Text × List ℕ) → ℕ → PrefixAnswer

pub record PrefixState (V : Type 0) : Type 0 where
  pub backoff : ℕ
  pub index : ℕ
  pub seen : List (Text × V)

module _ {V : Type 0} (codec : Codec V) (f : Text → V → Bool) where
  abbrev pub start_prefix : PrefixState V
  start_prefix = record { backoff = initial_backoff; index = 0; seen = [] }

  -- The loop over the pairs; false when the callback asks to stop.
  unfoldable pub see_pairs : List (Text × List ℕ) → List (Text × V) → List (Text × V) × Bool
  see_pairs [] seen = (seen, true)
  see_pairs ((key, bytes) ∷ kvps) seen = elim (codec.decode bytes) [
    | err e ↦ see_pairs kvps seen
    | ok v ↦ elim (f key v) [
      | true ↦ see_pairs kvps ((key, v) ∷ seen)
      | false ↦ ((key, v) ∷ seen, false)
    ]
  ]

  unfoldable pub poll_prefix : PrefixAnswer → PrefixState V → PrefixState V × Bool
  poll_prefix prefix_failed s = (record s { backoff = wait s.backoff }, true)
  poll_prefix (prefix_answer kvps last_index) s =
      let (seen, more) = see_pairs kvps s.seen in
      if s.index == last_index
      then (record s { backoff = initial_backoff }, true)
      else (record { backoff = initial_backoff; index = last_index; seen = seen }, more)

  unfoldable pub watch_prefix : List PrefixAnswer → PrefixState V → PrefixState V
  watch_prefix [] s = s
  watch_prefix (a ∷ answers) s =
      let (s1, more) = poll_prefix a s in if more then watch_prefix answers s1 else s1

-- The interface ConsulClient, over a type `W` of states of Consul. A watch gets what Consul answers
-- to its polls, as far as it polls, and returns what its callback has seen.
pub record ConsulClient (V W : Type 0) : Type 0 where
  pub get : Text → W → Option Error × W
  pub cas : Text → (Option V → Outcome V) → W → Option Error × W
  pub watch_prefix : Text → (Text → V → Bool) → List PrefixAnswer → List (Text × V)
  pub watch_key : Text → (Option V → Bool) → List Answer → List (Option V)
  pub put_bytes : Text → List ℕ → W → Option Error × W

-- PrefixClient: every operation on the key behind the prefix.
unfoldable pub prefix_client : {V W : Type 0} → ConsulClient V W → Text → ConsulClient V W
prefix_client client prefix = record {
  get = λ key w. client.get (prefix ++ key) w;
  cas = λ key f w. client.cas (prefix ++ key) f w;
  watch_prefix = λ path f answers. client.watch_prefix (prefix ++ path) f answers;
  watch_key = λ key f answers. client.watch_key (prefix ++ key) f answers;
  put_bytes = λ key buf w. client.put_bytes (prefix ++ key) buf w;
}
