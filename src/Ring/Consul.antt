-- ===== src/Ring/Consul.antt =====
-- ring/consul_client.go: compare-and-swap and watching, over a key-value service.
pub mod Swap
pub mod Watch
pub mod Prefix
use frankenstein.Prelude.{
  ℕ, zero, suc, ◌*◌, Bool, true, false, List, [], ◌∷◌, ◌++◌, Option, none, some, if◌then◌else◌, ltb,
  ◌==◌,
}
use frankenstein.Prelude.Order.{Text}
use frankenstein.Prelude.Result.{Result, ok, err, Error, failed_to_cas, panicked, not_found}

-- A value as Consul holds it, with its ModifyIndex
pub record KvPair : Type 0 where
  pub value : List ℕ
  pub modify_index : ℕ

-- The interface `kv`, over a type `W` of states of the service. Other clients may act in each call.
pub record Kv (W : Type 0) : Type 0 where
  pub get : Text → W → Result (Option KvPair) × W
  pub cas : Text → List ℕ → ℕ → W → Result Bool × W

-- The JSON encoding of the values under a key
pub record Codec (V : Type 0) : Type 0 where
  pub decode : List ℕ → Result V
  pub encode : V → Result (List ℕ)

-- What a CASCallback returns.
pub record Outcome (V : Type 0) : Type 0 where
  pub out : Option V
  pub retry : Bool
  pub error : Option Error

abbrev pub updated : {V : Type 0} → V → Outcome V
updated v = record { out = some v; retry = true; error = none }

module _ {V W : Type 0} (codec : Codec V) (kv : Kv W) where
  -- consulClient.Get. It decodes what it reads into a value of its own, and drops it.
  unfoldable pub get : Text → W → Option Error × W
  get key w =
      let (read, w1) = kv.get key w in
      elim read [
        | err e ↦ (some e, w1)
        | ok none ↦ (some not_found, w1)
        | ok (some kvp) ↦ elim (codec.decode kvp.value) [ err e ↦ (some e, w1) | ok v ↦ (none, w1) ]
      ]

  module _ (key : Text) (f : Option V → Outcome V) where
    -- The end of a round of `CAS`: the write, at an index. `again` is the next round.
    unfoldable pub write : (ℕ → W → Option Error × W) → ℕ → V → W → Option Error × W
    write again index v w = elim (codec.encode v) [
      | err e ↦ again index w
      | ok bytes ↦
          let (swapped, w1) = kv.cas key bytes index w in
          elim swapped [ err e ↦ again index w1 | ok false ↦ again index w1 | ok true ↦ (none, w1) ]
    ]

    -- The middle of a round: the callback, on what was read.
    unfoldable pub call_back : (ℕ → W → Option Error × W) → ℕ → Option V → W → Option Error × W
    call_back again index intermediate w =
        let o = f intermediate in
        elim o.error [
          | some e ↦ if o.retry then again index w else (some e, w)
          | none ↦ elim o.out [ none ↦ (some panicked, w) | some v ↦ write again index v w ]
        ]

    -- A round. `index` is the variable that the rounds share.
    unfoldable pub round : (ℕ → W → Option Error × W) → ℕ → W → Option Error × W
    round again index w =
        let (read, w1) = kv.get key w in
        elim read [
          | err e ↦ again index w1
          | ok none ↦ call_back again index none w1
          | ok (some kvp) ↦ elim (codec.decode kvp.value) [
            | err e ↦ again index w1
            | ok v ↦ call_back again kvp.modify_index (some v) w1
          ]
        ]

    unfoldable pub cas_loop : ℕ → ℕ → W → Option Error × W
    cas_loop zero index w = (some failed_to_cas, w)
    cas_loop (suc rounds) index w = round (cas_loop rounds) index w

    abbrev pub retries : ℕ
    retries = 10

    unfoldable pub cas : W → Option Error × W
    cas w = cas_loop retries 0 w

-- Durations in seconds.
abbrev pub initial_backoff : ℕ
initial_backoff = 1

abbrev pub max_backoff : ℕ
max_backoff = 60

-- backoff.wait, when its time passes before the watch is done
unfoldable pub wait : ℕ → ℕ
wait backoff = if ltb max_backoff (backoff * 2) then max_backoff else backoff * 2

-- What the service answers to a long poll: an error, or the value and the index that it has reached.
pub data Answer : Type 0 where
  failed : Answer
  answer : Option (List ℕ) → ℕ → Answer

-- The state of `WatchKey` between polls, and the values that the callback has had, the last one first.
pub record WatchState (V : Type 0) : Type 0 where
  pub backoff : ℕ
  pub index : ℕ
  pub seen : List (Option V)

module _ {V : Type 0} (codec : Codec V) (f : Option V → Bool) where
  abbrev pub start_watch : WatchState V
  start_watch = record { backoff = initial_backoff; index = 0; seen = [] }

  -- One poll; false when the callback asks to stop.
  unfoldable pub poll : Answer → WatchState V → WatchState V × Bool
  poll failed s = (record s { backoff = wait s.backoff }, true)
  poll (answer value last_index) s =
      let seen : Option V → WatchState V × Bool = λ out.
        (record { backoff = initial_backoff; index = last_index; seen = out ∷ s.seen }, f out) in
      if s.index == last_index then (record s { backoff = initial_backoff }, true) else elim value [
        | none ↦ seen none
        | some bytes ↦ elim (codec.decode bytes) [
          | err e ↦ (record s { backoff = initial_backoff; index = last_index }, true)
          | ok v ↦ seen (some v)
        ]
      ]

  -- WatchKey: the polls until the callback stops it, or until it is done and polls no more.
  unfoldable pub watch_key : List Answer → WatchState V → WatchState V
  watch_key [] s = s
  watch_key (a ∷ answers) s = let (s1, more) = poll a s in if more then watch_key answers s1 else s1
