-- ===== src/Ring/Consul/Swap.antt =====
-- `CAS` when it succeeds, and when the key vanishes between its rounds.
use frankenstein.Prelude.{
  ℕ, zero, suc, Bool, true, false, inl, inr, List, Option, none, some, ◌≡◌, refl, arith, Bool-cases,
}
use frankenstein.Prelude.Order.{Text}
use frankenstein.Prelude.Result.{Result, ok, err, Error, failed_to_cas}
use frankenstein.Ring.Consul.{KvPair, Kv, Codec, Outcome, write, call_back, round, cas_loop, cas}

module _ {V W : Type 0} (codec : Codec V) (kv : Kv W) (key : Text) (f : Option V → Outcome V) where
  -- What a round has read: nothing, or a value at an index.
  abbrev pub HasRead : Option V → ℕ → W → W → Type 0
  HasRead none index w w1 = kv.get key w ≡ (ok none, w1)
  HasRead (some v) index w w1 =
      (kvp : KvPair) × (kv.get key w ≡ (ok (some kvp), w1))
      × (codec.decode kvp.value ≡ ok v)
      × (kvp.modify_index ≡ index)

  -- A read, the callback on it, and a write of the callback's value that the service has taken.
  pub record Swapped (final : W) : Type 0 where
    pub before : W
    pub read_at : W
    pub index : ℕ
    pub input : Option V
    pub output : V
    pub bytes : List ℕ
    pub has_read : HasRead input index before read_at
    pub called : ((f input).error ≡ none) × ((f input).out ≡ some output)
    pub encoded : codec.encode output ≡ ok bytes
    pub taken : kv.cas key bytes index read_at ≡ (ok true, final)

  abbrev Good : (ℕ → W → Option Error × W) → Type 0
  Good again = (index : ℕ) (w final : W) → again index w ≡ (none, final) → Swapped final

  module _ (again : ℕ → W → Option Error × W) (good : Good again) (before : W) where
    write-Swapped :
        (input : Option V) (index : ℕ) (v : V) (w final : W)
        → HasRead input index before w
        → ((f input).error ≡ none) × ((f input).out ≡ some v)
        → write codec kv key f again index v w ≡ (none, final)
        → Swapped final
    unfolding write
    write-Swapped input index v w final r c h = go (codec.encode v) refl
      where
        swap :
            (bytes : List ℕ) (res : Result Bool) (w1 : W)
            → codec.encode v ≡ ok bytes
            → kv.cas key bytes index w ≡ (res, w1)
            → Swapped final
        swap bytes (err e) w1 q p = good index w1 final (ground (arith, q, p, h))
        swap bytes (ok false) w1 q p = good index w1 final (ground (arith, q, p, h))
        swap bytes (ok true) w1 q p = record {
          before = before;
          read_at = w;
          index = index;
          input = input;
          output = v;
          bytes = bytes;
          has_read = r;
          called = c;
          encoded = q;
          taken = ground (arith, p, q, h);
        }

        go : (res : Result (List ℕ)) → codec.encode v ≡ res → Swapped final
        go (err e) q = good index w final (rw (q, write) at h)
        go (ok bytes) q =
            swap bytes (kv.cas key bytes index w).0 (kv.cas key bytes index w).1 q refl

    call_back-Swapped :
        (input : Option V) (index : ℕ) (w final : W)
        → HasRead input index before w
        → call_back codec kv key f again index input w ≡ (none, final)
        → Swapped final
    unfolding call_back
    call_back-Swapped input index w final r h = go (f input).error (f input).out refl refl
      where
        go :
            (e : Option Error) (o : Option V)
            → (f input).error ≡ e
            → (f input).out ≡ o
            → Swapped final
        go none none p q = cc (rw (p, q, call_back) at h)
        go none (some v) p q =
            write-Swapped input index v w final r (p, q) (rw (p, q, call_back) at h)
        go (some e) o p q = elim (Bool-cases (f input).retry) [
          | inl t ↦ good index w final (rw (p, t, call_back) at h)
          | inr t ↦ cc (rw (p, t, call_back) at h)
        ]

    round-Swapped :
        (index : ℕ) (final : W)
        → round codec kv key f again index before ≡ (none, final)
        → Swapped final
    unfolding round
    round-Swapped index final h = go (kv.get key before).0 (kv.get key before).1 refl
      where
        decoded :
            (kvp : KvPair) (w1 : W) (d : Result V)
            → kv.get key before ≡ (ok (some kvp), w1)
            → codec.decode kvp.value ≡ d
            → Swapped final
        decoded kvp w1 (err e) p q = good index w1 final (ground (arith, q, p, h))
        decoded kvp w1 (ok v) p q =
            call_back-Swapped (some v) kvp.modify_index w1 final (kvp, p, q, refl)
              (ground (arith, q, p, h))

        go :
            (read : Result (Option KvPair)) (w1 : W)
            → kv.get key before ≡ (read, w1)
            → Swapped final
        go (err e) w1 p = good index w1 final (ground (arith, p, h))
        go (ok none) w1 p = call_back-Swapped none index w1 final p (ground (arith, p, h))
        go (ok (some kvp)) w1 p = decoded kvp w1 (codec.decode kvp.value) p refl

  cas_loop-Swapped : (rounds : ℕ) → Good (cas_loop codec kv key f rounds)
  unfolding cas_loop
  cas_loop-Swapped zero index w final h = cc
  cas_loop-Swapped (suc rounds) index w final h =
      round-Swapped (cas_loop codec kv key f rounds) (cas_loop-Swapped rounds) w index final h

  -- When `CAS` returns no error, the service has taken, as the last thing that happened, the encoding
  -- of a value that the callback made without an error from what was read in the same round; where a
  -- value was read, it was taken at the index with which that value was read.
  pub cas-Swapped : (w final : W) → cas codec kv key f w ≡ (none, final) → Swapped final
  unfolding cas
  cas-Swapped w final h = cas_loop-Swapped 10 0 w final h

  -- The key is missing, and the service refuses a write of the callback's value at an index.
  module _ (index : ℕ) (w : W) (v : V) (bytes : List ℕ) (missing : kv.get key w ≡ (ok none, w))
      (refused : kv.cas key bytes index w ≡ (ok false, w))
      (calls : ((f none).error ≡ none) × ((f none).out ≡ some v))
      (encodes : codec.encode v ≡ ok bytes) where
    refused_rounds : (rounds : ℕ) → cas_loop codec kv key f rounds index w ≡ (some failed_to_cas, w)
    unfolding cas_loop round call_back write
    refused_rounds zero = refl
    refused_rounds (suc rounds) =
        ground (arith, missing, refused, calls, encodes, refused_rounds rounds)

    -- When the first round of CAS reads a value at an index and its write is refused, since the
    -- key has gone missing, the nine rounds that are left write at that same index, each on
    -- reading that the key is missing: if the service refuses their value there, CAS fails,
    -- whatever it would do with a write at 0.
    pub stale_index_fails :
        (w0 w1 : W) (kvp : KvPair) (old new : V) (new_bytes : List ℕ)
        → kvp.modify_index ≡ index
        → kv.get key w0 ≡ (ok (some kvp), w1)
        → codec.decode kvp.value ≡ ok old
        → ((f (some old)).error ≡ none) × ((f (some old)).out ≡ some new)
        → codec.encode new ≡ ok new_bytes
        → kv.cas key new_bytes index w1 ≡ (ok false, w)
        → cas codec kv key f w0 ≡ (some failed_to_cas, w)
    unfolding cas cas_loop round call_back write
    stale_index_fails w0 w1 kvp old new new_bytes at read decoded called encoded gone =
        round_then 9 0
      where
        round_then :
            (rounds start : ℕ)
            → cas_loop codec kv key f (suc rounds) start w0 ≡ (some failed_to_cas, w)
        round_then rounds start =
            ground (arith, read, decoded, called, encoded, at, gone, refused_rounds rounds)
