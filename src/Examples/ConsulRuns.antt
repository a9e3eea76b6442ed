-- ===== src/Examples/ConsulRuns.antt =====
-- Compare-and-swap and watching over a service with one key.
use frankenstein.Ring.Consul.Swap.{Swapped, cas-Swapped, stale_index_fails}
use frankenstein.Prelude.{
  List, Option, [], if◌then◌else◌, none, some, ℕ, ◌∷◌, true, ◌==◌, ◌≡◌, suc, false,
}
use frankenstein.Prelude.Result.{ok, failed_to_cas}
use frankenstein.Prelude.{refl}
use frankenstein.Ring.Consul.{
  cas, cas_loop, Codec, Kv, KvPair, round, call_back, Outcome, write, updated,
}

abbrev codec : Codec (List ℕ)
codec = record { decode = λ bytes. ok bytes; encode = λ v. ok v }

abbrev index_of : Option KvPair → ℕ
index_of none = 0
index_of (some kvp) = kvp.modify_index

-- A write is taken at the index of what is there, and at 0 where nothing is.
abbrev one_key : Kv (Option KvPair)
one_key = record {
  get = λ key w. (ok w, w);
  cas = λ key bytes index w.
      if index == index_of w
      then (ok true, some (record { value = bytes; modify_index = suc index }))
      else (ok false, w);
}

abbrev writes_seven : Option (List ℕ) → Outcome (List ℕ)
writes_seven old = updated (7 ∷ [])

abbrev seven : KvPair
seven = record { value = 7 ∷ []; modify_index = 1 }

cas_run : cas codec one_key [] writes_seven none ≡ (none, some seven)
unfolding cas cas_loop round call_back write
cas_run = refl

cas-Swapped_example : Swapped codec one_key [] writes_seven (some seven)
cas-Swapped_example = cas-Swapped codec one_key [] writes_seven none (some seven) cas_run

-- After the first read of what is there, the key goes missing; a write is taken at 0 only.
abbrev vanishing_key : Kv (Option KvPair)
vanishing_key = record {
  get = λ key w. (ok w, none);
  cas = λ key bytes index w.
      if index == 0
      then (ok true, some (record { value = bytes; modify_index = 1 }))
      else (ok false, w);
}

abbrev at_three : KvPair
at_three = record { value = 5 ∷ []; modify_index = 3 }

stale_index_fails_example :
    cas codec vanishing_key [] writes_seven (some at_three) ≡ (some failed_to_cas, none)
stale_index_fails_example =
    stale_index_fails codec vanishing_key [] writes_seven 3 none (7 ∷ []) (7 ∷ []) refl refl
      (refl, refl) refl (some at_three) none at_three (5 ∷ []) (7 ∷ []) (7 ∷ []) refl refl refl
      (refl, refl) refl refl
