-- ===== src/Examples/RingRuns.antt =====
-- The ring on small inputs.
use frankenstein.Ring.Model.Leave.{leave_after_join}
use frankenstein.Ring.Lifecycle.Fresh.{IsFree, generate_tokens_lem}
use frankenstein.Ring.Lookup.Owner.{reply, owner, get-owner}
use frankenstein.Ring.Lookup.{collect, max_uint32, or_zero}
use frankenstein.Ring.Model.Tokens.{number}
use frankenstein.Ring.Model.{Desc, remove_ingester, TokenDesc, add_ingester, token_of}
use frankenstein.Ring.Lookup.Credit.{sum_owned, sum-collect, collect_credits_other}
use frankenstein.Ring.Lifecycle.{Registration, generate_tokens}
use frankenstein.Prelude.Sort.{IsSorted, IsStrict, Sorter, insertion_sorter}
use frankenstein.Prelude.Dict.{lookup}
use frankenstein.Prelude.{
  List, ℕ, ◌∷◌, ◌≡◌, [], arith, if◌then◌else◌, some, length, none, ◌-◌, All, refl, ap,
}
use frankenstein.Prelude.Result.{ok}
use frankenstein.Ring.Lookup.{get}
use frankenstein.Prelude.Order.{text_ord, nat_ord, Text}

abbrev alpha : Text
alpha = 1 ∷ []

abbrev beta : Text
beta = 2 ∷ []

abbrev gamma : Text
gamma = 3 ∷ []

abbrev two_tokens : List TokenDesc
two_tokens = record { token = 10; ingester = alpha } ∷ record { token = 20; ingester = beta } ∷ []

abbrev small_ring : Desc
small_ring = record {
  ingesters =
      (alpha, record { hostname = alpha; timestamp = 0 })
      ∷ (beta, record { hostname = beta; timestamp = 0 })
      ∷ [];
  tokens = two_tokens;
}

abbrev ring_sorted : IsSorted token_of two_tokens
ring_sorted = ((ground arith, tt), (tt, tt))

abbrev ring_strict : IsStrict token_of two_tokens
ring_strict = ((ground arith, tt), (tt, tt))

abbrev new_tokens : List ℕ
new_tokens = 5 ∷ 15 ∷ []

abbrev new_strict : IsStrict number new_tokens
new_strict = ((ground arith, tt), (tt, tt))

abbrev by_token : Sorter token_of
by_token = insertion_sorter token_of

abbrev by_number : Sorter number
by_number = insertion_sorter number

leave_after_join_example :
    let left =
      remove_ingester
        (add_ingester by_token 7 small_ring gamma gamma new_tokens)
        gamma
        new_tokens in
    (left.tokens ≡ small_ring.tokens)
    × (lookup alpha left.ingesters
        ≡ (if text_ord.same gamma alpha then none else lookup alpha small_ring.ingesters))
leave_after_join_example =
    leave_after_join by_token 7 small_ring gamma gamma new_tokens alpha ring_strict new_strict
      (refl, (refl, tt))

get-owner_example : get small_ring 12 ≡ reply small_ring (owner 12 two_tokens)
get-owner_example = get-owner small_ring 12 ring_sorted

sum-collect_example : sum_owned (collect small_ring) ≡ max_uint32
sum-collect_example =
    sum-collect small_ring (record { token = 10; ingester = alpha })
      (record { token = 20; ingester = beta } ∷ []) refl ring_sorted
      (omega arith, (omega arith, tt))

collect_credits_other_example :
    (lookup alpha (collect small_ring) ≡ some (20 - 10))
    × (get small_ring 15 ≡ ok (or_zero (lookup beta small_ring.ingesters)))
collect_credits_other_example =
    collect_credits_other small_ring (record { token = 10; ingester = alpha })
      (record { token = 20; ingester = beta }) 15 refl (omega arith) (omega arith)
      (λ e. cc (ap (λ (t : Text). text_ord.same t alpha) e)) (omega arith) (omega arith)

generate_tokens_lem_example :
    (ts : List ℕ) × (generate_tokens by_number 2 (10 ∷ 20 ∷ []) (10 ∷ 15 ∷ 5 ∷ []) ≡ some ts)
    × (length ts ≡ 2)
    × IsSorted number ts
    × All (IsFree (10 ∷ 20 ∷ [])) ts
generate_tokens_lem_example =
    generate_tokens_lem by_number 2 (10 ∷ 20 ∷ []) (10 ∷ 15 ∷ 5 ∷ []) ((ground arith, tt), (tt, tt))
      (omega arith)

abbrev gamma_registration : Registration
gamma_registration = record { num_tokens = 2; id = gamma; hostname = gamma }
