-- ===== src/Examples/LoopRuns.antt =====
-- Two ingesters that share a ring, which Consul then loses.
use frankenstein.Prelude.{
  ◌≡◌, ◌↔◌, ◌⊎◌, refl, sym, true, false, inl, inr, List, [], ◌∷◌, Option, none, some, Member,
  Bool-cases,
}
use frankenstein.Prelude.Order.{Text, text_ord, nat_ord}
use frankenstein.Prelude.Dict.{lookup, insert}
use frankenstein.Prelude.Search.{search_index}
use frankenstein.Prelude.Sort.{Sorter, find, insertion_sorter, insertion_sort, insert_sorted}
use frankenstein.Prelude.Result.{ok}
use frankenstein.Ring.Model.{token_of, add_ingester}
use frankenstein.Ring.Model.Tokens.{number, is_in}
use frankenstein.Ring.Lookup.{get, search}
use frankenstein.Ring.Lifecycle.{Registration, clashes, pick, generate_tokens, pick_tokens, or_new}
use frankenstein.Ring.Lifecycle.Loop.{
  Running, State, live, start_loop, end_loop, Reach, nothing, starts, ends, loses,
}
use frankenstein.Ring.Lifecycle.Held.{owned_by}
use frankenstein.Ring.Lifecycle.Shared.{Holds}
use frankenstein.Ring.Lifecycle.Reached.{HasEntry, Reach-Holds, tick_each, heartbeats_restore}
use frankenstein.Ring.Lifecycle.Served.{get_member}

abbrev by_token : Sorter token_of
by_token = insertion_sorter token_of

abbrev by_number : Sorter number
by_number = insertion_sorter number

abbrev alpha : Registration
alpha = record { num_tokens = 2; id = 97 ∷ []; hostname = 49 ∷ [] }

abbrev beta : Registration
beta = record { num_tokens = 1; id = 98 ∷ []; hostname = 50 ∷ [] }

abbrev started : Option State → State
started none = record { ring = none; members = λ id. none; gone = λ id. false }
started (some s) = s

abbrev s1 : State
s1 = started (start_loop by_token by_number alpha (9 ∷ 5 ∷ []) 1 (started none))

-- The first number is taken.
abbrev s2 : State
s2 = started (start_loop by_token by_number beta (5 ∷ 7 ∷ []) 2 s1)

two_run : Reach by_token by_number s2
unfolding start_loop pick_tokens generate_tokens pick clashes search_index insertion_sort
    insert_sorted add_ingester insert lookup
two_run =
    starts
      (starts nothing alpha (9 ∷ 5 ∷ []) 1 (5 ∷ 9 ∷ []) refl refl refl ((refl, tt), (tt, tt))
        (λ id m k p q i. cc p))
      beta (5 ∷ 7 ∷ []) 2 (7 ∷ []) refl refl refl (tt, tt)
      λ id m k p q i. elim (Bool-cases (text_ord.same (97 ∷ []) id)) [
        | inl e ↦ cc (rw e at q)
        | inr e ↦ cc (rw e at p)
      ]

abbrev alpha_started : Running
alpha_started = record { registration = alpha; tokens = 5 ∷ 9 ∷ [] }

-- The unregister of the first ingester fails.
abbrev s3 : State
s3 = end_loop by_token by_number false alpha_started s2

failed_run : Reach by_token by_number s3
unfolding start_loop pick_tokens generate_tokens pick clashes search_index insertion_sort
    insert_sorted add_ingester insert lookup end_loop
failed_run = ends two_run false (97 ∷ []) alpha_started refl refl

abbrev lost : State
lost = record s3 { ring = none }

lost_run : Reach by_token by_number lost
lost_run = loses failed_run refl

abbrev both_ids : List Text
both_ids = (98 ∷ []) ∷ (97 ∷ []) ∷ []

all_tick : (id : Text) (m : Running) → live lost id ≡ some m → Member id both_ids
unfolding start_loop pick_tokens generate_tokens pick clashes search_index insertion_sort
    insert_sorted add_ingester insert lookup end_loop
all_tick id m p = elim (Bool-cases (text_ord.same (98 ∷ []) id)) [
  | inl e ↦ inl (sym ((text_ord.same_iff (98 ∷ []) id).0 e))
  | inr e ↦ elim (Bool-cases (text_ord.same (97 ∷ []) id)) [
    | inl f ↦ inr (inl (sym ((text_ord.same_iff (97 ∷ []) id).0 f)))
    | inr f ↦ cc (rw (e, f) at p)
  ]
]

heartbeats_restore_example :
    (find token_of 7 (or_new (tick_each by_token by_number both_ids 9 lost).ring).tokens
      ≡ some (owned_by (98 ∷ []) 7))
    ↔ ((m : Running) × (lost.members (98 ∷ []) ≡ some m)
        × (is_in 7 m.tokens ≡ true)
        × ((lost.gone (98 ∷ []) ≡ false) ⊎ HasEntry by_token by_number lost (98 ∷ [])))
heartbeats_restore_example =
    heartbeats_restore by_token by_number lost_run both_ids 9 all_tick (98 ∷ []) 7

Reach-Holds_example : Holds s3
Reach-Holds_example = Reach-Holds by_token by_number failed_run

-- `Get` for the key 6 answers with the address of the second ingester.
found_beta : get (or_new s2.ring) 6 ≡ ok (record { hostname = 50 ∷ []; timestamp = 2 })
unfolding start_loop pick_tokens generate_tokens pick clashes search_index insertion_sort
    insert_sorted add_ingester insert lookup get search
found_beta = refl

get_member_example :
    (id : Text) × (m : Running) × (s2.members id ≡ some m) × ((50 ∷ []) ≡ m.registration.hostname)
get_member_example =
    get_member by_token by_number two_run 6 (record { hostname = 50 ∷ []; timestamp = 2 })
      found_beta
