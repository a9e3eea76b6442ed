-- ===== src/Ring/Lifecycle.antt =====
-- ring/ingester_lifecycle.go: what an ingester does to the ring in Consul.
pub mod Fresh
pub mod Loop
pub mod Held
pub mod Left
pub mod Picked
pub mod Shared
pub mod Reached
pub mod Served
use frankenstein.Prelude.{
  ℕ, zero, suc, Bool, true, false, ◌&&◌, not, List, [], ◌∷◌, ◌++◌, map, Option, none, some, ltb,
  leb, ◌==◌, if◌then◌else◌, length, get_or,
}
use mathlib.Core.Option
use frankenstein.Prelude.Order.{Text, text_ord, nat_ord, codes}
use frankenstein.Prelude.Dict.{lookup, insert}
use frankenstein.Prelude.Search.{search_index}
use frankenstein.Prelude.Sort.{Sorter}
use frankenstein.Prelude.Result.{found_empty_ring, Result, err, ◌>>=◌, no_address, ok}
use frankenstein.Ring.Model.{
  IngesterDesc, TokenDesc, Desc, token_of, new_desc, add_ingester, remove_ingester,
}
use frankenstein.Ring.Model.Tokens.{number}
use frankenstein.Ring.Consul.{Outcome, updated}

-- The test of `generateTokens` that a candidate is taken; it assumes that the taken ones are sorted.
unfoldable pub clashes : List ℕ → ℕ → Bool
clashes taken candidate =
    let j = search_index (length taken) (λ i. not (ltb (get_or taken i 0) candidate)) in
    ltb j (length taken) && get_or taken j 0 == candidate

-- The loop, over the numbers that the random source gives; `none` if they run out.
unfoldable pub pick : ℕ → List ℕ → List ℕ → Option (List ℕ)
pick zero taken randoms = some []
pick (suc n) taken [] = none
pick (suc n) taken (candidate ∷ randoms) = elim (clashes taken candidate) [
  | true ↦ pick (suc n) taken randoms
  | false ↦ Option.map (◌∷◌ candidate) (pick n taken randoms)
]

-- `sorter` is sort.Sort on sortableUint32.
unfoldable pub generate_tokens : Sorter number → ℕ → List ℕ → List ℕ → Option (List ℕ)
generate_tokens sorter num_tokens taken randoms =
    Option.map sorter.sort (pick num_tokens taken randoms)

-- The part of an IngesterRegistration that the callbacks read.
pub record Registration : Type 0 where
  pub num_tokens : ℕ
  pub id : Text
  pub hostname : Text

-- `in`, or a new ring
abbrev pub or_new : Option Desc → Desc
or_new none = new_desc
or_new (some d) = d

module _ (sorter : Sorter token_of) (numbers : Sorter number) (r : Registration) where
  -- The callback of pickTokens, with the tokens that it keeps; `none` if the random source ends.
  unfoldable pub pick_tokens : List ℕ → ℕ → Option Desc → Option (List ℕ × Outcome Desc)
  pick_tokens randoms now input =
      let ring_desc = or_new input in
      Option.map
        (λ tokens. (tokens, updated (add_ingester sorter now ring_desc r.id r.hostname tokens)))
        (generate_tokens numbers r.num_tokens (map token_of ring_desc.tokens) randoms)

  -- The callback of heartbeat.
  unfoldable pub heartbeat : ℕ → List ℕ → Option Desc → Outcome Desc
  heartbeat now tokens input =
      let ring_desc = or_new input in
      elim (lookup r.id ring_desc.ingesters) [
        | none ↦ updated (add_ingester sorter now ring_desc r.id r.hostname tokens)
        | some desc ↦ updated (record ring_desc {
          ingesters = insert r.id (record desc { timestamp = now }) ring_desc.ingesters;
        })
      ]

  -- The callback of unregister.
  unfoldable pub unregister : List ℕ → Option Desc → Outcome Desc
  unregister tokens none = record { out = none; retry = false; error = some found_empty_ring }
  unregister tokens (some ring_desc) = updated (remove_ingester ring_desc r.id tokens)

-- An address of an interface: an IP network, with the text of its IP if that is an IPv4 one, or another.
pub data Address : Type 0 where
  ip_net : Option Text → Address
  other_address : Address

-- The loop of getFirstAddressOf
unfoldable pub first_ipv4 : List Address → Result Text
first_ipv4 [] = err no_address
first_ipv4 (ip_net (some ip) ∷ addrs) = ok ip
first_ipv4 (ip_net none ∷ addrs) = first_ipv4 addrs
first_ipv4 (other_address ∷ addrs) = first_ipv4 addrs

-- getFirstAddressOf, on what the system says of the interface; the test for no addresses is in the loop.
unfoldable pub get_first_address_of : Result (List Address) → Result Text
get_first_address_of addrs = addrs >>= first_ipv4

-- RegisterIngester, up to the start of its loop; `show` writes a number.
unfoldable pub register_ingester :
    (ℕ → Text) → Result Text → Result (List Address) → ℕ → ℕ → Result Registration
register_ingester show host addrs listen_port num_tokens = do
  hostname ← host
  addr ← get_first_address_of addrs
  ok (record {
    num_tokens = num_tokens;
    id = hostname;
    hostname = addr ++ (codes ":" ++ show listen_port);
  })
