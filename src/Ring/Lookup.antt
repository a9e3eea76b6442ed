-- ===== src/Ring/Lookup.antt =====
-- ring/ring.go: finding the ingester of a key, and how much of the ring each one owns.
pub mod Owner
pub mod Credit
use frankenstein.Prelude.{
  ℕ, ◌+◌, ◌-◌, ◌%◌, ◌^◌, Bool, List, [], ◌∷◌, map, Option, none, some, ltb, leb, if◌then◌else◌,
  length, get_or,
}
use frankenstein.Prelude.Order.{Text, text_ord}
use frankenstein.Prelude.Dict.{lookup, insert}
use frankenstein.Prelude.Search.{search_index}
use frankenstein.Prelude.Result.{Result, ok, err, empty_ring}
use frankenstein.Ring.Model.{IngesterDesc, TokenDesc, Desc, new_desc}

abbrev pub max_uint32 : ℕ
max_uint32 = 4294967295

-- Arithmetic on uint32 wraps.
abbrev pub u32 : ℕ → ℕ
u32 n = n % 4294967296

-- Go's zero values, which a read of a missing key gives.
abbrev pub zero_token : TokenDesc
zero_token = record { token = 0; ingester = [] }

abbrev pub zero_ingester : IngesterDesc
zero_ingester = record { hostname = []; timestamp = 0 }

abbrev pub or_zero : Option IngesterDesc → IngesterDesc
or_zero none = zero_ingester
or_zero (some i) = i

-- The test that `search` hands to sort.Search.
abbrev pub above_key : ℕ → TokenDesc → Bool
above_key key t = ltb key t.token

unfoldable pub search : Desc → ℕ → ℕ
search d key =
    let i = search_index (length d.tokens) (λ x. above_key key (get_or d.tokens x zero_token)) in
    if leb (length d.tokens) i then 0 else i

-- Ring.Get
unfoldable pub get : Desc → ℕ → Result IngesterDesc
get d key =
    if leb (length d.tokens) 0
    then err empty_ring
    else ok (or_zero (lookup (get_or d.tokens (search d key) zero_token).ingester d.ingesters))

-- Ring.GetAll, in one of the orders in which Go ranges over the map
unfoldable pub get_all : Desc → List IngesterDesc
get_all d = map (λ e. e.1) d.ingesters

-- owned[id] + diff, where a missing id counts 0
abbrev pub or_nought : Option ℕ → ℕ
or_nought none = 0
or_nought (some n) = n

unfoldable pub add_owned : Text → ℕ → List (Text × ℕ) → List (Text × ℕ)
add_owned id diff owned = insert id (u32 (or_nought (lookup id owned) + diff)) owned

-- The loop of `Collect` from a token on; `first` is Tokens[0].
unfoldable pub collect_loop : TokenDesc → List TokenDesc → List (Text × ℕ) → List (Text × ℕ)
collect_loop first [] owned = owned
collect_loop first (t ∷ []) owned =
    add_owned t.ingester (u32 (u32 (max_uint32 + 4294967296 - t.token) + first.token)) owned
collect_loop first (t ∷ u ∷ ts) owned =
    collect_loop first (u ∷ ts) (add_owned t.ingester (u32 (u.token + 4294967296 - t.token)) owned)

-- Ring.Collect: the values of the gauge, before they are divided by the size of the ring.
unfoldable pub collect : Desc → List (Text × ℕ)
unfolding collect_loop
collect d = elim d.tokens [ [] ↦ [] | first ∷ ts ↦ collect_loop first (first ∷ ts) [] ]

-- The callback of Ring.loop, on the ring as last read: nil, where the key is missing, leaves it.
unfoldable pub updated_ring : Desc → Option Desc → Desc
updated_ring ring_desc none = ring_desc
updated_ring ring_desc (some value) = value

-- The ring after the values that the watch has seen, the last one first; it starts out empty.
unfoldable pub ring_after : List (Option Desc) → Desc
ring_after [] = new_desc
ring_after (value ∷ seen) = updated_ring (ring_after seen) value
