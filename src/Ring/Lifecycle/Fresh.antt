-- ===== src/Ring/Lifecycle/Fresh.antt =====
-- `generateTokens` and the callbacks that an ingester hands to `CAS`.
use mathlib.Core.Option
use frankenstein.Prelude.{
  ℕ, zero, suc, ◌≤◌, ◌<◌, ◌≡◌, refl, ap, ◌∙◌, Bool, true, false, not, inl, inr, List, [], ◌∷◌,
  Option, none, some, arith, All, Bool-cases, ltb, ◌==◌, if◌then◌else◌, length, get_or, ◌&&◌,
  All-map,
}
use frankenstein.Prelude.Order.{Text, text_ord, nat_ord}
use frankenstein.Prelude.Dict.{lookup, insert, lookup-insert}
use mathlib.Core.List.{Permᴰ}
use frankenstein.Prelude.Search.{IsMonotone, search_index-Splits, position, Splits-position}
use frankenstein.Prelude.Sort.{IsSorted, Sorter, All-perm}
use frankenstein.Ring.Model.{IngesterDesc, Desc, token_of, add_ingester}
use frankenstein.Ring.Model.Tokens.{number, is_in}
use frankenstein.Ring.Consul.{updated}
use frankenstein.Ring.Lifecycle.{Registration, clashes, pick, generate_tokens, or_new, heartbeat}

abbrev reaches : ℕ → ℕ → Bool
reaches candidate j = not (ltb j candidate)

All-get_or : (P : ℕ → Type 0) (js : List ℕ) (i : ℕ) → i < length js → All P js → P (get_or js i 0)
All-get_or P [] i h a = absurd (omega arith)
All-get_or P (j ∷ js) zero h a = a.0
All-get_or P (j ∷ js) (suc i) h a = All-get_or P js i (omega arith) a.1

reaches-IsMonotone :
    (c : ℕ) (js : List ℕ)
    → IsSorted number js
    → IsMonotone (length js) (λ i. reaches c (get_or js i 0))
reaches-IsMonotone c [] s x y le lt e = absurd (omega arith)
reaches-IsMonotone c (j ∷ js) s zero zero le lt e = e
reaches-IsMonotone c (j ∷ js) s zero (suc y) le lt e =
    ground (arith, All-get_or _ js y (omega arith) s.0)
reaches-IsMonotone c (j ∷ js) s (suc x) zero le lt e = absurd (omega arith)
reaches-IsMonotone c (j ∷ js) s (suc x) (suc y) le lt e =
    reaches-IsMonotone c js s.1 x y (omega arith) (omega arith) e

not_in : (c : ℕ) (js : List ℕ) → All (λ j. ltb c j ≡ true) js → is_in c js ≡ false
not_in c [] h = refl
not_in c (j ∷ js) h = ground (arith, not_in c js h.1)

at_position :
    (c : ℕ) (js : List ℕ)
    → IsSorted number js
    → (ltb (position (reaches c) js) (length js) && get_or js (position (reaches c) js) 0 == c)
      ≡ is_in c js
at_position c [] s = refl
at_position c (j ∷ js) s = elim (Bool-cases (ltb j c)) [
  | inl below ↦ rw below (ground (arith, at_position c js s.1))
  | inr reached ↦ elim (Bool-cases (j == c)) [
    | inl e ↦ rw (reached, e) (ground arith)
    | inr e ↦ rw (reached, e) (ground (arith, not_in c js (All-map (λ k b. ground arith) js s.0)))
  ]
]

-- Among taken tokens in order, the binary search tells exactly whether a candidate is one of them.
pub clashes-is_in :
    (taken : List ℕ) (c : ℕ) → IsSorted number taken → clashes taken c ≡ is_in c taken
unfolding clashes
clashes-is_in taken c s =
    rw
      (Splits-position (reaches c) 0 taken _
        (search_index-Splits (length taken) _ (reaches-IsMonotone c taken s)))
      (at_position c taken s)

abbrev pub IsFree : List ℕ → ℕ → Type 0
IsFree taken c = is_in c taken ≡ false

-- How many of the random numbers are free.
abbrev pub free_among : List ℕ → List ℕ → ℕ
free_among taken [] = 0
free_among taken (c ∷ randoms) =
    if is_in c taken then free_among taken randoms else suc (free_among taken randoms)

abbrev Picks : List ℕ → ℕ → Option (List ℕ) → Type 0
Picks taken n o = (ts : List ℕ) × (o ≡ some ts) × (length ts ≡ n) × All (IsFree taken) ts

pub pick-taken :
    (n : ℕ) (taken randoms : List ℕ) (c : ℕ)
    → clashes taken c ≡ true
    → pick (suc n) taken (c ∷ randoms) ≡ pick (suc n) taken randoms
unfolding pick
pick-taken n taken randoms c e =
    ap
      (λ b. elim b [
        | true ↦ pick (suc n) taken randoms
        | false ↦ Option.map (◌∷◌ c) (pick n taken randoms)
      ])
      e

pub pick-free :
    (n : ℕ) (taken randoms : List ℕ) (c : ℕ)
    → clashes taken c ≡ false
    → pick (suc n) taken (c ∷ randoms) ≡ Option.map (◌∷◌ c) (pick n taken randoms)
unfolding pick
pick-free n taken randoms c e =
    ap
      (λ b. elim b [
        | true ↦ pick (suc n) taken randoms
        | false ↦ Option.map (◌∷◌ c) (pick n taken randoms)
      ])
      e

pub pick-zero : (taken randoms : List ℕ) → pick 0 taken randoms ≡ some []
unfolding pick
pick-zero taken randoms = refl

pick-Picks :
    (n : ℕ) (taken randoms : List ℕ)
    → IsSorted number taken
    → n ≤ free_among taken randoms
    → Picks taken n (pick n taken randoms)
pick-Picks zero taken randoms s h = ([], pick-zero taken randoms, refl, tt)
pick-Picks (suc n) taken [] s h = absurd (omega arith)
pick-Picks (suc n) taken (c ∷ randoms) s h = elim (Bool-cases (is_in c taken)) [
  | inl e ↦
      rw (pick-taken n taken randoms c (clashes-is_in taken c s ∙ e))
        (pick-Picks (suc n) taken randoms s (ground (arith, e, h)))
  | inr e ↦
      let (ts, p, q, a) = pick-Picks n taken randoms s (ground (arith, e, h)) in
      rw (pick-free n taken randoms c (clashes-is_in taken c s ∙ e))
        (c ∷ ts, rw p refl, ap suc q, (e, a))
]

perm-length : {xs ys : List ℕ} → Permᴰ xs ys → length xs ≡ length ys
perm-length Permᴰ.nil = refl
perm-length (Permᴰ.cons e p) = ap suc (perm-length p)
perm-length (Permᴰ.swap e f) = refl
perm-length (Permᴰ.trans p q) = perm-length p ∙ perm-length q

-- When the taken tokens are in order and the random source gives as many free numbers as are asked
-- for, `generateTokens` returns that many tokens, in order, none of which is taken.
pub generate_tokens_lem :
    (sorter : Sorter number) (n : ℕ) (taken randoms : List ℕ)
    → IsSorted number taken
    → n ≤ free_among taken randoms
    → (ts : List ℕ) × (generate_tokens sorter n taken randoms ≡ some ts)
      × (length ts ≡ n)
      × IsSorted number ts
      × All (IsFree taken) ts
unfolding generate_tokens
generate_tokens_lem sorter n taken randoms s h =
    let (ts, p, q, a) = pick-Picks n taken randoms s h in
    (
      sorter.sort ts,
      rw p,
      perm-length (sorter.sort-perm ts) ∙ q,
      sorter.sort-IsSorted ts,
      All-perm (IsFree taken) (sorter.sort-perm ts) a,
    )

-- What a registered ingester's entry becomes at a heartbeat.
abbrev pub refreshed : ℕ → Text → Option IngesterDesc → IngesterDesc
refreshed now hostname none = record { hostname = hostname; timestamp = now }
refreshed now hostname (some desc) = record desc { timestamp = now }

module _ (sorter : Sorter token_of) (numbers : Sorter number) (r : Registration) where
  -- A heartbeat always writes a ring: the ingester's entry has the time of the heartbeat and its old
  -- host name, or its own if it had none; the entries of the others are as they were; and so are the
  -- tokens, unless the ingester had no entry: then its tokens are added.
  pub heartbeat_lem :
      (now : ℕ) (tokens : List ℕ) (input : Option Desc) (k : Text)
      → (d : Desc) × (heartbeat sorter numbers r now tokens input ≡ updated d)
        × (lookup k d.ingesters ≡ (
            if text_ord.same r.id k
            then some (refreshed now r.hostname (lookup r.id (or_new input).ingesters))
            else lookup k (or_new input).ingesters))
        × (d.tokens ≡ elim (lookup r.id (or_new input).ingesters) [
          | none ↦ (add_ingester sorter now (or_new input) r.id r.hostname tokens).tokens
          | some desc ↦ (or_new input).tokens
        ])
  unfolding heartbeat add_ingester
  heartbeat_lem now tokens input k = go (lookup r.id ring.ingesters) refl
    where
      ring : Desc
      ring = or_new input

      Claim : Option IngesterDesc → Type 0
      Claim o =
          (d : Desc) × (heartbeat sorter numbers r now tokens input ≡ updated d)
          × (lookup k d.ingesters ≡ (
              if text_ord.same r.id k
              then some (refreshed now r.hostname o)
              else lookup k ring.ingesters))
          × (d.tokens ≡ elim o [
            | none ↦ (add_ingester sorter now ring r.id r.hostname tokens).tokens
            | some desc ↦ ring.tokens
          ])

      go :
          (o : Option IngesterDesc)
          → lookup r.id ring.ingesters ≡ o
          → Claim (lookup r.id ring.ingesters)
      go none e = rw e (
        add_ingester sorter now ring r.id r.hostname tokens,
        rw (e, heartbeat),
        lookup-insert r.id k _ ring.ingesters,
        refl,
      )
      go (some desc) e = rw e (
        record ring { ingesters = insert r.id (record desc { timestamp = now }) ring.ingesters },
        rw (e, heartbeat),
        lookup-insert r.id k _ ring.ingesters,
        refl,
      )
