-- ===== src/Ring/Lifecycle/Picked.antt =====
-- The tokens that an ingester picks are none of the ring's.
use mathlib.Core.Path.{subst}
use frankenstein.Prelude.{
  ℕ, zero, suc, ◌≡◌, refl, sym, ◌∙◌, false, inl, inr, List, [], ◌∷◌, map, none, some, arith, All,
  Bool-cases, Option-cases, some-inj,
}
use frankenstein.Prelude.Order.{nat_ord}
use frankenstein.Prelude.Sort.{IsBelow, IsSorted, IsStrict, Sorter, All-perm}
use frankenstein.Prelude.Strict.{strict-IsSorted}
use frankenstein.Ring.Model.{TokenDesc, token_of}
use frankenstein.Ring.Model.Tokens.{number, is_in}
use frankenstein.Ring.Model.Leave.{AreFresh}
use frankenstein.Ring.Lifecycle.{pick, generate_tokens}
use frankenstein.Ring.Lifecycle.Fresh.{IsFree, clashes-is_in, pick-taken, pick-free, pick-zero}

pick_from_nothing : (n : ℕ) (taken : List ℕ) → pick (suc n) taken [] ≡ none
unfolding pick
pick_from_nothing n taken = refl

pick-IsFree :
    (n : ℕ) (taken randoms ts : List ℕ)
    → IsSorted number taken
    → pick n taken randoms ≡ some ts
    → All (IsFree taken) ts
pick-IsFree zero taken randoms ts s h =
    subst (All (IsFree taken)) (some-inj [] ts (sym (pick-zero taken randoms) ∙ h)) tt
pick-IsFree (suc n) taken [] ts s h = cc (pick_from_nothing n taken, h)
pick-IsFree (suc n) taken (c ∷ randoms) ts s h = elim (Bool-cases (is_in c taken)) [
  | inl e ↦
      pick-IsFree (suc n) taken randoms ts s
        (sym (pick-taken n taken randoms c (clashes-is_in taken c s ∙ e)) ∙ h)
  | inr e ↦ elim (Option-cases (pick n taken randoms)) [
    | inl q ↦ cc (rw q at (sym (pick-free n taken randoms c (clashes-is_in taken c s ∙ e)) ∙ h))
    | inr (us, q) ↦
        subst (All (IsFree taken))
          (some-inj (c ∷ us) ts
            (rw q at (sym (pick-free n taken randoms c (clashes-is_in taken c s ∙ e)) ∙ h)))
          (e, pick-IsFree n taken randoms us s q)
  ]
]

-- The tokens that `generateTokens` returns are in order, and none of them is taken.
pub generate_tokens-IsFree :
    (sorter : Sorter number) (n : ℕ) (taken randoms ts : List ℕ)
    → IsSorted number taken
    → generate_tokens sorter n taken randoms ≡ some ts
    → All (IsFree taken) ts
unfolding generate_tokens
generate_tokens-IsFree sorter n taken randoms ts s h = elim (Option-cases (pick n taken randoms)) [
  | inl q ↦ cc (rw q at h)
  | inr (us, q) ↦
      subst (All (IsFree taken)) (some-inj (sorter.sort us) ts (rw q at h))
        (All-perm (IsFree taken) (sorter.sort-perm us) (pick-IsFree n taken randoms us s q))
]

map-token_of-IsStrict :
    (ts : List TokenDesc) → IsStrict token_of ts → IsStrict number (map token_of ts)
map-token_of-IsStrict [] s = tt
map-token_of-IsStrict (t ∷ ts) s = (mapped ts s.0, map-token_of-IsStrict ts s.1)
  where
    mapped :
        (us : List TokenDesc)
        → All (IsBelow token_of t) us
        → All (IsBelow number t.token) (map token_of us)
    mapped [] h = tt
    mapped (u ∷ us) h = (h.0, mapped us h.1)

not_head :
    (k : ℕ) (ks js : List ℕ) → All (IsFree (k ∷ ks)) js → (is_in k js ≡ false) × All (IsFree ks) js
not_head k ks [] h = (refl, tt)
not_head k ks (j ∷ js) h =
    let (a, b) = not_head k ks js h.1 in (ground (arith, a, h.0), (ground (arith, h.0), b))

IsFree-AreFresh :
    (ts : List TokenDesc) (js : List ℕ) → All (IsFree (map token_of ts)) js → AreFresh ts js
IsFree-AreFresh [] js h = tt
IsFree-AreFresh (t ∷ ts) js h =
    let (a, b) = not_head t.token (map token_of ts) js h in (a, IsFree-AreFresh ts js b)

-- From a ring without a token twice, pickTokens takes tokens that the ring does not have.
pub generate_tokens-AreFresh :
    (sorter : Sorter number) (n : ℕ) (ts : List TokenDesc) (randoms js : List ℕ)
    → IsStrict token_of ts
    → generate_tokens sorter n (map token_of ts) randoms ≡ some js
    → AreFresh ts js
generate_tokens-AreFresh sorter n ts randoms js s h = IsFree-AreFresh ts js (
    generate_tokens-IsFree sorter n (map token_of ts) randoms js
      (strict-IsSorted number (map token_of ts) (map-token_of-IsStrict ts s)) h)
