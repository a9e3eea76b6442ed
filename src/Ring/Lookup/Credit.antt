-- ===== src/Ring/Lookup/Credit.antt =====
-- What `Collect` reports: how much of the ring each ingester owns.
use mathlib.Core.Path.{subst}
use frankenstein.Prelude.{
  ℕ, ◌+◌, ◌-◌, ◌≤◌, ◌≡◌, List, [], ◌∷◌, arith, All, ◌<◌, ◌≢◌, some, sym, ◌∙◌,
}
use frankenstein.Prelude.Order.{Text, nat_ord, text_ord}
use frankenstein.Prelude.Dict.{lookup, insert}
use frankenstein.Prelude.Sort.{IsSorted}
use frankenstein.Ring.Model.{TokenDesc, token_of}
use frankenstein.Ring.Lookup.Owner.{get-owner}
use frankenstein.Ring.Lookup.{
  max_uint32, u32, or_nought, add_owned, collect_loop, collect, Desc, get, ok, or_zero,
}

abbrev pub sum_owned : List (Text × ℕ) → ℕ
sum_owned [] = 0
sum_owned ((id, n) ∷ m) = n + sum_owned m

owned-le : (id : Text) (m : List (Text × ℕ)) → or_nought (lookup id m) ≤ sum_owned m
unfolding lookup
owned-le id [] = omega arith
owned-le id ((j, n) ∷ m) = ground (arith, owned-le id m)

sum-insert :
    (id : Text) (n : ℕ) (m : List (Text × ℕ))
    → sum_owned (insert id n m) + or_nought (lookup id m) ≡ sum_owned m + n
unfolding lookup insert
sum-insert id n [] = omega arith
sum-insert id n ((j, k) ∷ m) = ground (arith, sum-insert id n m)

sum-add_owned :
    (id : Text) (diff : ℕ) (m : List (Text × ℕ))
    → sum_owned m + diff ≤ max_uint32
    → sum_owned (add_owned id diff m) ≡ sum_owned m + diff
unfolding add_owned
sum-add_owned id diff m h =
    omega (arith, owned-le id m, sum-insert id (u32 (or_nought (lookup id m) + diff)) m)

-- Up to token `t` the ring is shared out; the rest of it goes to the tokens from `t` on.
sum-collect_loop :
    (first t : TokenDesc) (ts : List TokenDesc) (m : List (Text × ℕ))
    → IsSorted token_of (t ∷ ts)
    → All (λ u. u.token ≤ max_uint32) (t ∷ ts)
    → sum_owned m + first.token ≡ t.token
    → sum_owned (collect_loop first (t ∷ ts) m) ≡ max_uint32
unfolding collect_loop
sum-collect_loop first t [] m s b e = omega (
  arith,
  b.0,
  sum-add_owned t.ingester (u32 (u32 (max_uint32 + 4294967296 - t.token) + first.token)) m,
)
sum-collect_loop first t (u ∷ ts) m s b e =
    let le : t.token ≤ u.token = ground (arith, s.0.0) in
    sum-collect_loop first u ts _ s.1 b.1
      (omega (arith, b.0, b.1.0, sum-add_owned t.ingester (u32 (u.token + 4294967296 - t.token)) m))

-- The loop of `Collect`, whose every sum and difference wraps at 2^32, shares out exactly 2^32 - 1
-- among the ingesters of a ring in order whose tokens are uint32 values.
pub sum-collect :
    (d : Desc) (t : TokenDesc) (ts : List TokenDesc)
    → d.tokens ≡ t ∷ ts
    → IsSorted token_of d.tokens
    → All (λ u. u.token ≤ max_uint32) d.tokens
    → sum_owned (collect d) ≡ max_uint32
unfolding collect
sum-collect d t ts e s b = rw e (
    sum-collect_loop t t ts [] (subst (IsSorted token_of) e s)
      (subst (All (λ u. u.token ≤ max_uint32)) e b) (omega arith))

-- On a ring of one token each of two ingesters, `Collect` credits the first ingester with as many keys
-- as there are from its own token to the other's, and `Get` gives every one of those keys to the other.
pub collect_credits_other :
    (d : Desc) (s t : TokenDesc) (key : ℕ)
    → d.tokens ≡ s ∷ t ∷ []
    → s.token < t.token
    → t.token ≤ max_uint32
    → s.ingester ≢ t.ingester
    → s.token ≤ key
    → key < t.token
    → (lookup s.ingester (collect d) ≡ some (t.token - s.token))
      × (get d key ≡ ok (or_zero (lookup t.ingester d.ingesters)))
unfolding collect collect_loop add_owned lookup insert
collect_credits_other d s t key e lt b ne le below = (
  rw e (
      ground (
        arith,
        text_ord.same_iff s.ingester t.ingester,
        text_ord.same_iff t.ingester s.ingester,
        text_ord.same_iff s.ingester s.ingester,
      )),
  get-owner d key (subst (IsSorted token_of) (sym e) ((ground arith, tt), (tt, tt)))
      ∙ rw e (ground arith),
)
