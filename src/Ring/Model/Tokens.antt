-- ===== src/Ring/Model/Tokens.antt =====
-- What `addIngester` and `removeIngester` do to the tokens.
use frankenstein.Prelude.{
  ℕ, suc, Bool, ◌-◌, ◌≡◌, refl, true, List, [], ◌∷◌, arith, All, All-map, ltb, ◌==◌, if◌then◌else◌,
  false, none,
}
use frankenstein.Prelude.Order.{Text, nat_ord}
use frankenstein.Prelude.Sort.{IsNotAbove, IsSorted, Sorter, IsStrict, find, IsBelow}
use frankenstein.Prelude.Strict.{find_below}
use frankenstein.Ring.Model.{TokenDesc, Desc, token_of, add_ingester, remove_tokens}

-- Adding an ingester leaves the ring's tokens in order, whatever they were.
pub add_ingester-IsSorted :
    (sorter : Sorter token_of) (now : ℕ) (d : Desc) (id hostname : Text) (tokens : List ℕ)
    → IsSorted token_of (add_ingester sorter now d id hostname tokens).tokens
unfolding add_ingester
add_ingester-IsSorted sorter now d id hostname tokens = sorter.sort-IsSorted _

-- How many of a ring's tokens have a number.
unfoldable pub count_token : ℕ → List TokenDesc → ℕ
count_token k [] = 0
count_token k (t ∷ ts) = if t.token == k then suc (count_token k ts) else count_token k ts

unfoldable pub count : ℕ → List ℕ → ℕ
count k [] = 0
count k (j ∷ js) = if j == k then suc (count k js) else count k js

abbrev pub number : ℕ → ℕ
number j = j

count_token_below :
    (k : ℕ) (ts : List TokenDesc) → All (λ t. ltb k t.token ≡ true) ts → count_token k ts ≡ 0
unfolding count_token
count_token_below k [] h = refl
count_token_below k (t ∷ ts) h = ground (arith, count_token_below k ts h.1)

count_below : (k : ℕ) (js : List ℕ) → All (λ j. ltb k j ≡ true) js → count k js ≡ 0
unfolding count
count_below k [] h = refl
count_below k (j ∷ js) h = ground (arith, count_below k js h.1)

tokens_above :
    (k : ℕ) (t : TokenDesc) (ts : List TokenDesc)
    → ltb k t.token ≡ true
    → All (IsNotAbove token_of t) ts
    → All (λ u. ltb k u.token ≡ true) (t ∷ ts)
tokens_above k t ts h below = (h, All-map (λ u b. ground arith) ts below)

numbers_above :
    (k j : ℕ) (js : List ℕ)
    → ltb k j ≡ true
    → All (IsNotAbove number j) js
    → All (λ u. ltb k u ≡ true) (j ∷ js)
numbers_above k j js h below = (h, All-map (λ u b. ground arith) js below)

All-remove_tokens {ℓ} :
    (P : TokenDesc → Type ℓ) (ts : List TokenDesc) (js : List ℕ)
    → All P ts
    → All P (remove_tokens ts js)
unfolding remove_tokens
All-remove_tokens P [] js h = tt
All-remove_tokens P (t ∷ ts) [] h = h
All-remove_tokens P (t ∷ ts) (j ∷ js) h = ground (
  arith,
  All-remove_tokens P ts (j ∷ js) h.1,
  All-remove_tokens P (t ∷ ts) js h,
  All-remove_tokens P ts js h.1,
)

-- In a ring with no token twice none is there twice afterwards.
pub remove_tokens-IsStrict :
    (ts : List TokenDesc) (js : List ℕ)
    → IsStrict token_of ts
    → IsStrict token_of (remove_tokens ts js)
unfolding remove_tokens
remove_tokens-IsStrict [] js h = tt
remove_tokens-IsStrict (t ∷ ts) [] h = h
remove_tokens-IsStrict (t ∷ ts) (j ∷ js) h = ground (
  arith,
  All-remove_tokens _ ts (j ∷ js) h.0,
  remove_tokens-IsStrict ts (j ∷ js) h.1,
  remove_tokens-IsStrict (t ∷ ts) js h,
  remove_tokens-IsStrict ts js h.1,
)

-- Taking tokens out keeps the rest in order.
pub remove_tokens-IsSorted :
    (ts : List TokenDesc) (js : List ℕ)
    → IsSorted token_of ts
    → IsSorted token_of (remove_tokens ts js)
unfolding remove_tokens
remove_tokens-IsSorted [] js h = tt
remove_tokens-IsSorted (t ∷ ts) [] h = h
remove_tokens-IsSorted (t ∷ ts) (j ∷ js) h = ground (
  arith,
  All-remove_tokens _ ts (j ∷ js) h.0,
  remove_tokens-IsSorted ts (j ∷ js) h.1,
  remove_tokens-IsSorted (t ∷ ts) js h,
  remove_tokens-IsSorted ts js h.1,
)

-- From a ring in order, tokens in order are taken out as often as they are given, and no others.
pub count_token-remove_tokens :
    (k : ℕ) (ts : List TokenDesc) (js : List ℕ)
    → IsSorted token_of ts
    → IsSorted number js
    → count_token k (remove_tokens ts js) ≡ count_token k ts - count k js
unfolding remove_tokens count_token count
count_token-remove_tokens k [] js ht hj = omega arith
count_token-remove_tokens k (t ∷ ts) [] ht hj = omega arith
count_token-remove_tokens k (t ∷ ts) (j ∷ js) ht hj = ground (
  arith,
  count_below k (j ∷ js),
  numbers_above k j js,
  count_token_below k (t ∷ ts),
  tokens_above k t ts,
  ht.0,
  hj.0,
  count_token-remove_tokens k ts (j ∷ js) ht.1 hj,
  count_token-remove_tokens k (t ∷ ts) js ht hj.1,
  count_token-remove_tokens k ts js ht.1 hj.1,
)

-- A token is in a list of tokens.
abbrev pub is_in : ℕ → List ℕ → Bool
is_in k [] = false
is_in k (j ∷ js) = if j == k then true else is_in k js

is_in_below : (k : ℕ) (js : List ℕ) → All (λ j. ltb k j ≡ true) js → is_in k js ≡ false
is_in_below k [] h = refl
is_in_below k (j ∷ js) h = ground (arith, is_in_below k js h.1)

find_before :
    (k : ℕ) (t : TokenDesc) (ts : List TokenDesc)
    → ltb k t.token ≡ true
    → All (IsBelow token_of t) ts
    → find token_of k (t ∷ ts) ≡ none
find_before k t ts h below =
    find_below token_of k (t ∷ ts) (h, All-map (λ u b. ground arith) ts below)

find_after :
    (k : ℕ) (t : TokenDesc) (ts : List TokenDesc)
    → t.token ≡ k
    → All (IsBelow token_of t) ts
    → find token_of k ts ≡ none
find_after k t ts e below = find_below token_of k ts (All-map (λ u b. ground arith) ts below)

-- In a ring with no token twice, when the tokens to take out are in order, what is left of a token that
-- is not taken out is its own entry, with its owner, and of one that is taken out nothing.
pub find-remove_tokens :
    (k : ℕ) (ts : List TokenDesc) (js : List ℕ)
    → IsStrict token_of ts
    → IsSorted number js
    → find token_of k (remove_tokens ts js) ≡ (if is_in k js then none else find token_of k ts)
unfolding remove_tokens
find-remove_tokens k [] js ht hj = ground arith
find-remove_tokens k (t ∷ ts) [] ht hj = refl
find-remove_tokens k (t ∷ ts) (j ∷ js) ht hj = ground (
  arith,
  is_in_below k (j ∷ js),
  numbers_above k j js,
  find_before k t ts,
  find_after k t ts,
  ht.0,
  hj.0,
  find-remove_tokens k ts (j ∷ js) ht.1 hj,
  find-remove_tokens k (t ∷ ts) js ht hj.1,
  find-remove_tokens k ts js ht.1 hj.1,
)
