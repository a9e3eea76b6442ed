-- ===== src/Ring/Model/Leave.antt =====
-- An ingester that joins the ring and leaves it again.
use mathlib.Core.List.{Permᴰ}
use frankenstein.Prelude.{
  ℕ, ◌≡◌, ◌≢◌, ◌≤◌, ◌+◌, Option, none, some, or_else, refl, ◌∙◌, true, false, inl, inr, List, [],
  ◌∷◌, ◌++◌, arith, All, All-map, Bool-cases, ◌==◌, if◌then◌else◌, ◌≤◌,
}
use frankenstein.Prelude.Order.{Text, nat_ord, text_ord}
use frankenstein.Prelude.Dict.{lookup, insert, lookup-insert, lookup-delete}
use frankenstein.Ring.Model.Tokens.{remove_tokens-IsStrict}
use frankenstein.Prelude.Sort.{IsNotAbove, IsBelow, IsSorted, IsStrict, Sorter, find}
use frankenstein.Prelude.Strict.{IsStrict-ext, strict-IsSorted}
use frankenstein.Ring.Model.{
  TokenDesc, Desc, token_of, token_descs, add_ingester, remove_tokens, remove_ingester,
}
use frankenstein.Ring.Model.Tokens.{number, count_token, count, is_in, find-remove_tokens}

-- Each token number occurs at most once.
abbrev pub IsSimple : List TokenDesc → Type 0
IsSimple ts = (k : ℕ) → count_token k ts ≤ 1

count_token-perm :
    (k : ℕ) {xs ys : List TokenDesc} → Permᴰ xs ys → count_token k xs ≡ count_token k ys
unfolding count_token
count_token-perm k Permᴰ.nil = refl
count_token-perm k (Permᴰ.cons e p) = ground (arith, e, count_token-perm k p)
count_token-perm k (Permᴰ.swap e f) = ground (arith, e, f)
count_token-perm k (Permᴰ.trans p q) = count_token-perm k p ∙ count_token-perm k q

count_token-append :
    (k : ℕ) (xs ys : List TokenDesc)
    → count_token k (xs ++ ys) ≡ count_token k xs + count_token k ys
unfolding count_token
count_token-append k [] ys = omega arith
count_token-append k (x ∷ xs) ys = ground (arith, count_token-append k xs ys)

count_token-token_descs :
    (k : ℕ) (id : Text) (js : List ℕ) → count_token k (token_descs id js) ≡ count k js
unfolding count_token count
count_token-token_descs k id [] = refl
count_token-token_descs k id (j ∷ js) = ground (arith, count_token-token_descs k id js)

-- With no number twice, what is found does not depend on the order.
find-perm :
    (k : ℕ) {xs ys : List TokenDesc}
    → Permᴰ xs ys
    → IsSimple xs
    → find token_of k xs ≡ find token_of k ys
unfolding count_token
find-perm k Permᴰ.nil s = refl
find-perm k (Permᴰ.cons {l₁ = l₁} e p) s =
    ground (arith, e, find-perm k p (λ j. ground (arith, s j)))
find-perm k (Permᴰ.swap {a = a} {b = b} e f) s = ground (arith, e, f, s a.token, s b.token, s k)
find-perm k (Permᴰ.trans p q) s =
    find-perm k p s ∙ find-perm k q (λ j. omega (arith, s j, count_token-perm j p))

count_token-eq-zero :
    (k : ℕ) (ts : List TokenDesc) → All (λ u. u.token ≢ k) ts → count_token k ts ≡ 0
unfolding count_token
count_token-eq-zero k [] h = refl
count_token-eq-zero k (t ∷ ts) h = ground (arith, h.0, count_token-eq-zero k ts h.1)

strict-IsSimple : (ts : List TokenDesc) → IsStrict token_of ts → IsSimple ts
unfolding count_token
strict-IsSimple [] s k = omega arith
strict-IsSimple (t ∷ ts) s k = elim (Bool-cases (t.token == k)) [
  | inl e ↦
      rw e (omega (arith, count_token-eq-zero k ts (All-map (λ u b. ground (arith, e)) ts s.0)))
  | inr e ↦ rw e (strict-IsSimple ts s.1 k)
]

count-eq-zero : (k : ℕ) (js : List ℕ) → All (λ u. u ≢ k) js → count k js ≡ 0
unfolding count
count-eq-zero k [] h = refl
count-eq-zero k (j ∷ js) h = ground (arith, h.0, count-eq-zero k js h.1)

strict-count_le : (k : ℕ) (js : List ℕ) → IsStrict number js → count k js ≤ 1
unfolding count
strict-count_le k [] s = omega arith
strict-count_le k (j ∷ js) s = elim (Bool-cases (j == k)) [
  | inl e ↦ rw e (omega (arith, count-eq-zero k js (All-map (λ u b. ground (arith, e)) js s.0)))
  | inr e ↦ rw e (strict-count_le k js s.1)
]

count_of_not_in : (k : ℕ) (js : List ℕ) → is_in k js ≡ false → count k js ≡ 0
unfolding count
count_of_not_in k [] h = refl
count_of_not_in k (j ∷ js) h = ground (arith, count_of_not_in k js)

-- Joining tokens, none of which the ring has.
abbrev pub AreFresh : List TokenDesc → List ℕ → Type 0
AreFresh ts js = All (λ t. is_in t.token js ≡ false) ts

pub fresh-count :
    (k : ℕ) (ts : List TokenDesc) (js : List ℕ)
    → AreFresh ts js
    → is_in k js ≡ true
    → (count_token k ts ≡ 0) × (find token_of k ts ≡ none)
unfolding count_token
fresh-count k [] js f h = (refl, refl)
fresh-count k (t ∷ ts) js f h = ground (arith, fresh-count k ts js f.1 h, f.0)

sorted_simple-IsStrict :
    (ts : List TokenDesc) → IsSorted token_of ts → IsSimple ts → IsStrict token_of ts
unfolding count_token
sorted_simple-IsStrict [] s h = tt
sorted_simple-IsStrict (t ∷ ts) s h = (
  apart ts s.0 (ground (arith, h t.token)),
  sorted_simple-IsStrict ts s.1 (λ k. ground (arith, h k)),
)
  where
    apart :
        (us : List TokenDesc)
        → All (IsNotAbove token_of t) us
        → count_token t.token us ≡ 0
        → All (IsBelow token_of t) us
    apart [] a c = tt
    apart (u ∷ us) a c = (ground (arith, a.0), apart us a.1 (ground arith))

find-append :
    (k : ℕ) (xs ys : List TokenDesc)
    → find token_of k (xs ++ ys) ≡ or_else (find token_of k xs) (find token_of k ys)
find-append k [] ys = refl
find-append k (x ∷ xs) ys = ground (arith, find-append k xs ys)

find-token_descs :
    (k : ℕ) (id : Text) (js : List ℕ)
    → is_in k js ≡ false
    → find token_of k (token_descs id js) ≡ none
find-token_descs k id [] h = refl
find-token_descs k id (j ∷ js) h = ground (arith, find-token_descs k id js)

or_else-none : (o : Option TokenDesc) → or_else o none ≡ o
or_else-none none = refl
or_else-none (some t) = refl

find-token_descs-in :
    (k : ℕ) (id : Text) (js : List ℕ)
    → is_in k js ≡ true
    → find token_of k (token_descs id js) ≡ some (record { token = k; ingester = id })
find-token_descs-in k id [] h = cc
find-token_descs-in k id (j ∷ js) h = elim (Bool-cases (j == k)) [
  | inl e ↦ ground (arith, e)
  | inr e ↦ ground (arith, e, h, find-token_descs-in k id js)
]

module _ (ts : List TokenDesc) (js : List ℕ) (id : Text) (ht : IsStrict token_of ts)
    (hj : IsStrict number js) (fresh : AreFresh ts js) where
  joined-IsSimple : IsSimple (ts ++ token_descs id js)
  joined-IsSimple k = elim (Bool-cases (is_in k js)) [
    | inl e ↦ omega (
      arith,
      count_token-append k ts (token_descs id js),
      count_token-token_descs k id js,
      strict-count_le k js hj,
      fresh-count k ts js fresh e,
    )
    | inr e ↦ omega (
      arith,
      count_token-append k ts (token_descs id js),
      count_token-token_descs k id js,
      count_of_not_in k js e,
      strict-IsSimple ts ht k,
    )
  ]

  module _ (s : List TokenDesc) (p : Permᴰ s (ts ++ token_descs id js)) where
    all_joined-IsSimple : IsSimple s
    all_joined-IsSimple k = omega (arith, count_token-perm k p, joined-IsSimple k)

    pub joined-IsStrict : IsSorted token_of s → IsStrict token_of s
    joined-IsStrict sorted = sorted_simple-IsStrict s sorted all_joined-IsSimple

    -- A token of the joining ingester is its own, and any other is whose it was.
    pub find-joined :
        (k : ℕ)
        → find token_of k s
          ≡ (if is_in k js then some (record { token = k; ingester = id }) else find token_of k ts)
    find-joined k =
        find-perm k p all_joined-IsSimple
        ∙ find-append k ts (token_descs id js)
        ∙ elim (Bool-cases (is_in k js)) [
          | inl e ↦ rw (e, (fresh-count k ts js fresh e).1, find-token_descs-in k id js e) refl
          | inr e ↦ rw (e, find-token_descs k id js e) (or_else-none (find token_of k ts))
        ]

  remove-joined :
      (s : List TokenDesc)
      → IsSorted token_of s
      → Permᴰ s (ts ++ token_descs id js)
      → remove_tokens s js ≡ ts
  remove-joined s sorted p =
      let simple : IsSimple s = λ k. omega (arith, count_token-perm k p, joined-IsSimple k) in
      let strict = sorted_simple-IsStrict s sorted simple in
      IsStrict-ext token_of (remove_tokens s js) ts (remove_tokens-IsStrict s js strict) ht λ k.
        find-remove_tokens k s js strict (strict-IsSorted number js hj)
        ∙ ground (
          arith,
          find-perm k p simple,
          find-append k ts (token_descs id js),
          find-token_descs k id js,
          fresh-count k ts js fresh,
        )

-- From a ring in strict order, an ingester that joins with tokens of its own in strict order, none of
-- them in the ring, and leaves with the same tokens, leaves the ring's tokens and their owners as they
-- were, and leaves no entry of its own and the entries of the others.
pub leave_after_join :
    (sorter : Sorter token_of) (now : ℕ) (d : Desc) (id hostname : Text) (js : List ℕ) (k : Text)
    → IsStrict token_of d.tokens
    → IsStrict number js
    → AreFresh d.tokens js
    → let left = remove_ingester (add_ingester sorter now d id hostname js) id js in
      (left.tokens ≡ d.tokens)
      × (lookup k left.ingesters ≡ (if text_ord.same id k then none else lookup k d.ingesters))
unfolding add_ingester remove_ingester
leave_after_join sorter now d id hostname js k ht hj fresh = (
  remove-joined d.tokens js id ht hj fresh _ (sorter.sort-IsSorted _) (sorter.sort-perm _),
  ground (
    arith,
    lookup-delete id k (insert id (record { hostname = hostname; timestamp = now }) d.ingesters),
    lookup-insert id k (record { hostname = hostname; timestamp = now }) d.ingesters,
  ),
)
