-- ===== src/Prelude/Keyed.antt =====
-- How many elements of a list have a key, and what that says of finding by key.
use mathlib.Core.Path.{◌≡◌, refl, sym, subst, ◌∙◌}
use mathlib.Core.Logic.{inl, inr}
use mathlib.Core.List.{List, [], ◌∷◌, ◌++◌, Permᴰ}
use mathlib.Core.Option.{Option, none, some}
use Prim.Native.Nat.{ℕ, suc, ◌+◌, ◌≤◌}
use native.Mathlib.Omega.{arith}
use frankenstein.Prelude.Tests.{Bool-cases, if◌then◌else◌, ltb}
use frankenstein.Prelude.Lists.{All}
use frankenstein.Prelude.Order.{Ord}
use frankenstein.Prelude.Dict.{lookup, insert}
use frankenstein.Prelude.Sort.{IsBelow, IsNotAbove, IsStrict, IsSorted, find}
use frankenstein.Prelude.Strict.{same_refl}

module _ {ℓ κ} {K : Type ℓ} {A : Type κ} ⦃o : Ord K⦄ (key : A → K) where
  unfoldable pub count_key : K → List A → ℕ
  count_key k [] = 0
  count_key k (x ∷ xs) = if o.same (key x) k then suc (count_key k xs) else count_key k xs

  pub count_key-append :
      (k : K) (xs ys : List A) → count_key k (xs ++ ys) ≡ count_key k xs + count_key k ys
  unfolding count_key
  count_key-append k [] ys = omega arith
  count_key-append k (x ∷ xs) ys = ground (arith, count_key-append k xs ys)

  pub count_key-perm : (k : K) {xs ys : List A} → Permᴰ xs ys → count_key k xs ≡ count_key k ys
  unfolding count_key
  count_key-perm k Permᴰ.nil = refl
  count_key-perm k (Permᴰ.cons e p) = ground (arith, e, count_key-perm k p)
  count_key-perm k (Permᴰ.swap e f) = ground (arith, e, f)
  count_key-perm k (Permᴰ.trans p q) = count_key-perm k p ∙ count_key-perm k q

  -- No key occurs twice.
  abbrev pub IsDistinct : List A → Type ℓ
  IsDistinct xs = (k : K) → count_key k xs ≤ 1

  pub IsDistinct-tail : (x : A) (xs : List A) → IsDistinct (x ∷ xs) → IsDistinct xs
  unfolding count_key
  IsDistinct-tail x xs h k = ground (arith, h k)

  pub count_of_head : (x : A) (xs : List A) → IsDistinct (x ∷ xs) → count_key (key x) xs ≡ 0
  unfolding count_key
  count_of_head x xs h = ground (arith, h (key x), same_refl key (key x))

  pub find_of_count : (k : K) (xs : List A) → count_key k xs ≡ 0 → find key k xs ≡ none
  unfolding count_key
  find_of_count k [] h = refl
  find_of_count k (x ∷ xs) h = ground (arith, h, find_of_count k xs)

  IsBelow-of_count :
      (x y : A) (ys : List A)
      → IsNotAbove key x y
      → count_key (key x) (y ∷ ys) ≡ 0
      → IsBelow key x y × (count_key (key x) ys ≡ 0)
  unfolding count_key
  IsBelow-of_count x y ys a c = (
    ground (arith, a, c, o.tri (key x) (key y), same_refl key (key x), o.same_iff (key y) (key x)),
    ground (arith, c),
  )

  All-IsBelow :
      (x : A) (ys : List A)
      → All (IsNotAbove key x) ys
      → count_key (key x) ys ≡ 0
      → All (IsBelow key x) ys
  All-IsBelow x [] a c = tt
  All-IsBelow x (y ∷ ys) a c =
      let (below, rest) = IsBelow-of_count x y ys a.0 c in (below, All-IsBelow x ys a.1 rest)

  -- In order and with no key twice is in strict order.
  pub sorted_distinct-IsStrict : (xs : List A) → IsSorted key xs → IsDistinct xs → IsStrict key xs
  sorted_distinct-IsStrict [] s h = tt
  sorted_distinct-IsStrict (x ∷ xs) s h = (
    All-IsBelow x xs s.0 (count_of_head x xs h),
    sorted_distinct-IsStrict xs s.1 (IsDistinct-tail x xs h),
  )

  -- Every element is the one that a function gives for its key.
  abbrev pub ComesFrom : (K → Option A) → A → Type κ
  ComesFrom f x = f (key x) ≡ some x

  -- Then finding a key is that function, where the key is there.
  pub find-ComesFrom :
      (f : K → Option A) (k : K) (xs : List A)
      → All (ComesFrom f) xs
      → find key k xs ≡ (if ltb 0 (count_key k xs) then f k else none)
  unfolding count_key
  find-ComesFrom f k [] h = ground arith
  find-ComesFrom f k (x ∷ xs) h = elim (Bool-cases (o.same (key x) k)) [
    | inl e ↦ rw e (sym (subst (λ j. f j ≡ some x) ((o.same_iff (key x) k).0 e) h.0) ∙ ground arith)
    | inr e ↦ rw e (find-ComesFrom f k xs h.1)
  ]

-- The keys of a map
module _ {ℓ κ} {K : Type ℓ} {V : Type κ} ⦃o : Ord K⦄ where
  abbrev pub key_of : K × V → K
  key_of e = e.0

  pub count-insert :
      (k v : K) (x : V) (m : List (K × V))
      → IsDistinct key_of m
      → count_key key_of v (insert k x m) ≡ (if o.same k v then 1 else count_key key_of v m)
  unfolding insert count_key
  count-insert k v x [] d = ground arith
  count-insert k v x ((j, u) ∷ m) d = ground (
    arith,
    o.same_iff j k,
    o.same_iff k j,
    o.same_iff k v,
    o.same_iff j v,
    count_of_head key_of (j, u) m d,
    count-insert k v x m (IsDistinct-tail key_of (j, u) m d),
  )

  pub insert-IsDistinct :
      (k : K) (x : V) (m : List (K × V)) → IsDistinct key_of m → IsDistinct key_of (insert k x m)
  insert-IsDistinct k x m d v = ground (arith, count-insert k v x m d, d v)

  pub lookup_of_count : (k : K) (m : List (K × V)) → count_key key_of k m ≡ 0 → lookup k m ≡ none
  unfolding lookup count_key
  lookup_of_count k [] h = refl
  lookup_of_count k ((j, u) ∷ m) h = ground (arith, h, lookup_of_count k m)
