-- ===== src/Prelude/Distinct.antt =====
-- Lists in which no key occurs twice: what is found does not depend on their order.
use mathlib.Core.Option
use mathlib.Core.Option.{Option, none, some}
use Prim.Native.Nat.{◌≤◌, suc}
use mathlib.Core.Path.{ap, ◌≡◌, refl, sym, ◌∙◌, subst}
use mathlib.Core.Logic.{inl, inr}
use mathlib.Core.List.{List, [], ◌∷◌, map, Permᴰ}
use native.Mathlib.Omega.{arith}
use mathlib.Core.Bool.{Bool, true, false}
use frankenstein.Prelude.Tests.{Bool-cases, ltb, if◌then◌else◌}
use frankenstein.Prelude.Lists.{All}
use frankenstein.Prelude.Order.{Ord}
use frankenstein.Prelude.Sort.{IsStrict, find, All-perm, Sorter}
use frankenstein.Prelude.Strict.{find_head, IsStrict-ext}
use frankenstein.Prelude.Keyed.{
  count_key, count_key-perm, IsDistinct, IsDistinct-tail, count_of_head, find_of_count,
  sorted_distinct-IsStrict, ComesFrom, find-ComesFrom,
}

module _ {ℓ κ} {K : Type ℓ} {A : Type κ} ⦃o : Ord K⦄ (key : A → K) where
  -- Where a key is not in a list, no element of the list has it.
  others :
      (x : A) (ys : List A)
      → count_key key (key x) ys ≡ 0
      → All (λ y. o.same (key x) (key y) ≡ false) ys
  unfolding count_key
  others x [] h = tt
  others x (y ∷ ys) h = (
    ground (arith, h, o.same_iff (key x) (key y), o.same_iff (key y) (key x)),
    others x ys (ground (arith, h)),
  )

  pub ComesFrom-find :
      (xs : List A) → IsDistinct key xs → All (ComesFrom key (λ k. find key k xs)) xs
  ComesFrom-find [] h = tt
  ComesFrom-find (x ∷ xs) h = (
    find_head key x xs,
    All-both xs xs (others x xs (count_of_head key x xs h))
        (ComesFrom-find xs (IsDistinct-tail key x xs h)),
  )
    where
      All-both :
          (ys zs : List A)
          → All (λ y. o.same (key x) (key y) ≡ false) ys
          → All (ComesFrom key (λ k. find key k zs)) ys
          → All (ComesFrom key (λ k. find key k (x ∷ zs))) ys
      All-both [] zs a b = tt
      All-both (y ∷ ys) zs a b = (rw a.0 b.0, All-both ys zs a.1 b.1)

  pub find-perm :
      (k : K) {xs ys : List A} → IsDistinct key xs → Permᴰ ys xs → find key k ys ≡ find key k xs
  find-perm k {xs} {ys} h p =
      find-ComesFrom key (λ j. find key j xs) k ys (All-perm _ p (ComesFrom-find xs h))
      ∙ elim (Bool-cases (ltb 0 (count_key key k ys))) [
        | inl e ↦ rw e refl
        | inr e ↦ rw e (sym (find_of_count key k xs (ground (arith, e, count_key-perm key k p))))
      ]

  module _ (sorter : Sorter key) where
    pub sort-IsStrict : (xs : List A) → IsDistinct key xs → IsStrict key (sorter.sort xs)
    sort-IsStrict xs h =
        sorted_distinct-IsStrict key (sorter.sort xs) (sorter.sort-IsSorted xs)
          λ k. subst (λ n. n ≤ 1) (sym (count_key-perm key k (sorter.sort-perm xs))) (h k)

    -- The only list in strict order in which the same is found is the list in order.
    pub sorted_unique :
        (xs ys : List A)
        → IsDistinct key xs
        → IsStrict key ys
        → ((k : K) → find key k ys ≡ find key k xs)
        → ys ≡ sorter.sort xs
    sorted_unique xs ys h s e =
        IsStrict-ext key ys (sorter.sort xs) s (sort-IsStrict xs h)
          λ k. e k ∙ sym (find-perm k h (sorter.sort-perm xs))

  pub find-key : (k : K) (x : A) (xs : List A) → find key k xs ≡ some x → key x ≡ k
  find-key k x [] e = cc
  find-key k x (y ∷ ys) e = elim (Bool-cases (o.same (key y) k)) [
    | inl h ↦ subst (λ z. key z ≡ k) (head_found h e) ((o.same_iff (key y) k).0 h)
    | inr h ↦ find-key k x ys (rw h at e)
  ]
    where
      head_found : o.same (key y) k ≡ true → find key k (y ∷ ys) ≡ some x → y ≡ x
      head_found h e = cc (rw h at e)

  pub IsDistinct-perm : {xs ys : List A} → Permᴰ ys xs → IsDistinct key xs → IsDistinct key ys
  IsDistinct-perm p h k = subst (λ n. n ≤ 1) (sym (count_key-perm key k p)) (h k)

  -- The elements that pass a test.
  abbrev pub passing : (A → Bool) → List A → List A
  passing p [] = []
  passing p (x ∷ xs) = if p x then x ∷ passing p xs else passing p xs

  pub All-passing {μ} :
      (P : A → Type μ) (p : A → Bool) (xs : List A) → All P xs → All P (passing p xs)
  All-passing P p [] h = tt
  All-passing P p (x ∷ xs) h = elim (Bool-cases (p x)) [
    | inl e ↦ rw e (h.0, All-passing P p xs h.1)
    | inr e ↦ rw e (All-passing P p xs h.1)
  ]

  abbrev pub kept_if : (A → Bool) → Option A → Option A
  kept_if p none = none
  kept_if p (some x) = if p x then some x else none

  count_key-passing :
      (k : K) (p : A → Bool) (xs : List A) → count_key key k (passing p xs) ≤ count_key key k xs
  unfolding count_key
  count_key-passing k p [] = omega arith
  count_key-passing k p (x ∷ xs) = elim (Bool-cases (p x)) [
    | inl e ↦ rw e (ground (arith, count_key-passing k p xs))
    | inr e ↦ rw e (ground (arith, count_key-passing k p xs))
  ]

  pub passing-IsDistinct :
      (p : A → Bool) (xs : List A) → IsDistinct key xs → IsDistinct key (passing p xs)
  passing-IsDistinct p xs h k = omega (arith, h k, count_key-passing k p xs)

  pub absent_of_same :
      (k : K) (x : A) (xs : List A)
      → IsDistinct key (x ∷ xs)
      → o.same (key x) k ≡ true
      → count_key key k xs ≡ 0
  absent_of_same k x xs h e =
      subst (λ j. count_key key j xs ≡ 0) ((o.same_iff (key x) k).0 e) (count_of_head key x xs h)

  find-passing_absent :
      (k : K) (p : A → Bool) (xs : List A)
      → count_key key k xs ≡ 0
      → find key k (passing p xs) ≡ none
  find-passing_absent k p xs h =
      find_of_count key k (passing p xs) (omega (arith, h, count_key-passing k p xs))

  -- What is found among the elements that pass: an element that is found and passes.
  pub find-passing :
      (k : K) (p : A → Bool) (xs : List A)
      → IsDistinct key xs
      → find key k (passing p xs) ≡ kept_if p (find key k xs)
  find-passing k p [] h = refl
  find-passing k p (x ∷ xs) h = elim (Bool-cases (o.same (key x) k)) [
    | inl e ↦ elim (Bool-cases (p x)) [
      | inl f ↦ rw (e, f) (rw e refl)
      | inr f ↦ rw (e, f) (find-passing_absent k p xs (absent_of_same k x xs h e))
    ]
    | inr e ↦ elim (Bool-cases (p x)) [
      | inl f ↦ rw (e, f) (rw e (find-passing k p xs (IsDistinct-tail key x xs h)))
      | inr f ↦ rw (e, f) (find-passing k p xs (IsDistinct-tail key x xs h))
    ]
  ]

  -- A function that keeps every key
  module _ (f : A → A) (keeps : (x : A) → key (f x) ≡ key x) where
    pub find-map : (k : K) (xs : List A) → find key k (map f xs) ≡ Option.map f (find key k xs)
    find-map k [] = refl
    find-map k (x ∷ xs) = elim (Bool-cases (o.same (key x) k)) [
      | inl e ↦ rw (keeps x) (rw e refl)
      | inr e ↦ rw (keeps x) (rw e (find-map k xs))
    ]

    count_key-map : (k : K) (xs : List A) → count_key key k (map f xs) ≡ count_key key k xs
    unfolding count_key
    count_key-map k [] = refl
    count_key-map k (x ∷ xs) = elim (Bool-cases (o.same (key x) k)) [
      | inl e ↦ rw (keeps x) (rw e (ap suc (count_key-map k xs)))
      | inr e ↦ rw (keeps x) (rw e (count_key-map k xs))
    ]

    pub map-IsDistinct : (xs : List A) → IsDistinct key xs → IsDistinct key (map f xs)
    map-IsDistinct xs h k = subst (λ n. n ≤ 1) (sym (count_key-map k xs)) (h k)
