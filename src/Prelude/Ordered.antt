-- ===== src/Prelude/Ordered.antt =====
-- Lists in order that have every key equally often are equal, where a key tells its element.
use mathlib.Core.Path.{◌≡◌, refl, sym, ap₂}
use mathlib.Core.Bool.{true, false}
use mathlib.Core.Logic.{inl, inr}
use mathlib.Core.List.{List, [], ◌∷◌, Permᴰ}
use mathlib.Core.List.Permᴰ
use native.Mathlib.Omega.{arith}
use frankenstein.Prelude.Tests.{Bool-cases}
use frankenstein.Prelude.Lists.{All}
use frankenstein.Prelude.Order.{Ord}
use frankenstein.Prelude.Sort.{IsNotAbove, IsSorted, Sorter}
use frankenstein.Prelude.Strict.{same_refl}
use frankenstein.Prelude.Keyed.{count_key, count_key-perm}

module _ {ℓ κ} {K : Type ℓ} {A : Type κ} ⦃o : Ord K⦄ (key : A → K) where
  -- A key below the first of a list in order is not in it.
  count_below :
      (k : K) (y : A) (ys : List A)
      → o.less k (key y) ≡ true
      → All (IsNotAbove key y) ys
      → count_key key k ys ≡ 0
  unfolding count_key
  count_below k y [] h a = refl
  count_below k y (z ∷ zs) h a =
      ground (arith, h, a.0, o.same_iff (key z) k, count_below k y zs h a.1)

  count_first :
      (k : K) (y : A) (ys : List A)
      → o.less k (key y) ≡ true
      → IsSorted key (y ∷ ys)
      → count_key key k (y ∷ ys) ≡ 0
  unfolding count_key
  count_first k y ys h s =
      ground (arith, h, o.same_iff (key y) k, o.irrefl k, count_below k y ys h s.0)

  -- The first key of a list is not below the first of another in order that has it as often.
  first_not_below :
      (x y : A) (xs ys : List A)
      → IsSorted key (y ∷ ys)
      → count_key key (key x) (x ∷ xs) ≡ count_key key (key x) (y ∷ ys)
      → o.less (key x) (key y) ≡ false
  unfolding count_key
  first_not_below x y xs ys s e = elim (Bool-cases (o.less (key x) (key y))) [
    | inr b ↦ b
    | inl b ↦ ground (arith, e, count_first (key x) y ys b s, same_refl key (key x))
  ]

  module _ (tells : (x y : A) → key x ≡ key y → x ≡ y) where
    pub IsSorted-ext :
        (xs ys : List A)
        → IsSorted key xs
        → IsSorted key ys
        → ((k : K) → count_key key k xs ≡ count_key key k ys)
        → xs ≡ ys
    unfolding count_key
    IsSorted-ext [] [] s t e = refl
    IsSorted-ext [] (y ∷ ys) s t e = ground (arith, e (key y), same_refl key (key y))
    IsSorted-ext (x ∷ xs) [] s t e = ground (arith, e (key x), same_refl key (key x))
    IsSorted-ext (x ∷ xs) (y ∷ ys) s t e =
        let keys : key x ≡ key y =
          o.tri (key x) (key y) (first_not_below x y xs ys t (e (key x)))
            (first_not_below y x ys xs s (sym (e (key y)))) in
        ap₂ ◌∷◌ (tells x y keys) (IsSorted-ext xs ys s.1 t.1 (λ k. ground (arith, e k, keys)))

    -- Sorting forgets the order in which elements came.
    pub sort-any_order :
        (sorter : Sorter key) {xs ys : List A} → Permᴰ xs ys → sorter.sort xs ≡ sorter.sort ys
    sort-any_order sorter {xs} {ys} p =
        IsSorted-ext (sorter.sort xs) (sorter.sort ys) (sorter.sort-IsSorted xs)
          (sorter.sort-IsSorted ys)
          λ k.
            count_key-perm key k
              (Permᴰ.trans (sorter.sort-perm xs) (Permᴰ.trans p (Permᴰ.symm (sorter.sort-perm ys))))
