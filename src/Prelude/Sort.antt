-- ===== src/Prelude/Sort.antt =====
-- Lists in order of a key, and Go's sort.Sort. That sort is not stable, so where equal keys end up
-- is left open: the code that sorts takes any `Sorter`.
use mathlib.Core.Path.{◌≡◌, refl, sym, subst}
use mathlib.Core.Bool.{true, false}
use mathlib.Core.Logic.{inl, inr}
use mathlib.Core.List.{List, [], ◌∷◌, Permᴰ}
use mathlib.Core.List.Permᴰ
use mathlib.Core.Option.{Option, none, some}
use native.Mathlib.Omega.{arith}
use frankenstein.Prelude.Tests.{Bool-cases, if◌then◌else◌}
use frankenstein.Prelude.Lists.{All, All-map}
use frankenstein.Prelude.Order.{Ord}

pub All-perm {ℓ μ} :
    {A : Type ℓ} (P : A → Type μ) {xs ys : List A} → Permᴰ xs ys → All P ys → All P xs
All-perm P Permᴰ.nil h = h
All-perm P (Permᴰ.cons e p) h = (subst P (sym e) h.0, All-perm P p h.1)
All-perm P (Permᴰ.swap e f) h = (subst P (sym e) h.1.0, (subst P (sym f) h.0, h.1.1))
All-perm P (Permᴰ.trans p q) h = All-perm P p (All-perm P q h)

module _ {ℓ κ} {K : Type ℓ} {A : Type κ} ⦃o : Ord K⦄ (key : A → K) where
  abbrev pub IsBelow : A → A → Type 0
  IsBelow x y = o.less (key x) (key y) ≡ true

  abbrev pub IsNotAbove : A → A → Type 0
  IsNotAbove x y = o.less (key y) (key x) ≡ false

  -- Keys do not fall along the list.
  abbrev pub IsSorted : List A → Type 0
  IsSorted [] = Unit
  IsSorted (x ∷ xs) = All (IsNotAbove x) xs × IsSorted xs

  -- Keys rise along the list: in order, with no key twice.
  abbrev pub IsStrict : List A → Type 0
  IsStrict [] = Unit
  IsStrict (x ∷ xs) = All (IsBelow x) xs × IsStrict xs

  -- The first element with a key.
  abbrev pub find : K → List A → Option A
  find k [] = none
  find k (x ∷ xs) = if o.same (key x) k then some x else find k xs

  -- What the code relies on of sort.Sort.
  pub record Sorter : Type κ where
    pub sort : List A → List A
    pub sort-perm : (xs : List A) → Permᴰ (sort xs) xs
    pub sort-IsSorted : (xs : List A) → IsSorted (sort xs)

module _ {ℓ κ} {K : Type ℓ} {A : Type κ} ⦃o : Ord K⦄ (key : A → K) where
  pub IsNotAbove-trans : (x y z : A) → IsNotAbove key x y → IsNotAbove key y z → IsNotAbove key x z
  IsNotAbove-trans x y z h k = ground (
    arith,
    o.trans (key z) (key x) (key y),
    o.tri (key x) (key y),
    o.trans (key y) (key z) (key x),
  )

  unfoldable pub insert_sorted : A → List A → List A
  insert_sorted x [] = x ∷ []
  insert_sorted x (y ∷ ys) = if o.less (key y) (key x) then y ∷ insert_sorted x ys else x ∷ y ∷ ys

  unfoldable pub insertion_sort : List A → List A
  insertion_sort [] = []
  insertion_sort (x ∷ xs) = insert_sorted x (insertion_sort xs)

  insert_sorted-perm : (x : A) (ys : List A) → Permᴰ (insert_sorted x ys) (x ∷ ys)
  unfolding insert_sorted
  insert_sorted-perm x [] = Permᴰ.refl (x ∷ [])
  insert_sorted-perm x (y ∷ ys) = elim (Bool-cases (o.less (key y) (key x))) [
    | inl e ↦ rw e (Permᴰ.trans (Permᴰ.cons refl (insert_sorted-perm x ys)) (Permᴰ.swap refl refl))
    | inr e ↦ rw e (Permᴰ.refl (x ∷ y ∷ ys))
  ]

  pub insertion_sort-perm : (xs : List A) → Permᴰ (insertion_sort xs) xs
  unfolding insertion_sort
  insertion_sort-perm [] = Permᴰ.nil
  insertion_sort-perm (x ∷ xs) =
      Permᴰ.trans (insert_sorted-perm x (insertion_sort xs))
        (Permᴰ.cons refl (insertion_sort-perm xs))

  pub below→not_above : (x y : A) → IsBelow key x y → IsNotAbove key x y
  below→not_above x y h = ground (arith, o.trans (key x) (key y) (key x), o.irrefl (key x))

  insert_sorted-IsSorted :
      (x : A) (ys : List A) → IsSorted key ys → IsSorted key (insert_sorted x ys)
  unfolding insert_sorted
  insert_sorted-IsSorted x [] h = (tt, tt)
  insert_sorted-IsSorted x (y ∷ ys) h = elim (Bool-cases (o.less (key y) (key x))) [
    | inl e ↦ rw e (
      All-perm _ (insert_sorted-perm x ys) (below→not_above y x e, h.0),
      insert_sorted-IsSorted x ys h.1,
    )
    | inr e ↦ rw e ((e, All-map (λ z k. IsNotAbove-trans x y z e k) ys h.0), h)
  ]

  pub insertion_sort-IsSorted : (xs : List A) → IsSorted key (insertion_sort xs)
  unfolding insertion_sort
  insertion_sort-IsSorted [] = tt
  insertion_sort-IsSorted (x ∷ xs) = insert_sorted-IsSorted x _ (insertion_sort-IsSorted xs)

  -- One sort that meets the interface.
  abbrev pub insertion_sorter : Sorter key
  insertion_sorter = record {
    sort = insertion_sort;
    sort-perm = insertion_sort-perm;
    sort-IsSorted = insertion_sort-IsSorted;
  }
