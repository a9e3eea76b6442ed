-- ===== src/Prelude/Strict.antt =====
-- Lists in strict order of a key: finding by key, and equality from equal findings.
use mathlib.Core.Path.{◌≡◌, refl, sym, ap₂, subst, ◌∙◌}
use mathlib.Core.Bool.{true, false}
use mathlib.Core.Logic.{inl, inr}
use mathlib.Core.List.{List, [], ◌∷◌}
use mathlib.Core.Option.{none, some}
use native.Mathlib.Omega.{arith}
use frankenstein.Prelude.Tests.{Bool-cases}
use frankenstein.Prelude.Lists.{All, All-map}
use frankenstein.Prelude.Order.{Ord}
use frankenstein.Prelude.Sort.{IsBelow, IsSorted, IsStrict, find, below→not_above}

module _ {ℓ κ} {K : Type ℓ} {A : Type κ} ⦃o : Ord K⦄ (key : A → K) where
  -- A key below all of a list's keys is not found.
  pub find_below :
      (k : K) (xs : List A) → All (λ c. o.less k (key c) ≡ true) xs → find key k xs ≡ none
  find_below k [] h = refl
  find_below k (x ∷ xs) h = ground (arith, o.same_iff (key x) k, o.irrefl k, find_below k xs h.1)

  pub All-IsBelow_trans :
      (x y : A) (zs : List A) → IsBelow key x y → All (IsBelow key y) zs → All (IsBelow key x) zs
  All-IsBelow_trans x y zs h = All-map (λ z k. o.trans (key x) (key y) (key z) h k) zs

  -- Nor is the key of an element that lies before the list's head.
  pub find_ahead :
      (k : K) (y x : A) (xs : List A)
      → IsBelow key y x
      → All (IsBelow key x) xs
      → o.same (key y) k ≡ true
      → find key k (x ∷ xs) ≡ none
  find_ahead k y x xs h below e =
      subst (λ j. find key j (x ∷ xs) ≡ none) ((o.same_iff (key y) k).0 e)
        (find_below (key y) (x ∷ xs) (h, All-IsBelow_trans y x xs h below))

  pub strict-IsSorted : (xs : List A) → IsStrict key xs → IsSorted key xs
  strict-IsSorted [] s = tt
  strict-IsSorted (x ∷ xs) s =
      (All-map (λ y below. below→not_above key x y below) xs s.0, strict-IsSorted xs s.1)

  pub same_refl : (k : K) → o.same k k ≡ true
  same_refl k = (o.same_iff k k).1 refl

  pub find_head : (x : A) (xs : List A) → find key (key x) (x ∷ xs) ≡ some x
  find_head x xs = rw (same_refl (key x))

  heads_ordered :
      (x y : A) (xs ys : List A)
      → IsStrict key (y ∷ ys)
      → find key (key x) (x ∷ xs) ≡ find key (key x) (y ∷ ys)
      → o.less (key x) (key y) ≡ false
  heads_ordered x y xs ys s e = elim (Bool-cases (o.less (key x) (key y))) [
    | inr b ↦ b
    | inl b ↦ cc (find_head x xs, e, find_ahead (key x) x y ys b s.0 (same_refl (key x)))
  ]

  find_tail :
      (k : K) (x : A) (xs ys : List A)
      → All (IsBelow key x) xs
      → All (IsBelow key x) ys
      → find key k (x ∷ xs) ≡ find key k (x ∷ ys)
      → find key k xs ≡ find key k ys
  find_tail k x xs ys bx by e = elim (Bool-cases (o.same (key x) k)) [
    | inl hit ↦
        let at_k = (o.same_iff (key x) k).0 hit in
        subst (λ j. find key j xs ≡ find key j ys) at_k
          (find_below (key x) xs bx ∙ sym (find_below (key x) ys by))
    | inr miss ↦ ground arith
  ]

  -- Two lists in strict order in which the same is found are equal.
  pub IsStrict-ext :
      (xs ys : List A)
      → IsStrict key xs
      → IsStrict key ys
      → ((k : K) → find key k xs ≡ find key k ys)
      → xs ≡ ys
  IsStrict-ext [] [] sx sy e = refl
  IsStrict-ext [] (y ∷ ys) sx sy e = cc (e (key y), find_head y ys)
  IsStrict-ext (x ∷ xs) [] sx sy e = cc (e (key x), find_head x xs)
  IsStrict-ext (x ∷ xs) (y ∷ ys) sx sy e =
      let keys : key x ≡ key y =
        o.tri (key x) (key y) (heads_ordered x y xs ys sy (e (key x)))
          (heads_ordered y x ys xs sx (sym (e (key y)))) in
      let heads : x ≡ y =
        ground (arith, find_head x xs, find_head y ys, e (key x), o.same_iff (key y) (key x)) in
      ap₂ ◌∷◌ heads (
        IsStrict-ext xs ys sx.1 sy.1 λ k.
          find_tail k x xs ys sx.0 (subst (λ z. All (IsBelow key z) ys) (sym heads) sy.0)
            (subst (λ z. find key k (x ∷ xs) ≡ find key k (z ∷ ys)) (sym heads) (e k)))
