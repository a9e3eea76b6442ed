-- ===== src/Prelude/Search.antt =====
-- Go's sort.Search: the least index in [0, n) at which a monotone test holds, else n.
use Prim.Native.Nat.{ℕ, zero, suc, ◌+◌, ◌-◌, ◌/◌, ◌≤◌, ◌<◌}
use mathlib.Core.Path.{◌≡◌}
use mathlib.Core.Bool.{Bool, true, false}
use mathlib.Core.Logic.{inl, inr}
use mathlib.Core.List.{List, [], ◌∷◌}
use native.Mathlib.Omega.{arith}
use frankenstein.Prelude.Tests.{ltb, Bool-cases, if◌then◌else◌}
use frankenstein.Prelude.Lists.{length, get_or}

-- The loop on [i, j). Each round shrinks it, so `j - i` rounds are enough.
unfoldable pub search_loop : ℕ → (ℕ → Bool) → ℕ → ℕ → ℕ
search_loop zero f i j = i
search_loop (suc fuel) f i j =
    let h = i + (j - i) / 2 in
    let left = search_loop fuel f i h in
    let right = search_loop fuel f (h + 1) j in if ltb i j then (if f h then left else right) else i

unfoldable pub search_index : ℕ → (ℕ → Bool) → ℕ
unfolding search_loop
search_index n f = search_loop n f 0 n

-- `r` splits [0, n) into the indices that fail the test and those that pass it.
pub record Splits (n : ℕ) (f : ℕ → Bool) (r : ℕ) : Type 0 where
  pub inside : r ≤ n
  pub below : (x : ℕ) → x < r → f x ≡ false
  pub above : (x : ℕ) → r ≤ x → x < n → f x ≡ true

abbrev pub IsMonotone : ℕ → (ℕ → Bool) → Type 0
IsMonotone n f = (x y : ℕ) → x ≤ y → y < n → f x ≡ true → f y ≡ true

module _ (n : ℕ) (f : ℕ → Bool) (mono : IsMonotone n f) where
  record Inv (i j : ℕ) : Type 0 where
    ordered : i ≤ j
    within : j ≤ n
    low : (x : ℕ) → x < i → f x ≡ false
    high : (x : ℕ) → j ≤ x → x < n → f x ≡ true

  fails_below : (h x : ℕ) → h < n → f h ≡ false → x ≤ h → f x ≡ false
  fails_below h x b e le = ground (arith, mono x h)

  done-Splits : (i j : ℕ) → Inv i j → j ≤ i → Splits n f i
  done-Splits i j v h = record {
    inside = omega (arith, v.ordered, v.within);
    below = v.low;
    above = λ x p q. v.high x (omega arith) q;
  }

  go_left : (i j h : ℕ) → Inv i j → i ≤ h → h < j → f h ≡ true → Inv i h
  go_left i j h v a b e = record {
    ordered = a;
    within = omega (arith, v.within);
    low = v.low;
    high = λ x p q. mono h x p q e;
  }

  go_right : (i j h : ℕ) → Inv i j → i ≤ h → h < j → f h ≡ false → Inv (h + 1) j
  go_right i j h v a b e = record {
    ordered = omega arith;
    within = v.within;
    low = λ x p. fails_below h x (omega (arith, v.within)) e (omega arith);
    high = v.high;
  }

  search_loop-Splits : (fuel i j : ℕ) → Inv i j → j - i ≤ fuel → Splits n f (search_loop fuel f i j)
  unfolding search_loop
  search_loop-Splits zero i j v h = done-Splits i j v (omega (arith, v.ordered))
  search_loop-Splits (suc fuel) i j v h = elim (Bool-cases (ltb i j)) [
    | inr out ↦ rw out (done-Splits i j v (ground arith))
    | inl more ↦ elim (Bool-cases (f (i + (j - i) / 2))) [
      | inl hit ↦
          rw (more, hit)
            (search_loop-Splits fuel i (i + (j - i) / 2)
              (go_left i j (i + (j - i) / 2) v (omega arith) (ground arith) hit) (ground arith))
      | inr miss ↦
          rw (more, miss)
            (search_loop-Splits fuel (i + (j - i) / 2 + 1) j
              (go_right i j (i + (j - i) / 2) v (omega arith) (ground arith) miss) (ground arith))
    ]
  ]

  pub search_index-Splits : Splits n f (search_index n f)
  unfolding search_index
  search_index-Splits =
      search_loop-Splits n 0 n
        (record {
          ordered = omega arith;
          within = omega arith;
          low = λ x p. absurd (omega arith);
          high = λ x p q. absurd (omega arith);
        })
        (omega arith)

-- The index of the first element that passes a test, else the length: what a linear scan finds.
module _ {ℓ} {A : Type ℓ} (p : A → Bool) where
  abbrev pub position : List A → ℕ
  position [] = 0
  position (x ∷ xs) = if p x then 0 else suc (position xs)

  position_le : (xs : List A) → position xs ≤ length xs
  position_le [] = omega arith
  position_le (x ∷ xs) = ground (arith, position_le xs)

  position_below : (d : A) (xs : List A) (i : ℕ) → i < position xs → p (get_or xs i d) ≡ false
  position_below d [] i h = absurd (omega arith)
  position_below d (x ∷ xs) zero h = ground arith
  position_below d (x ∷ xs) (suc i) h = ground (arith, position_below d xs i)

  position_hit :
      (d : A) (xs : List A) → position xs < length xs → p (get_or xs (position xs) d) ≡ true
  position_hit d [] h = absurd (omega arith)
  position_hit d (x ∷ xs) h = elim (Bool-cases (p x)) [
    | inl e ↦ rw e e
    | inr e ↦ rw e (position_hit d xs (ground arith))
  ]

  -- A split of a list's indices by a test of its elements is where the scan stops.
  pub Splits-position :
      (d : A) (xs : List A) (r : ℕ)
      → Splits (length xs) (λ i. p (get_or xs i d)) r
      → r ≡ position xs
  Splits-position d xs r s = ground (
    arith,
    position_le xs,
    position_hit d xs,
    position_below d xs r,
    s.inside,
    s.below (position xs),
    s.above r,
  )
