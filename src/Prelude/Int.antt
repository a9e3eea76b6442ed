-- ===== src/Prelude/Int.antt =====
-- Go's int64 values as integers. The program divides them and counts through them one by one.
use frankenstein.Prelude.Order.{Ord}
use frankenstein.Prelude.{Bool, ◌≡◌, arith, false, if◌then◌else◌, leb, ltb, true, ◌==◌, ◌↔◌}
use Prim.Native.Nat.{ℕ, zero, suc, ◌+◌, ◌-◌, ◌/◌, ◌≤◌}

-- `negsuc n` is -(n + 1).
pub data ℤ : Type 0 where
  pos : ℕ → ℤ
  negsuc : ℕ → ℤ

abbrev pub pos_part : ℤ → ℕ
pos_part (pos n) = n
pos_part (negsuc n) = 0

abbrev pub neg_part : ℤ → ℕ
neg_part (pos n) = 0
neg_part (negsuc n) = suc n

infix 50 ◌≤ℤ◌
abbrev pub ◌≤ℤ◌ : ℤ → ℤ → Type 0
a ≤ℤ b = pos_part a + neg_part b ≤ pos_part b + neg_part a

abbrev pub negate : ℕ → ℤ
negate zero = pos 0
negate (suc n) = negsuc n

abbrev pub difference : ℕ → ℕ → ℤ
difference m n = if leb n m then pos (m - n) else negate (n - m)

infixl 60 ◌-ℤ◌
abbrev pub ◌-ℤ◌ : ℤ → ℤ → ℤ
a -ℤ b = difference (pos_part a + neg_part b) (pos_part b + neg_part a)

-- Go's division by a positive number goes towards zero.
abbrev pub quotient : ℤ → ℕ → ℤ
quotient (pos n) d = pos (n / d)
quotient (negsuc n) d = negate (suc n / d)

abbrev pub next : ℤ → ℤ
next (pos n) = pos (suc n)
next (negsuc n) = negate n

-- How many integers lie from `a` to `b`, both counted.
abbrev pub count_to : ℤ → ℤ → ℕ
count_to a b = suc (pos_part b + neg_part a) - (pos_part a + neg_part b)

abbrev pub less_ℤ : ℤ → ℤ → Bool
less_ℤ a b = ltb (pos_part a + neg_part b) (pos_part b + neg_part a)

abbrev pub same_ℤ : ℤ → ℤ → Bool
same_ℤ a b = pos_part a + neg_part b == pos_part b + neg_part a

pub less_ℤ_irrefl : (a : ℤ) → less_ℤ a a ≡ false
less_ℤ_irrefl a = ground arith

pub less_ℤ_trans : (a b c : ℤ) → less_ℤ a b ≡ true → less_ℤ b c ≡ true → less_ℤ a c ≡ true
less_ℤ_trans a b c h k = ground arith

pub eq_of_parts : (a b : ℤ) → pos_part a + neg_part b ≡ pos_part b + neg_part a → a ≡ b
eq_of_parts a b h = ground arith

pub less_ℤ_tri : (a b : ℤ) → less_ℤ a b ≡ false → less_ℤ b a ≡ false → a ≡ b
less_ℤ_tri a b h k = eq_of_parts a b (ground arith)

pub same_ℤ_iff : (a b : ℤ) → (same_ℤ a b ≡ true) ↔ (a ≡ b)
same_ℤ_iff a b = (λ h. eq_of_parts a b (ground arith), λ h. ground arith)

instance abbrev pub int_ord : Ord ℤ
int_ord = record {
  less = less_ℤ;
  same = same_ℤ;
  irrefl = less_ℤ_irrefl;
  trans = less_ℤ_trans;
  tri = less_ℤ_tri;
  same_iff = same_ℤ_iff;
}
