-- ===== src/Prelude/Order.antt =====
-- Strict linear orders as Go's `<` and `==` give them, on numbers and on strings of bytes.
use Prim.Native.Char.{code}
use Prim.Native.String.{String}
use Prim.Native.Nat.{ℕ}
use mathlib.Core.Path.{◌≡◌, refl}
use mathlib.Core.Logic.{◌↔◌}
use mathlib.Core.Bool.{Bool, true, false}
use mathlib.Core.List.{List, [], ◌∷◌}
use native.Mathlib.Omega.{arith}
use frankenstein.Prelude.Tests.{ltb, ◌==◌ as nat_eq, if◌then◌else◌}

pub record Ord {ℓ} (K : Type ℓ) : Type ℓ where
  pub less : K → K → Bool
  pub same : K → K → Bool
  pub irrefl : (a : K) → less a a ≡ false
  pub trans : (a b c : K) → less a b ≡ true → less b c ≡ true → less a c ≡ true
  pub tri : (a b : K) → less a b ≡ false → less b a ≡ false → a ≡ b
  pub same_iff : (a b : K) → (same a b ≡ true) ↔ (a ≡ b)

pub ltb_irrefl : (a : ℕ) → ltb a a ≡ false
ltb_irrefl a = ground arith

pub ltb_trans : (a b c : ℕ) → ltb a b ≡ true → ltb b c ≡ true → ltb a c ≡ true
ltb_trans a b c h k = ground arith

pub ltb_tri : (a b : ℕ) → ltb a b ≡ false → ltb b a ≡ false → a ≡ b
ltb_tri a b h k = ground arith

pub nat_eq_iff : (a b : ℕ) → (nat_eq a b ≡ true) ↔ (a ≡ b)
nat_eq_iff a b = ground arith

instance abbrev pub nat_ord : Ord ℕ
nat_ord = record {
  less = ltb;
  same = nat_eq;
  irrefl = ltb_irrefl;
  trans = ltb_trans;
  tri = ltb_tri;
  same_iff = nat_eq_iff;
}

-- A Go string: its bytes.
abbrev pub Text : Type 0
Text = List ℕ

-- Go compares strings byte by byte; a proper prefix comes first.
abbrev pub text_less : Text → Text → Bool
text_less [] [] = false
text_less [] (b ∷ bs) = true
text_less (a ∷ as') [] = false
text_less (a ∷ as') (b ∷ bs) = if ltb a b then true else if ltb b a then false else text_less as' bs

abbrev pub text_same : Text → Text → Bool
text_same [] [] = true
text_same [] (b ∷ bs) = false
text_same (a ∷ as') [] = false
text_same (a ∷ as') (b ∷ bs) = if nat_eq a b then text_same as' bs else false

pub text_less_irrefl : (a : Text) → text_less a a ≡ false
text_less_irrefl [] = refl
text_less_irrefl (a ∷ as') = ground (arith, text_less_irrefl as')

pub text_less_trans :
    (a b c : Text) → text_less a b ≡ true → text_less b c ≡ true → text_less a c ≡ true
text_less_trans [] [] c h k = k
text_less_trans [] (b ∷ bs) [] h k = k
text_less_trans [] (b ∷ bs) (c ∷ cs) h k = refl
text_less_trans (a ∷ as') [] c h k = cc
text_less_trans (a ∷ as') (b ∷ bs) [] h k = k
text_less_trans (a ∷ as') (b ∷ bs) (c ∷ cs) h k = ground (arith, text_less_trans as' bs cs)

pub text_less_tri : (a b : Text) → text_less a b ≡ false → text_less b a ≡ false → a ≡ b
text_less_tri [] [] h k = refl
text_less_tri [] (b ∷ bs) h k = cc
text_less_tri (a ∷ as') [] h k = cc
text_less_tri (a ∷ as') (b ∷ bs) h k = ground (arith, text_less_tri as' bs)

pub text_same_iff : (a b : Text) → (text_same a b ≡ true) ↔ (a ≡ b)
text_same_iff [] [] = ground arith
text_same_iff [] (b ∷ bs) = ground arith
text_same_iff (a ∷ as') [] = ground arith
text_same_iff (a ∷ as') (b ∷ bs) = ground (arith, text_same_iff as' bs)

instance abbrev pub text_ord : Ord Text
text_ord = record {
  less = text_less;
  same = text_same;
  irrefl = text_less_irrefl;
  trans = text_less_trans;
  tri = text_less_tri;
  same_iff = text_same_iff;
}

-- The bytes of an ASCII literal.
abbrev pub codes : String → Text
codes String.[] = []
codes (String.◌∷◌ c s) = code c ∷ codes s
