-- ===== src/Prelude/Gather.antt =====
-- Results that arrive in some order, and tests on all or on any of a list.
use mathlib.Core.Path.{◌≡◌, refl, ap, ◌∙◌}
use mathlib.Core.Bool.{Bool, true, false, ◌&&◌, ◌||◌}
use mathlib.Core.List.{List, [], ◌∷◌, map, Permᴰ}
use native.Mathlib.Omega.{arith}

module _ {ℓ} {A : Type ℓ} where
  abbrev pub all_of : (A → Bool) → List A → Bool
  all_of p [] = true
  all_of p (x ∷ xs) = p x && all_of p xs

  abbrev pub any_of : (A → Bool) → List A → Bool
  any_of p [] = false
  any_of p (x ∷ xs) = p x || any_of p xs

  pub all_of-perm : (p : A → Bool) {xs ys : List A} → Permᴰ xs ys → all_of p xs ≡ all_of p ys
  all_of-perm p Permᴰ.nil = refl
  all_of-perm p (Permᴰ.cons e d) = ground (arith, ap p e, all_of-perm p d)
  all_of-perm p (Permᴰ.swap e f) = ground (arith, ap p e, ap p f)
  all_of-perm p (Permᴰ.trans d d') = all_of-perm p d ∙ all_of-perm p d'

  pub any_of-perm : (p : A → Bool) {xs ys : List A} → Permᴰ xs ys → any_of p xs ≡ any_of p ys
  any_of-perm p Permᴰ.nil = refl
  any_of-perm p (Permᴰ.cons e d) = ground (arith, ap p e, any_of-perm p d)
  any_of-perm p (Permᴰ.swap e f) = ground (arith, ap p e, ap p f)
  any_of-perm p (Permᴰ.trans d d') = any_of-perm p d ∙ any_of-perm p d'

module _ {ℓ κ} {A : Type ℓ} {B : Type κ} (f : A → B) where
  -- An arrangement of results is the results of an arrangement.
  unmapped :
      (xs : List B) (zs : List B) (ps : List A)
      → Permᴰ xs zs
      → zs ≡ map f ps
      → (qs : List A) × (xs ≡ map f qs) × Permᴰ qs ps
  unmapped xs zs [] Permᴰ.nil e = ([], refl, Permᴰ.nil)
  unmapped xs zs (p ∷ ps) Permᴰ.nil e = cc
  unmapped xs zs [] (Permᴰ.cons h d) e = cc
  unmapped xs zs (p ∷ ps) (Permᴰ.cons {l₁ = as'} {l₂ = bs} h d) e =
      let (qs, g, d') = unmapped as' bs ps d cc in (p ∷ qs, cc (e, h, g), Permᴰ.cons refl d')
  unmapped xs zs [] (Permᴰ.swap h g) e = cc
  unmapped xs zs (p ∷ []) (Permᴰ.swap h g) e = cc
  unmapped xs zs (p ∷ q ∷ ps) (Permᴰ.swap h g) e = (q ∷ p ∷ ps, cc (e, h, g), Permᴰ.swap refl refl)
  unmapped xs zs ps (Permᴰ.trans {l₂ = ys} d d') e =
      let (qs, g, p) = unmapped ys zs ps d' e in
      let (rs, g', p') = unmapped xs ys qs d g in (rs, g', Permᴰ.trans p' p)

  pub arranged :
      (xs : List B) (ps : List A)
      → Permᴰ xs (map f ps)
      → (qs : List A) × (xs ≡ map f qs) × Permᴰ qs ps
  arranged xs ps d = unmapped xs (map f ps) ps d refl
