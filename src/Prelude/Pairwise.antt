-- ===== src/Prelude/Pairwise.antt =====
-- A relation between every element of a list and every later one.
use mathlib.Core.Path.{◌≡◌, sym, subst}
use mathlib.Core.List.{List, [], ◌∷◌, ◌++◌, Permᴰ}
use frankenstein.Prelude.Lists.{All, All-append}
use frankenstein.Prelude.Sort.{All-perm}

pub All-split {ℓ κ} :
    {A : Type ℓ} (P : A → Type κ) (xs ys : List A) → All P (xs ++ ys) → All P xs × All P ys
All-split P [] ys h = (tt, h)
All-split P (x ∷ xs) ys h = let (a, b) = All-split P xs ys h.1 in ((h.0, a), b)

module _ {ℓ κ} {A : Type ℓ} (R : A → A → Type κ) where
  abbrev pub Pairwise : List A → Type κ
  Pairwise [] = Unit
  Pairwise (x ∷ xs) = All (R x) xs × Pairwise xs

  pub append-Pairwise :
      (xs ys : List A)
      → All (λ x. All (R x) ys) xs
      → Pairwise xs
      → Pairwise ys
      → Pairwise (xs ++ ys)
  append-Pairwise [] ys a p q = q
  append-Pairwise (x ∷ xs) ys a p q =
      (All-append (R x) xs ys p.0 a.0, append-Pairwise xs ys a.1 p.1 q)

  pub split-Pairwise :
      (xs ys : List A)
      → Pairwise (xs ++ ys)
      → All (λ x. All (R x) ys) xs × Pairwise xs × Pairwise ys
  split-Pairwise [] ys p = (tt, tt, p)
  split-Pairwise (x ∷ xs) ys p =
      let (here, there) = All-split (R x) xs ys p.0 in
      let (a, q, r) = split-Pairwise xs ys p.1 in ((there, a), (here, q), r)

  module _ (flip : (x y : A) → R x y → R y x) where
    swapped :
        (x y u v : A) (l : List A) → x ≡ u → y ≡ v → Pairwise (v ∷ u ∷ l) → Pairwise (x ∷ y ∷ l)
    swapped x y u v l e f p = (
      (
        flip y x (subst (λ z. R z x) (sym f) (subst (λ z. R v z) (sym e) p.0.0)),
        subst (λ z. All (R z) l) (sym e) p.1.0,
      ),
      (subst (λ z. All (R z) l) (sym f) p.0.1, p.1.1),
    )

    headed : (x y : A) {xs ys : List A} → x ≡ y → Permᴰ xs ys → All (R y) ys → All (R x) xs
    headed x y {xs} {ys} e d h = All-perm (R x) d (subst (λ z. All (R z) ys) (sym e) h)

    pub perm-Pairwise : {xs ys : List A} → Permᴰ xs ys → Pairwise ys → Pairwise xs
    perm-Pairwise Permᴰ.nil p = p
    perm-Pairwise (Permᴰ.cons e d) p = (headed _ _ e d p.0, perm-Pairwise d p.1)
    perm-Pairwise (Permᴰ.swap e f) p = swapped _ _ _ _ _ e f p
    perm-Pairwise (Permᴰ.trans d d') p = perm-Pairwise d (perm-Pairwise d' p)

    -- The relation between every element of one list and every element of another, turned round
    pub flip-All : (xs ys : List A) → All (λ x. All (R x) ys) xs → All (λ y. All (R y) xs) ys
    flip-All xs [] h = tt
    flip-All xs (y ∷ ys) h = (heads xs h, flip-All xs ys (tails xs h))
      where
        heads : (xs : List A) → All (λ x. All (R x) (y ∷ ys)) xs → All (R y) xs
        heads [] h = tt
        heads (x ∷ xs) h = (flip x y h.0.0, heads xs h.1)

        tails : (xs : List A) → All (λ x. All (R x) (y ∷ ys)) xs → All (λ x. All (R x) ys) xs
        tails [] h = tt
        tails (x ∷ xs) h = (h.0.1, tails xs h.1)
