-- ===== src/Chunk/Store/Abstract/Hash.antt =====
-- chunk/chunk_store.go: `hashValue` of one user keeps hours and names apart.
use frankenstein.Prelude.{
  ◌≡◌, refl, sym, ap, ◌∙◌, inl, inr, false, ◌&&◌, [], ◌∷◌, ◌++◌, arith, All, Bool-cases, ◌==◌,
}
use frankenstein.Prelude.Int.{ℤ, same_ℤ, same_ℤ_iff}
use frankenstein.Prelude.Order.{Text, text_ord, text_same}
use frankenstein.Chunk.Store.{Deps, hash_value}

-- A text without colons
abbrev pub HasNoColon : Text → Type 0
HasNoColon = All (λ b. (b == 58) ≡ false)

pub text_same-front : (u x y : Text) → text_same (u ++ x) (u ++ y) ≡ text_same x y
text_same-front [] x y = refl
text_same-front (b ∷ u) x y = ground (arith, text_same-front u x y)

text_same-cut :
    (s t n m : Text)
    → HasNoColon s
    → HasNoColon t
    → text_same (s ++ 58 ∷ n) (t ++ 58 ∷ m) ≡ (text_same s t && text_same n m)
text_same-cut [] [] n m h g = ground arith
text_same-cut [] (b ∷ t) n m h g = ground (arith, g.0)
text_same-cut (a ∷ s) [] n m h g = ground (arith, h.0)
text_same-cut (a ∷ s) (b ∷ t) n m h g = ground (arith, text_same-cut s t n m h.1 g.1)

module _ {Time W : Type 0} (deps : Deps Time W)
    (shows : (i h : ℤ) → deps.show_int i ≡ deps.show_int h → i ≡ h)
    (plain : (i : ℤ) → HasNoColon (deps.show_int i)) where
  same-show_int : (i h : ℤ) → text_same (deps.show_int i) (deps.show_int h) ≡ same_ℤ i h
  same-show_int i h = elim (Bool-cases (same_ℤ i h)) [
    | inl e ↦ rw ((same_ℤ_iff i h).0 e) (
        (text_ord.same_iff (deps.show_int h) (deps.show_int h)).1 refl
        ∙ sym ((same_ℤ_iff h h).1 refl))
    | inr e ↦ elim (Bool-cases (text_same (deps.show_int i) (deps.show_int h))) [
      | inl f ↦ cc (
          (same_ℤ_iff i h).1
            (shows i h ((text_ord.same_iff (deps.show_int i) (deps.show_int h)).0 f)))
      | inr f ↦ f ∙ sym e
    ]
  ]

  -- When fmt's %d gives different texts for different numbers, and none with a colon, then the hash
  -- values of one user are the same just for the same hour and the same metric name.
  pub same-hash_value :
      (user_id : Text) (i h : ℤ) (name asked : Text)
      → text_ord.same (hash_value deps user_id i name) (hash_value deps user_id h asked)
        ≡ (same_ℤ i h && text_ord.same name asked)
  same-hash_value user_id i h name asked =
      text_same-front user_id _ _
      ∙ text_same-cut (deps.show_int i) (deps.show_int h) name asked (plain i) (plain h)
      ∙ ap (λ b. b && text_same name asked) (same-show_int i h)
