-- ===== src/Chunk/Sets/Intersect.antt =====
-- `nWayIntersect`, its case of two sets in order of ID.
use mathlib.Core.Path.{subst}
use frankenstein.Prelude.{
  ◌<◌, ◌≡◌, refl, sym, ap, ◌∙◌, true, false, inl, inr, List, [], ◌∷◌, ◌++◌, Option, none, some,
  arith, All, Bool-cases, length,
}
use frankenstein.Prelude.Order.{Text, text_ord}
use frankenstein.Prelude.Sort.{IsStrict, find}
use frankenstein.Chunk.Types.{Chunk, id_of, id_less, same_id}
use frankenstein.Chunk.Sets.{intersect}
use frankenstein.Prelude.Strict.{find_ahead}

-- The first value, if both are there.
abbrev pub both {ℓ} : {A : Type ℓ} → Option A → Option A → Option A
both (some a) (some b) = some a
both _ _ = none

module _ {Time : Type 0} where
  module _ (x y : Chunk Time) (a b : List (Chunk Time)) where
    intersect_left : id_less x y ≡ true → intersect (x ∷ a) (y ∷ b) ≡ intersect a (y ∷ b)
    unfolding intersect
    intersect_left e = ground (arith, text_ord.same_iff x.id y.id, text_ord.irrefl x.id)

    intersect_same : same_id x y ≡ true → intersect (x ∷ a) (y ∷ b) ≡ x ∷ intersect (x ∷ a) b
    unfolding intersect
    intersect_same e = ground (arith, text_ord.same_iff x.id y.id, text_ord.irrefl x.id)

    intersect_right :
        id_less x y ≡ false → same_id x y ≡ false → intersect (x ∷ a) (y ∷ b) ≡ intersect (x ∷ a) b
    unfolding intersect
    intersect_right e f = ground arith

  -- What holds of the IDs of the right set holds of those of the intersection.
  All-intersect :
      (k : Text) (a b : List (Chunk Time))
      → All (λ c. text_ord.less k c.id ≡ true) b
      → All (λ c. text_ord.less k c.id ≡ true) (intersect a b)
  unfolding intersect
  All-intersect k [] b h = tt
  All-intersect k (x ∷ a) [] h = tt
  All-intersect k (x ∷ a) (y ∷ b) h = elim (Bool-cases (id_less x y)) [
    | inl e ↦ subst (All _) (sym (intersect_left x y a b e)) (All-intersect k a (y ∷ b) h)
    | inr e ↦ elim (Bool-cases (same_id x y)) [
      | inl f ↦ subst (All _) (sym (intersect_same x y a b f)) (
        subst (λ j. text_ord.less k j ≡ true) (sym ((text_ord.same_iff x.id y.id).0 f)) h.0,
        All-intersect k (x ∷ a) b h.1,
      )
      | inr f ↦ subst (All _) (sym (intersect_right x y a b e f)) (All-intersect k (x ∷ a) b h.1)
    ]
  ]

  pub intersect-IsStrict :
      (a b : List (Chunk Time)) → IsStrict id_of b → IsStrict id_of (intersect a b)
  unfolding intersect
  intersect-IsStrict [] b h = tt
  intersect-IsStrict (x ∷ a) [] h = tt
  intersect-IsStrict (x ∷ a) (y ∷ b) h = elim (Bool-cases (id_less x y)) [
    | inl e ↦
        subst (IsStrict id_of) (sym (intersect_left x y a b e)) (intersect-IsStrict a (y ∷ b) h)
    | inr e ↦ elim (Bool-cases (same_id x y)) [
      | inl f ↦ subst (IsStrict id_of) (sym (intersect_same x y a b f)) (
        All-intersect x.id (x ∷ a) b (
            subst (λ j. All (λ c. text_ord.less j c.id ≡ true) b)
              (sym ((text_ord.same_iff x.id y.id).0 f)) h.0),
        intersect-IsStrict (x ∷ a) b h.1,
      )
      | inr f ↦
          subst (IsStrict id_of) (sym (intersect_right x y a b e f))
            (intersect-IsStrict (x ∷ a) b h.1)
    ]
  ]

  -- The intersection of two sets in strict order has the IDs that both have, with the chunks of the
  -- first.
  pub find-intersect :
      (k : Text) (a b : List (Chunk Time))
      → IsStrict id_of a
      → IsStrict id_of b
      → find id_of k (intersect a b) ≡ both (find id_of k a) (find id_of k b)
  unfolding intersect
  find-intersect k [] b ha hb = refl
  find-intersect k (x ∷ a) [] ha hb = ground arith
  find-intersect k (x ∷ a) (y ∷ b) ha hb = elim (Bool-cases (id_less x y)) [
    | inl e ↦
        rw (intersect_left x y a b e)
          (ground (arith, find-intersect k a (y ∷ b) ha.1 hb, find_ahead id_of k x y b e hb.0))
    | inr e ↦ elim (Bool-cases (same_id x y)) [
      | inl f ↦ rw (intersect_same x y a b f) (
          ground (
            arith,
            find-intersect k (x ∷ a) b ha hb.1,
            ap (λ j. text_ord.same j k) ((text_ord.same_iff x.id y.id).0 f),
          ))
      | inr f ↦ rw (intersect_right x y a b e f) (
          ground (
            arith,
            find-intersect k (x ∷ a) b ha hb.1,
            find_ahead id_of k y x a,
            text_ord.tri x.id y.id e,
            text_ord.same_iff x.id y.id,
            ha.0,
          ))
    ]
  ]

  -- A chunk with an ID in every one of several sets: that of the first.
  abbrev pub common : Text → List (List (Chunk Time)) → Option (Chunk Time)
  common k [] = none
  common k (set ∷ []) = find id_of k set
  common k (set ∷ next ∷ sets) = both (find id_of k set) (common k (next ∷ sets))

  both_assoc : (a b c : Option (Chunk Time)) → both (both a b) c ≡ both a (both b c)
  both_assoc a b c = ground arith

  pub common-append :
      (k : Text) (xs ys : List (List (Chunk Time)))
      → 0 < length xs
      → 0 < length ys
      → common k (xs ++ ys) ≡ both (common k xs) (common k ys)
  common-append k [] ys h g = absurd (omega arith)
  common-append k (x ∷ xs) [] h g = absurd (omega arith)
  common-append k (x ∷ []) (y ∷ ys) h g = refl
  common-append k (x ∷ x' ∷ xs) (y ∷ ys) h g =
      ap (both (find id_of k x)) (common-append k (x' ∷ xs) (y ∷ ys) (omega arith) g)
      ∙ sym (both_assoc (find id_of k x) (common k (x' ∷ xs)) (common k (y ∷ ys)))
