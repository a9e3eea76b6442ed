-- ===== src/Chunk/Sets/Merge.antt =====
-- `merge` of two sets of chunks in order of ID.
use mathlib.Core.Path.{subst}
use frankenstein.Prelude.{
  ◌≡◌, refl, sym, ap, true, false, inl, inr, List, [], ◌∷◌, arith, All, or_else, Bool-cases,
}
use frankenstein.Prelude.Order.{Text, text_ord}
use frankenstein.Prelude.Strict.{All-IsBelow_trans, find_ahead}
use frankenstein.Prelude.Sort.{IsBelow, IsStrict, find}
use frankenstein.Chunk.Types.{Chunk, id_of, id_less}
use frankenstein.Chunk.Sets.{merge}

module _ {Time : Type 0} where
  All-merge :
      (x : Chunk Time) (a b : List (Chunk Time))
      → All (IsBelow id_of x) a
      → All (IsBelow id_of x) b
      → All (IsBelow id_of x) (merge a b)
  unfolding merge
  All-merge x [] b ha hb = hb
  All-merge x (y ∷ a) [] ha hb = ha
  All-merge x (y ∷ a) (z ∷ b) ha hb = ground (
    arith,
    All-merge x a (z ∷ b) ha.1 hb,
    All-merge x (y ∷ a) b ha hb.1,
    All-merge x a b ha.1 hb.1,
  )

  module _ (x y : Chunk Time) (a b : List (Chunk Time)) where
    merge_left : id_less x y ≡ true → merge (x ∷ a) (y ∷ b) ≡ x ∷ merge a (y ∷ b)
    unfolding merge
    merge_left e = ground arith

    merge_right :
        id_less x y ≡ false → id_less y x ≡ true → merge (x ∷ a) (y ∷ b) ≡ y ∷ merge (x ∷ a) b
    unfolding merge
    merge_right e f = ground arith

    merge_both : id_less x y ≡ false → id_less y x ≡ false → merge (x ∷ a) (y ∷ b) ≡ x ∷ merge a b
    unfolding merge
    merge_both e f = ground arith

  -- The merge of two sets in strict order is one.
  pub merge-IsStrict :
      (a b : List (Chunk Time)) → IsStrict id_of a → IsStrict id_of b → IsStrict id_of (merge a b)
  unfolding merge
  merge-IsStrict [] b ha hb = hb
  merge-IsStrict (x ∷ a) [] ha hb = ha
  merge-IsStrict (x ∷ a) (y ∷ b) ha hb = elim (Bool-cases (id_less x y)) [
    | inl e ↦ subst (IsStrict id_of) (sym (merge_left x y a b e)) (
      All-merge x a (y ∷ b) ha.0 (e, All-IsBelow_trans id_of x y b e hb.0),
      merge-IsStrict a (y ∷ b) ha.1 hb,
    )
    | inr e ↦ elim (Bool-cases (id_less y x)) [
      | inl f ↦ subst (IsStrict id_of) (sym (merge_right x y a b e f)) (
        All-merge y (x ∷ a) b (f, All-IsBelow_trans id_of y x a f ha.0) hb.0,
        merge-IsStrict (x ∷ a) b ha hb.1,
      )
      | inr f ↦ subst (IsStrict id_of) (sym (merge_both x y a b e f)) (
        All-merge x a b ha.0 (
            subst (λ j. All (λ c. text_ord.less j c.id ≡ true) b) (sym (text_ord.tri x.id y.id e f))
              hb.0),
        merge-IsStrict a b ha.1 hb.1,
      )
    ]
  ]

  -- For a first set in strict order, looking an ID up in the merge is looking it up in the first set
  -- and then in the second.
  pub find-merge :
      (k : Text) (a b : List (Chunk Time))
      → IsStrict id_of a
      → find id_of k (merge a b) ≡ or_else (find id_of k a) (find id_of k b)
  unfolding merge
  find-merge k [] b ha = refl
  find-merge k (x ∷ a) [] ha = ground arith
  find-merge k (x ∷ a) (y ∷ b) ha = elim (Bool-cases (id_less x y)) [
    | inl e ↦ rw (merge_left x y a b e) (ground (arith, find-merge k a (y ∷ b) ha.1))
    | inr e ↦ elim (Bool-cases (id_less y x)) [
      | inl f ↦
          rw (merge_right x y a b e f)
            (ground (arith, find-merge k (x ∷ a) b ha, find_ahead id_of k y x a f ha.0))
      | inr f ↦ rw (merge_both x y a b e f) (
          ground (
            arith,
            find-merge k a b ha.1,
            ap (λ j. text_ord.same j k) (text_ord.tri x.id y.id e f),
          ))
    ]
  ]
