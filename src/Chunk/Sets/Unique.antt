-- ===== src/Chunk/Sets/Unique.antt =====
-- `unique` on a list of chunks in order of ID.
use frankenstein.Prelude.{◌≡◌, refl, false, inl, inr, List, [], ◌∷◌, arith, Bool-cases}
use frankenstein.Prelude.Order.{Text, text_ord}
use frankenstein.Prelude.Sort.{IsBelow, IsNotAbove, IsSorted, IsStrict, find}
use frankenstein.Chunk.Types.{Chunk, id_of, same_id}
use frankenstein.Chunk.Sets.{unique_loop, unique}
use frankenstein.Prelude.Strict.{All-IsBelow_trans}

module _ {Time : Type 0} where
  differs-IsBelow :
      (x y : Chunk Time) → IsNotAbove id_of x y → same_id x y ≡ false → IsBelow id_of x y
  differs-IsBelow x y h e = elim (Bool-cases (text_ord.less x.id y.id)) [
    | inl b ↦ b
    | inr b ↦ cc ((text_ord.same_iff x.id y.id).1 (text_ord.tri x.id y.id b h))
  ]

  unique_loop-IsStrict :
      (last : Chunk Time) (cs : List (Chunk Time))
      → IsSorted id_of (last ∷ cs)
      → IsStrict id_of (last ∷ unique_loop last cs)
  unfolding unique_loop
  unique_loop-IsStrict last [] h = (tt, tt)
  unique_loop-IsStrict last (c ∷ cs) h = elim (Bool-cases (same_id last c)) [
    | inl e ↦ ground (arith, unique_loop-IsStrict last cs (h.0.1, h.1.1))
    | inr e ↦
        let rest = unique_loop-IsStrict c cs h.1 in
        let below = differs-IsBelow last c h.0.0 e in
        ground (arith, rest, below, All-IsBelow_trans id_of last c (unique_loop c cs) below rest.0)
  ]

  -- Of chunks in order of ID one of each ID is left, in strict order.
  pub unique-IsStrict : (cs : List (Chunk Time)) → IsSorted id_of cs → IsStrict id_of (unique cs)
  unfolding unique
  unique-IsStrict [] h = tt
  unique-IsStrict (c ∷ cs) h = unique_loop-IsStrict c cs h

  find-unique_loop :
      (k : Text) (last : Chunk Time) (cs : List (Chunk Time))
      → text_ord.same last.id k ≡ false
      → find id_of k (unique_loop last cs) ≡ find id_of k cs
  unfolding unique_loop
  find-unique_loop k last [] h = refl
  find-unique_loop k last (c ∷ cs) h = ground (
    arith,
    text_ord.same_iff last.id c.id,
    text_ord.same_iff last.id k,
    text_ord.same_iff c.id k,
    find-unique_loop k last cs h,
    find-unique_loop k c cs,
  )

  -- `unique` drops no ID, and keeps the first chunk of each.
  pub find-unique : (k : Text) (cs : List (Chunk Time)) → find id_of k (unique cs) ≡ find id_of k cs
  unfolding unique
  find-unique k [] = refl
  find-unique k (c ∷ cs) = ground (arith, find-unique_loop k c cs)
