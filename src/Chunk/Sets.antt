-- ===== src/Chunk/Sets.antt =====
-- chunk/chunk_store.go: unique, merge and nWayIntersect on lists of chunks in order of ID. An index
-- that only moves forward through a slice is the rest of the list.
pub mod Merge
pub mod Unique
pub mod Intersect
pub mod NWay
use Prim.Native.Nat.{◌/◌}
use mathlib.Core.Option
use frankenstein.Prelude.{
  ℕ, zero, suc, true, false, List, [], ◌∷◌, Option, none, some, take, drop, length,
}
use frankenstein.Chunk.Types.{Chunk, id_less, same_id}

module _ {Time : Type 0} where
  -- The loop of `unique`: `last` is result[i], the list is cs[j:].
  unfoldable pub unique_loop : Chunk Time → List (Chunk Time) → List (Chunk Time)
  unique_loop last [] = []
  unique_loop last (c ∷ cs) = elim (same_id last c) [
    | true ↦ unique_loop last cs
    | false ↦ c ∷ unique_loop c cs
  ]

  unfoldable pub unique : List (Chunk Time) → List (Chunk Time)
  unfolding unique_loop
  unique [] = []
  unique (c ∷ cs) = c ∷ unique_loop c cs

  unfoldable pub merge : List (Chunk Time) → List (Chunk Time) → List (Chunk Time)
  merge [] b = b
  merge (x ∷ a) [] = x ∷ a
  merge (x ∷ a) (y ∷ b) = elim (id_less x y) [
    | true ↦ x ∷ merge a (y ∷ b)
    | false ↦ elim (id_less y x) [ true ↦ y ∷ merge (x ∷ a) b | false ↦ x ∷ merge a b ]
  ]

  -- The case of two sets.
  unfoldable pub intersect : List (Chunk Time) → List (Chunk Time) → List (Chunk Time)
  intersect [] right = []
  intersect (x ∷ left) [] = []
  intersect (x ∷ left) (y ∷ right) =
      let rest : List (Chunk Time) = elim (id_less x y) [
        | true ↦ intersect left (y ∷ right)
        | false ↦ intersect (x ∷ left) right
      ] in
      elim (same_id x y) [ true ↦ x ∷ rest | false ↦ rest ]

  -- The recursion splits the sets in half, and ends with the two results. `none`: out of fuel.
  unfoldable pub n_way : ℕ → List (List (Chunk Time)) → Option (List (Chunk Time))
  n_way zero sets = none
  n_way (suc fuel) [] = some []
  n_way (suc fuel) (set ∷ []) = some set
  n_way (suc fuel) (left ∷ right ∷ []) = some (intersect left right)
  n_way (suc fuel) (a ∷ b ∷ c ∷ rest) =
      let sets = a ∷ b ∷ c ∷ rest in
      let split = length sets / 2 in
      Option.bind (n_way fuel (take split sets))
        λ left. Option.bind (n_way fuel (drop split sets)) λ right. n_way fuel (left ∷ right ∷ [])

  unfoldable pub n_way_intersect : List (List (Chunk Time)) → Option (List (Chunk Time))
  n_way_intersect sets = n_way (suc (length sets)) sets
