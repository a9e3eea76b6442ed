-- ===== src/Chunk/Sets/NWay.antt =====
-- `nWayIntersect` of any number of sets of chunks in order of ID.
use mathlib.Core.Path.{subst}
use mathlib.Core.Option
use frankenstein.Prelude.{
  ℕ, zero, suc, ◌/◌, ◌<◌, ◌≡◌, refl, sym, ap, ◌∙◌, List, [], ◌∷◌, ◌++◌, Option, some, arith, All,
  take, drop, length, length-take, length-drop, take-append-drop,
}
use frankenstein.Prelude.Order.{Text, text_ord}
use frankenstein.Prelude.Sort.{IsStrict, find}
use frankenstein.Chunk.Types.{Chunk, id_of}
use frankenstein.Chunk.Sets.{intersect, n_way, n_way_intersect}
use frankenstein.Chunk.Sets.Intersect.{intersect-IsStrict, find-intersect, common, common-append}

module _ {Time : Type 0} where
  All-take {ℓ} :
      (P : List (Chunk Time) → Type ℓ) (n : ℕ) (xs : List (List (Chunk Time)))
      → All P xs
      → All P (take n xs)
  All-take P zero xs h = tt
  All-take P (suc n) [] h = tt
  All-take P (suc n) (x ∷ xs) h = (h.0, All-take P n xs h.1)

  All-drop {ℓ} :
      (P : List (Chunk Time) → Type ℓ) (n : ℕ) (xs : List (List (Chunk Time)))
      → All P xs
      → All P (drop n xs)
  All-drop P zero xs h = h
  All-drop P (suc n) [] h = tt
  All-drop P (suc n) (x ∷ xs) h = All-drop P n xs h.1

  -- What `nWayIntersect` promises of its result.
  pub record IsIntersection (sets : List (List (Chunk Time))) (r : List (Chunk Time)) : Type 0 where
    pub strict : IsStrict id_of r
    pub members : (k : Text) → find id_of k r ≡ common k sets

  abbrev pub Returns : Option (List (Chunk Time)) → List (List (Chunk Time)) → Type 0
  Returns o sets = (r : List (Chunk Time)) × (o ≡ some r) × IsIntersection sets r

  Returns-two :
      (fuel : ℕ) (xs ys : List (List (Chunk Time)))
      → 0 < length xs
      → 0 < length ys
      → Returns (n_way (suc fuel) xs) xs
      → Returns (n_way (suc fuel) ys) ys
      → Returns
          (Option.bind
            (n_way (suc fuel) xs)
            λ l. Option.bind (n_way (suc fuel) ys) λ r. n_way (suc fuel) (l ∷ r ∷ []))
          (xs ++ ys)
  unfolding n_way Option.bind
  Returns-two fuel xs ys h g (l, el, il) (r, er, ir) = (
    intersect l r,
    ap
          (λ o.
            Option.bind o λ a. Option.bind (n_way (suc fuel) ys) λ b. n_way (suc fuel) (a ∷ b ∷ []))
          el
        ∙ ap (λ o. Option.bind o λ b. n_way (suc fuel) (l ∷ b ∷ [])) er,
    record {
      strict = intersect-IsStrict l r ir.strict;
      members = λ k.
          find-intersect k l r il.strict ir.strict
          ∙ cc (il.members k, ir.members k)
          ∙ sym (common-append k xs ys h g);
    },
  )

  n_way-Returns :
      (fuel : ℕ) (sets : List (List (Chunk Time)))
      → length sets < fuel
      → All (IsStrict id_of) sets
      → Returns (n_way fuel sets) sets
  unfolding n_way
  n_way-Returns zero sets h s = absurd (omega arith)
  n_way-Returns (suc fuel) [] h s = ([], refl, record { strict = tt; members = λ k. refl })
  n_way-Returns (suc fuel) (set ∷ []) h s =
      (set, refl, record { strict = s.0; members = λ k. refl })
  n_way-Returns (suc fuel) (left ∷ right ∷ []) h s = (
    intersect left right,
    refl,
    record {
      strict = intersect-IsStrict left right s.1.0;
      members = λ k. find-intersect k left right s.0 s.1.0;
    },
  )
  n_way-Returns (suc zero) (a ∷ b ∷ c ∷ rest) h s = absurd (omega arith)
  n_way-Returns (suc (suc fuel)) (a ∷ b ∷ c ∷ rest) h s =
      let sets = a ∷ b ∷ c ∷ rest in
      let n = length sets / 2 in
      subst (Returns _) (take-append-drop n sets) (
        Returns-two fuel (take n sets) (drop n sets) (omega (arith, length-take n sets))
          (omega (arith, length-drop n sets))
          (n_way-Returns (suc fuel) (take n sets) (omega (arith, length-take n sets))
            (All-take _ n sets s))
          (n_way-Returns (suc fuel) (drop n sets) (omega (arith, length-drop n sets))
            (All-drop _ n sets s)))

  -- For sets in strict order the recursion ends, and gives the set of the IDs that all sets have, in
  -- strict order, with the chunks of the first set; no sets give the empty one.
  pub n_way_intersect-Returns :
      (sets : List (List (Chunk Time)))
      → All (IsStrict id_of) sets
      → Returns (n_way_intersect sets) sets
  unfolding n_way_intersect
  n_way_intersect-Returns sets s = n_way-Returns (suc (length sets)) sets (omega arith) s
