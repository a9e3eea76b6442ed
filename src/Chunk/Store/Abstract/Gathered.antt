-- ===== src/Chunk/Store/Abstract/Gathered.antt =====
-- chunk/chunk_store.go: the loops that gather the sets of the lookups, on views of a list of chunks:
-- the chunks that pass a test, in order of ID.
use mathlib.Core.List.{append_assoc, append-nil}
use frankenstein.Prelude.{
  ◌≡◌, refl, sym, ap, ◌∙◌, Bool, true, false, ◌&&◌, ◌||◌, List, [], ◌∷◌, ◌++◌, map, Option, none,
  some, if◌then◌else◌, arith, All, or_else,
}
use frankenstein.Prelude.Order.{Text, text_ord}
use frankenstein.Prelude.Sort.{find, IsStrict}
use frankenstein.Prelude.Keyed.{IsDistinct}
use frankenstein.Prelude.Distinct.{find-perm, sort-IsStrict, sorted_unique}
use frankenstein.Prelude.Gather.{all_of, any_of}
use frankenstein.Prelude.Result.{Result, ok}
use frankenstein.Chunk.Types.{Chunk, id_of}
use frankenstein.Chunk.Sets.{merge}
use frankenstein.Chunk.Sets.Intersect.{common, both}
use frankenstein.Chunk.Sets.Merge.{merge-IsStrict, find-merge}
use frankenstein.Chunk.Store.{Deps}
use frankenstein.Chunk.Store.Query.{gather_sets, gather_merged}
use frankenstein.Chunk.Store.Abstract.{bare, answer}
use frankenstein.Chunk.Store.Abstract.Answers.{gated, find-answer, answer-IsDistinct}

pub map-ext {ℓ κ} :
    {A : Type ℓ} {B : Type κ} (f g : A → B) (xs : List A)
    → All (λ x. f x ≡ g x) xs
    → map f xs ≡ map g xs
map-ext f g [] h = refl
map-ext f g (x ∷ xs) h = cc (h.0, map-ext f g xs h.1)

module _ {Time : Type 0} where
  pub gated-ext :
      (p q : Chunk Time → Bool) (o : Option (Chunk Time))
      → ((c : Chunk Time) → p c ≡ q c)
      → gated p o ≡ gated q o
  gated-ext p q none h = refl
  gated-ext p q (some c) h = ap (λ b. if b then some (bare c) else none) (h c)

  both-gated :
      (p q : Chunk Time → Bool) (o : Option (Chunk Time))
      → both (gated p o) (gated q o) ≡ gated (λ c. p c && q c) o
  both-gated p q none = refl
  both-gated p q (some c) = ground arith

  or_else-gated :
      (p q : Chunk Time → Bool) (a o : Option (Chunk Time))
      → or_else (or_else a (gated p o)) (gated q o) ≡ or_else a (gated (λ c. p c || q c) o)
  or_else-gated p q none none = refl
  or_else-gated p q (some x) o = refl
  or_else-gated p q none (some c) = ground arith

module _ {Time W : Type 0} (deps : Deps Time W) (cs : List (Chunk Time)) where
  -- The chunks that pass a test, as a lookup returns them.
  abbrev pub view : (Chunk Time → Bool) → List (Chunk Time)
  view p = deps.sorter.sort (answer p cs)

  module _ (distinct : IsDistinct id_of cs) where
    pub view-IsStrict : (p : Chunk Time → Bool) → IsStrict id_of (view p)
    view-IsStrict p =
        sort-IsStrict id_of deps.sorter (answer p cs) (answer-IsDistinct p cs distinct)

    pub find-view :
        (k : Text) (p : Chunk Time → Bool) → find id_of k (view p) ≡ gated p (find id_of k cs)
    find-view k p =
        find-perm id_of k (answer-IsDistinct p cs distinct) (deps.sorter.sort-perm (answer p cs))
        ∙ find-answer k p cs distinct

    -- A list in strict order in which the same is found is the view.
    pub view_unique :
        (p : Chunk Time → Bool) (r : List (Chunk Time))
        → IsStrict id_of r
        → ((k : Text) → find id_of k r ≡ gated p (find id_of k cs))
        → r ≡ view p
    view_unique p r s h =
        sorted_unique id_of deps.sorter (answer p cs) r (answer-IsDistinct p cs distinct) s
          λ k. h k ∙ sym (find-answer k p cs distinct)

    module _ {Q : Type 0} (test : Q → Chunk Time → Bool) where
      pub views-IsStrict : (qs : List Q) → All (IsStrict id_of) (map (λ q. view (test q)) qs)
      views-IsStrict [] = tt
      views-IsStrict (q ∷ qs) = (view-IsStrict (test q), views-IsStrict qs)

      pub common-views :
          (k : Text) (q : Q) (qs : List Q)
          → common k (map (λ q. view (test q)) (q ∷ qs))
            ≡ gated (λ c. all_of (λ q. test q c) (q ∷ qs)) (find id_of k cs)
      common-views k q [] =
          find-view k (test q)
          ∙ gated-ext (test q) (λ c. test q c && true) (find id_of k cs) (λ c. ground arith)
      common-views k q (r ∷ qs) =
          rw (find-view k (test q), common-views k r qs)
            (both-gated (test q) (λ c. all_of (λ q. test q c) (r ∷ qs)) (find id_of k cs))

      pub gather_sets-views :
          (qs : List Q) (sets : List (List (Chunk Time)))
          → gather_sets deps (map (λ q. ok (view (test q))) qs) sets none
            ≡ (sets ++ map (λ q. view (test q)) qs, none)
      unfolding gather_sets
      gather_sets-views [] sets = ap (λ xs. (xs, none)) (sym (append-nil sets))
      gather_sets-views (q ∷ qs) sets =
          gather_sets-views qs (sets ++ view (test q) ∷ [])
          ∙ ap (λ xs. (xs, none))
              (append_assoc sets (view (test q) ∷ []) (map (λ q. view (test q)) qs))

      pub gather_merged-views :
          (arrival : List (Result (List (Chunk Time))) → List (Result (List (Chunk Time))))
          (qs : List Q) (chunks : List (Chunk Time))
          → IsStrict id_of chunks
          → (r : List (Chunk Time)) × (gather_merged deps arrival
                (map (λ q. ok (view (test q))) qs)
                chunks
                none
              ≡ (r, none))
            × IsStrict id_of r
            × ((k : Text)
                → find id_of k r
                  ≡ or_else
                      (find id_of k chunks)
                      (gated (λ c. any_of (λ q. test q c) qs) (find id_of k cs)))
      unfolding gather_merged
      gather_merged-views arrival [] chunks s =
          (chunks, refl, s, λ k. nothing_more (find id_of k chunks) (find id_of k cs))
        where
          nothing_more : (a o : Option (Chunk Time)) → a ≡ or_else a (gated (λ c. false) o)
          nothing_more none none = refl
          nothing_more none (some c) = refl
          nothing_more (some x) o = refl
      gather_merged-views arrival (q ∷ qs) chunks s =
          let (r, e, strict, finds) =
            gather_merged-views arrival qs (merge chunks (view (test q)))
              (merge-IsStrict chunks (view (test q)) s (view-IsStrict (test q))) in
          (
            r,
            e,
            strict,
            λ k.
                finds k
                ∙ rw (find-merge k chunks (view (test q)) s, find-view k (test q))
                    (or_else-gated (test q) (λ c. any_of (λ q. test q c) qs) (find id_of k chunks)
                      (find id_of k cs)),
          )
