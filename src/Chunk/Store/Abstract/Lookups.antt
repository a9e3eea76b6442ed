-- ===== src/Chunk/Store/Abstract/Lookups.antt =====
-- chunk/chunk_store.go: the lookups of one hour, against the abstract view of the index.
use mathlib.Core.Path.{subst}
use mathlib.Core.List.{Permᴰ}
use frankenstein.Prelude.{
  ℕ, ◌≤◌, ◌≡◌, refl, sym, ap, ◌∙◌, inl, inr, Bool, true, List, [], ◌∷◌, map, Option, none, some,
  arith, Bool-cases, All,
}
use frankenstein.Prelude.Int.{ℤ}
use frankenstein.Prelude.Order.{Text, text_ord}
use frankenstein.Prelude.Dict.{lookup}
use frankenstein.Prelude.Keyed.{IsDistinct, IsDistinct-tail, sorted_distinct-IsStrict}
use frankenstein.Prelude.Distinct.{sorted_unique, absent_of_same}
use frankenstein.Prelude.Result.{ok}
use frankenstein.Model.{LabelMatcher, metric_name_label}
use frankenstein.Wire.RoundTrip.{IsMap}
use frankenstein.Chunk.Types.{Chunk, id_of}
use frankenstein.Chunk.Sets.Unique.{unique-IsStrict, find-unique}
use frankenstein.Chunk.Store.{Deps, WriteRequest, Item, QueryInput, Pages, stored, hash_value}
use frankenstein.Chunk.Store.Index.{calculate_dynamo_writes}
use frankenstein.Chunk.Store.Query.{
  range_bounds, lookup_chunks_for_metric_name, lookup_chunks_for_matcher,
}
use frankenstein.Chunk.Store.Abstract.{
  is_hit, answer, count_labels, selected, all_shown, Decodes, Includes,
}
use frankenstein.Chunk.Store.Abstract.Filed.{IsReadable, weigh, weight, weight_of, HasPlainTexts}
use frankenstein.Chunk.Store.Abstract.Hours.{per_hour-big_buckets, count_labels-≤}
use frankenstein.Chunk.Store.Abstract.Answers.{find-answer, answer-IsDistinct, weigh-absent}
use frankenstein.Chunk.Store.Abstract.Hash.{HasNoColon, same-hash_value}
use frankenstein.Chunk.Store.Abstract.Refines.{find-page, count_key-page, query-page}

module _ {Time W : Type 0} (deps : Deps Time W) (asked : Text) (hour : ℤ) (m : LabelMatcher) where
  -- A query with a matcher sees at most one entry of a chunk.
  weight-≤ : (c : Chunk Time) → IsMap c.metric → weight deps asked hour (some m) c ≤ 1
  weight-≤ c h = by_name (lookup metric_name_label c.metric)
    where
      by_name : (o : Option Text) → weight_of deps asked hour (some m) c o ≤ 1
      by_name none = omega arith
      by_name (some name) =
          rw
            (per_hour-big_buckets deps.unix c.from c.through hour
              (count_labels deps (some m) c.metric))
            (ground (arith, count_labels-≤ deps m c.metric h))

  weigh-≤ :
      (k : Text) (cs : List (Chunk Time))
      → All (λ c. IsMap c.metric) cs
      → IsDistinct id_of cs
      → weigh deps asked hour (some m) k cs ≤ 1
  weigh-≤ k [] h d = omega arith
  weigh-≤ k (c ∷ cs) h d = elim (Bool-cases (text_ord.same c.id k)) [
    | inl e ↦
        rw (e, weigh-absent deps asked hour (some m) k cs (absent_of_same id_of k c cs d e))
          (ground (arith, weight-≤ c h.0))
    | inr e ↦ rw e (ground (arith, weigh-≤ k cs h.1 (IsDistinct-tail id_of c cs d)))
  ]

-- What a matcher's bounds of the range must do: include every label that it accepts.
abbrev pub Fits : {Time W : Type 0} → Deps Time W → LabelMatcher → Type 0
Fits deps m =
    (bounds : List ℕ × List ℕ) × (range_bounds deps m ≡ ok bounds)
    × Includes deps (some bounds) (some m)

module _ {Time W : Type 0} (deps : Deps Time W) (decodes : Decodes deps)
    (shows : (i h : ℤ) → deps.show_int i ≡ deps.show_int h → i ≡ h)
    (plain : (i : ℤ) → HasNoColon (deps.show_int i)) (user_id : Text) (cs : List (Chunk Time))
    (db : List WriteRequest) (readable : All (IsReadable deps) cs)
    (plain_texts : All HasPlainTexts cs) (distinct : IsDistinct id_of cs)
    (maps : All (λ c. IsMap c.metric) cs)
    (indexed : calculate_dynamo_writes deps user_id cs ≡ ok db) (w : W)
    (page : QueryInput → List WriteRequest)
    (paged : (input : QueryInput) → Permᴰ (page input) (selected input db))
    (answers : (input : QueryInput) (fn : List Item → Bool → Pages Time → Pages Time × Bool)
        (s : Pages Time)
      → deps.query_pages input fn s w ≡ ((fn (map stored (page input)) true s).0, none))
    (asked : Text) (hour : ℤ) where
  abbrev named : QueryInput
  named = record { hash_value = hash_value deps user_id hour asked; range = none }

  pub lookup_chunks_for_metric_name-answer :
      lookup_chunks_for_metric_name deps w user_id hour asked
      ≡ ok (deps.sorter.sort (answer (is_hit deps asked hour none) cs))
  unfolding lookup_chunks_for_metric_name
  lookup_chunks_for_metric_name-answer =
      rw
        (query-page deps decodes user_id asked hour none named (λ k v id p q r h. refl) refl
          (λ i n. same-hash_value deps shows plain user_id i hour n asked) cs db readable
          plain_texts distinct indexed (page named) (paged named) w (answers named))
        (ap ok (
          sorted_unique id_of deps.sorter (answer (is_hit deps asked hour none) cs) _
            (answer-IsDistinct _ cs distinct)
            (unique-IsStrict _ (deps.sorter.sort-IsSorted (all_shown deps none (page named))))
            λ k.
              find-unique k (deps.sorter.sort (all_shown deps none (page named)))
              ∙ find-page deps decodes user_id asked hour none named (λ k v id p q r h. refl) refl
                  (λ i n. same-hash_value deps shows plain user_id i hour n asked) cs db readable
                  plain_texts distinct indexed (page named) (paged named) k
              ∙ sym (find-answer k (is_hit deps asked hour none) cs distinct)))

  module _ (m : LabelMatcher) (fits : Fits deps m) where
    abbrev ranged : QueryInput
    ranged = record { hash_value = hash_value deps user_id hour asked; range = some fits.0 }

    abbrev shown_here : List (Chunk Time)
    shown_here = deps.sorter.sort (all_shown deps (some m) (page ranged))

    shown-IsDistinct : IsDistinct id_of shown_here
    shown-IsDistinct k =
        subst (λ n. n ≤ 1)
          (sym (
            count_key-page deps decodes user_id asked hour (some m) ranged fits.2 refl
              (λ i n. same-hash_value deps shows plain user_id i hour n asked) cs db readable
              plain_texts distinct indexed (page ranged) (paged ranged) k))
          (weigh-≤ deps asked hour m k cs maps distinct)

    pub lookup_chunks_for_matcher-answer :
        lookup_chunks_for_matcher deps w user_id hour asked m
        ≡ ok (deps.sorter.sort (answer (is_hit deps asked hour (some m)) cs))
    unfolding lookup_chunks_for_matcher
    lookup_chunks_for_matcher-answer = rw fits.1 (
        query-page deps decodes user_id asked hour (some m) ranged fits.2 refl
          (λ i n. same-hash_value deps shows plain user_id i hour n asked) cs db readable
          plain_texts distinct indexed (page ranged) (paged ranged) w (answers ranged)
        ∙ ap ok (
            sorted_unique id_of deps.sorter (answer (is_hit deps asked hour (some m)) cs) shown_here
              (answer-IsDistinct _ cs distinct)
              (sorted_distinct-IsStrict id_of shown_here (deps.sorter.sort-IsSorted _)
                shown-IsDistinct)
              λ k.
                find-page deps decodes user_id asked hour (some m) ranged fits.2 refl
                  (λ i n. same-hash_value deps shows plain user_id i hour n asked) cs db readable
                  plain_texts distinct indexed (page ranged) (paged ranged) k
                ∙ sym (find-answer k (is_hit deps asked hour (some m)) cs distinct)))
