-- ===== src/Chunk/Store/Abstract/Answers.antt =====
-- The answer to a question: the chunks that match, found by their IDs.
use frankenstein.Prelude.Distinct.{
  absent_of_same, find-map, map-IsDistinct, passing, passing-IsDistinct, find-passing, kept_if,
}
use mathlib.Core.Option
use frankenstein.Prelude.{
  ◌≡◌, refl, inl, inr, Bool, false, ◌&&◌, List, [], ◌∷◌, Option, none, some, if◌then◌else◌, arith,
  ltb, Bool-cases, ◌∙◌, ap,
}
use frankenstein.Prelude.Int.{ℤ}
use frankenstein.Prelude.Order.{Text, text_ord}
use frankenstein.Prelude.Sort.{find}
use frankenstein.Prelude.Dict.{lookup}
use frankenstein.Prelude.Keyed.{count_key, IsDistinct, IsDistinct-tail}
use frankenstein.Model.{LabelMatcher, metric_name_label}
use frankenstein.Chunk.Types.{Chunk, id_of}
use frankenstein.Chunk.Buckets.{big_buckets}
use frankenstein.Chunk.Store.{Deps}
use frankenstein.Chunk.Store.Abstract.{bare, is_hit, answer, has_hour, count_labels, any_label}
use frankenstein.Chunk.Store.Abstract.Filed.{weigh, weight, weight_of}
use frankenstein.Chunk.Store.Abstract.Hours.{per_hour-big_buckets, any_label-count}

module _ {Time : Type 0} where
  -- What a test makes of a chunk that is found.
  abbrev pub gated : (Chunk Time → Bool) → Option (Chunk Time) → Option (Chunk Time)
  gated p none = none
  gated p (some c) = if p c then some (bare c) else none

  pub answer-IsDistinct :
      (p : Chunk Time → Bool) (cs : List (Chunk Time))
      → IsDistinct id_of cs
      → IsDistinct id_of (answer p cs)
  answer-IsDistinct p cs h =
      map-IsDistinct id_of bare (λ c. refl) (passing id_of p cs) (passing-IsDistinct id_of p cs h)

  gated-kept_if :
      (p : Chunk Time → Bool) (o : Option (Chunk Time))
      → Option.map bare (kept_if id_of p o) ≡ gated p o
  gated-kept_if p none = refl
  gated-kept_if p (some c) = elim (Bool-cases (p c)) [ inl e ↦ rw e refl | inr e ↦ rw e refl ]

  pub find-answer :
      (k : Text) (p : Chunk Time → Bool) (cs : List (Chunk Time))
      → IsDistinct id_of cs
      → find id_of k (answer p cs) ≡ gated p (find id_of k cs)
  find-answer k p cs h =
      find-map id_of bare (λ c. refl) k (passing id_of p cs)
      ∙ ap (Option.map bare) (find-passing id_of k p cs h)
      ∙ gated-kept_if p (find id_of k cs)

module _ {Time W : Type 0} (deps : Deps Time W) (asked : Text) (hour : ℤ)
    (matcher : Option LabelMatcher) where
  -- A query sees an entry of a chunk just when the chunk is a hit.
  weight-is_hit :
      (c : Chunk Time) → ltb 0 (weight deps asked hour matcher c) ≡ is_hit deps asked hour matcher c
  weight-is_hit c = by_name (lookup metric_name_label c.metric)
    where
      by_name :
          (o : Option Text)
          → ltb 0 (weight_of deps asked hour matcher c o) ≡ (
              elim o [ none ↦ false | some n ↦ text_ord.same n asked ]
              && (has_hour hour (big_buckets deps.unix c.from c.through)
                  && any_label deps matcher c.metric))
      by_name none = ground arith
      by_name (some name) =
          rw
            (
              per_hour-big_buckets deps.unix c.from c.through hour
                  (count_labels deps matcher c.metric),
              any_label-count deps matcher c.metric,
            )
            (ground arith)

  pub weigh-absent :
      (k : Text) (cs : List (Chunk Time))
      → count_key id_of k cs ≡ 0
      → weigh deps asked hour matcher k cs ≡ 0
  unfolding count_key
  weigh-absent k [] h = refl
  weigh-absent k (c ∷ cs) h = elim (Bool-cases (text_ord.same c.id k)) [
    | inl e ↦ ground (arith, h, e)
    | inr e ↦ rw e (ground (arith, h, e, weigh-absent k cs))
  ]

  abbrev pub hit_of : Option (Chunk Time) → Bool
  hit_of none = false
  hit_of (some c) = is_hit deps asked hour matcher c

  pub weigh-find :
      (k : Text) (cs : List (Chunk Time))
      → IsDistinct id_of cs
      → ltb 0 (weigh deps asked hour matcher k cs) ≡ hit_of (find id_of k cs)
  weigh-find k [] h = ground arith
  weigh-find k (c ∷ cs) h = elim (Bool-cases (text_ord.same c.id k)) [
    | inl e ↦
        rw (e, weigh-absent k cs (absent_of_same id_of k c cs h e))
          (ground (arith, weight-is_hit c))
    | inr e ↦ rw e (ground (arith, weigh-find k cs (IsDistinct-tail id_of c cs h)))
  ]
