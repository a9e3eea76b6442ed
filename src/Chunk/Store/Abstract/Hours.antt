-- ===== src/Chunk/Store/Abstract/Hours.antt =====
-- An hour is at most once among the hours of a chunk, and a label at most once in a metric.
use Prim.Native.Nat.{ℕ, zero, suc, ◌≤◌}
use mathlib.Core.Path.{◌≡◌, refl, ◌∙◌, subst}
use mathlib.Core.List.{[], ◌∷◌}
use mathlib.Core.Logic.{inl, inr}
use mathlib.Core.Option.{Option, some}
use native.Mathlib.Omega.{arith}
use frankenstein.Prelude.{true, false, if◌then◌else◌, ltb, Bool-cases}
use frankenstein.Prelude.Int.{ℤ, ◌≤ℤ◌, same_ℤ, next}
use frankenstein.Prelude.Order.{text_ord}
use frankenstein.Model.{Metric, LabelMatcher}
use frankenstein.Wire.RoundTrip.{IsMap, Lacks}
use frankenstein.Chunk.Buckets.{hours_from, big_buckets}
use frankenstein.Chunk.Store.{Deps}
use frankenstein.Chunk.Store.Abstract.{has_hour, passes, count_labels, any_label}
use frankenstein.Chunk.Store.Abstract.Entries.{per_hour}

next-≤ : (h i : ℤ) → next h ≤ℤ i → next h ≤ℤ next i
next-≤ h i le = ground arith

same_next : (h i : ℤ) → next h ≤ℤ i → same_ℤ i h ≡ false
same_next h i le = ground arith

next_of_same : (i h : ℤ) → same_ℤ i h ≡ true → next h ≤ℤ next i
next_of_same i h e = ground arith

-- Hours after one do not have it.
per_hour-later :
    (h : ℤ) (n rounds : ℕ) (i : ℤ) → next h ≤ℤ i → per_hour h n (hours_from rounds i) ≡ 0
unfolding hours_from
per_hour-later h n zero i le = refl
per_hour-later h n (suc rounds) i le =
    rw (same_next h i le, per_hour-later h n rounds (next i) (next-≤ h i le)) refl

per_hour-from :
    (h : ℤ) (n rounds : ℕ) (i : ℤ)
    → per_hour h n (hours_from rounds i) ≡ (if has_hour h (hours_from rounds i) then n else 0)
unfolding hours_from
per_hour-from h n zero i = refl
per_hour-from h n (suc rounds) i = elim (Bool-cases (same_ℤ i h)) [
  | inl e ↦ rw (e, per_hour-later h n rounds (next i) (next_of_same i h e)) (ground arith)
  | inr e ↦ rw e (ground (arith, per_hour-from h n rounds (next i)))
]

pub per_hour-big_buckets :
    {Time : Type 0} (unix : Time → ℤ) (from through : Time) (h : ℤ) (n : ℕ)
    → per_hour h n (big_buckets unix from through)
      ≡ (if has_hour h (big_buckets unix from through) then n else 0)
unfolding big_buckets
per_hour-big_buckets unix from through h n = per_hour-from h n _ _

module _ {Time W : Type 0} (deps : Deps Time W) where
  pub any_label-count :
      (matcher : Option LabelMatcher) (metric : Metric)
      → any_label deps matcher metric ≡ ltb 0 (count_labels deps matcher metric)
  any_label-count matcher [] = ground arith
  any_label-count matcher ((k, v) ∷ metric) = elim (Bool-cases (passes deps matcher k v)) [
    | inl e ↦ rw e (ground arith)
    | inr e ↦ rw e (any_label-count matcher metric ∙ ground arith)
  ]

  count_lacking :
      (m : LabelMatcher) (metric : Metric)
      → Lacks m.name metric
      → count_labels deps (some m) metric ≡ 0
  count_lacking m [] h = refl
  count_lacking m ((k, v) ∷ metric) h = rw (h.0, count_lacking m metric h.1) (ground arith)

  -- A matcher accepts at most one label of a metric.
  pub count_labels-≤ :
      (m : LabelMatcher) (metric : Metric) → IsMap metric → count_labels deps (some m) metric ≤ 1
  count_labels-≤ m [] h = omega arith
  count_labels-≤ m ((k, v) ∷ metric) h = elim (Bool-cases (text_ord.same k m.name)) [
    | inl e ↦ ground (arith, lacking ((text_ord.same_iff k m.name).0 e))
    | inr e ↦ rw e (ground (arith, count_labels-≤ m metric h.1))
  ]
    where
      lacking : k ≡ m.name → count_labels deps (some m) metric ≡ 0
      lacking e = count_lacking m metric (subst (λ j. Lacks j metric) e h.0)
