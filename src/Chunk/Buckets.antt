-- ===== src/Chunk/Buckets.antt =====
-- chunk/chunk_store.go: `bigBuckets`, the hours that a range of time touches.
use Prim.Native.Nat.{ℕ, zero, suc, ◌+◌, ◌<◌}
use mathlib.Core.Path.{◌≡◌, refl, sym}
use mathlib.Core.List.{List, [], ◌∷◌}
use mathlib.Core.Logic.{◌⊎◌, inl, inr}
use native.Mathlib.Omega.{arith}
use frankenstein.Prelude.{Member}
use frankenstein.Prelude.Int.{ℤ, pos, negsuc, pos_part, neg_part, ◌≤ℤ◌, quotient, next, count_to}

-- The loop from `i`, for a number of rounds.
unfoldable pub hours_from : ℕ → ℤ → List ℤ
hours_from zero i = []
hours_from (suc rounds) i = i ∷ hours_from rounds (next i)

-- The type of times is Prometheus's model.Time, and `unix` its method Unix: whole seconds.
module _ {Time : Type 0} (unix : Time → ℤ) where
  unfoldable pub hour : Time → ℤ
  hour t = quotient (unix t) 3600

  unfoldable pub big_buckets : Time → Time → List ℤ
  big_buckets from through = hours_from (count_to (hour from) (hour through)) (hour from)

≤ℤ-next : (i h : ℤ) → i ≤ℤ h → (i ≡ h) ⊎ (next i ≤ℤ h)
≤ℤ-next (pos zero) (pos zero) le = inl refl
≤ℤ-next (pos a) (pos b) le = ground arith
≤ℤ-next (pos a) (negsuc b) le = absurd (omega arith)
≤ℤ-next (negsuc zero) (pos b) le = ground arith
≤ℤ-next (negsuc (suc a)) (pos b) le = ground arith
≤ℤ-next (negsuc zero) (negsuc b) le = ground arith
≤ℤ-next (negsuc (suc a)) (negsuc b) le = ground arith

next_parts : (i : ℤ) → pos_part (next i) + neg_part i ≡ suc (pos_part i) + neg_part (next i)
next_parts (pos n) = omega arith
next_parts (negsuc zero) = omega arith
next_parts (negsuc (suc n)) = omega arith

-- The loop visits every integer from its start on, for as many as it has rounds.
hours_from-has :
    (rounds : ℕ) (i h : ℤ)
    → i ≤ℤ h
    → pos_part h + neg_part i < rounds + (pos_part i + neg_part h)
    → Member h (hours_from rounds i)
unfolding hours_from
hours_from-has zero i h le lt = absurd (omega arith)
hours_from-has (suc rounds) i h le lt = elim (≤ℤ-next i h le) [
  | inl e ↦ inl (sym e)
  | inr le' ↦ inr (hours_from-has rounds (next i) h le' (omega (arith, next_parts i)))
]

quotient-mono : (a b : ℤ) → a ≤ℤ b → quotient a 3600 ≤ℤ quotient b 3600
quotient-mono (pos a) (pos b) le = omega arith
quotient-mono (pos a) (negsuc b) le = absurd (omega arith)
quotient-mono (negsuc a) (pos b) le = ground arith
quotient-mono (negsuc a) (negsuc b) le = ground arith

≤ℤ-total : (a b : ℤ) → (a ≤ℤ b) ⊎ (b ≤ℤ a)
≤ℤ-total a b = ground arith

module _ {Time : Type 0} (unix : Time → ℤ) where
  big_buckets-has :
      (from through : Time) (h : ℤ)
      → hour unix from ≤ℤ h
      → h ≤ℤ hour unix through
      → Member h (big_buckets unix from through)
  unfolding big_buckets
  big_buckets-has from through h lo hi =
      hours_from-has (count_to (hour unix from) (hour unix through)) (hour unix from) h lo
        (omega arith)

  -- If a chunk's range of time and a query's meet, then some hour is both among the buckets under
  -- which the chunk is indexed and among those in which the query looks.
  pub meeting_ranges_share_bucket :
      (from through start end : Time)
      → unix from ≤ℤ unix through
      → unix start ≤ℤ unix end
      → unix from ≤ℤ unix end
      → unix start ≤ℤ unix through
      → (h : ℤ) × Member h (big_buckets unix from through) × Member h (big_buckets unix start end)
  unfolding hour
  meeting_ranges_share_bucket from through start end a b c d =
      let in_chunk = quotient-mono (unix from) (unix through) a in
      let in_query = quotient-mono (unix start) (unix end) b in
      let left = quotient-mono (unix from) (unix end) c in
      let right = quotient-mono (unix start) (unix through) d in
      elim (≤ℤ-total (hour unix from) (hour unix start)) [
        | inl le ↦ (
          hour unix start,
          big_buckets-has from through (hour unix start) le right,
          big_buckets-has start end (hour unix start) (omega arith) in_query,
        )
        | inr le ↦ (
          hour unix from,
          big_buckets-has from through (hour unix from) (omega arith) in_chunk,
          big_buckets-has start end (hour unix from) le left,
        )
      ]
