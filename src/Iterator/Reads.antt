-- ===== src/Iterator/Reads.antt =====
-- The two reads of a stream, by the samples that they are about.
use frankenstein.Prelude.{
  ℕ, zero, suc, ◌-◌, ◌<◌, ◌≡◌, refl, sym, ◌∙◌, Bool, true, false, inl, inr, List, [], ◌∷◌, arith,
  All, Bool-cases, ◌==◌, if◌then◌else◌, length, get_or, drop, take, ◌&&◌, ◌≤◌, All-map, not, ap,
}
use frankenstein.Prelude.Int.{ℤ, int_ord, less_ℤ}
use frankenstein.Prelude.Sort.{IsSorted}
use frankenstein.Prelude.Search.{IsMonotone, search_index-Splits, position, Splits-position}
use frankenstein.Model.{SamplePair, SampleStream}
use frankenstein.Iterator.{
  is_after, is_not_before, zero_pair, search_values, value_at_or_before_time, Interval, drop, take,
  not, range_values, ok,
}

abbrev pub time_of : SamplePair → ℤ
time_of s = s.timestamp

-- A test that, once it holds, holds at all later times.
abbrev Upward : (SamplePair → Bool) → Type 0
Upward test =
    (a b : SamplePair) → less_ℤ b.timestamp a.timestamp ≡ false → test a ≡ true → test b ≡ true

All-get_or :
    (P : SamplePair → Type 0) (xs : List SamplePair) (i : ℕ)
    → i < length xs
    → All P xs
    → P (get_or xs i zero_pair)
All-get_or P [] i h a = absurd (omega arith)
All-get_or P (x ∷ xs) zero h a = a.0
All-get_or P (x ∷ xs) (suc i) h a = All-get_or P xs i (omega arith) a.1

values-IsMonotone :
    (test : SamplePair → Bool) (xs : List SamplePair)
    → Upward test
    → IsSorted time_of xs
    → IsMonotone (length xs) (λ n. test (get_or xs n zero_pair))
values-IsMonotone test [] up s x y le lt e = absurd (omega arith)
values-IsMonotone test (v ∷ vs) up s zero zero le lt e = e
values-IsMonotone test (v ∷ vs) up s zero (suc y) le lt e =
    up v _ (All-get_or _ vs y (omega arith) s.0) e
values-IsMonotone test (v ∷ vs) up s (suc x) zero le lt e = absurd (omega arith)
values-IsMonotone test (v ∷ vs) up s (suc x) (suc y) le lt e =
    values-IsMonotone test vs up s.1 x y (omega arith) (omega arith) e

search_values-position :
    (test : SamplePair → Bool) (xs : List SamplePair)
    → Upward test
    → IsSorted time_of xs
    → search_values test xs ≡ position test xs
search_values-position test xs up s =
    Splits-position test zero_pair xs _
      (search_index-Splits (length xs) _ (values-IsMonotone test xs up s))

after-Upward : (ts : ℤ) → Upward (is_after ts)
after-Upward ts a b le h = ground arith

not_before-Upward : (ts : ℤ) → Upward (is_not_before ts)
not_before-Upward ts a b le h = ground arith

-- The last sample that is not after a time, by a scan; `last` if there is none.
abbrev pub last_until : ℤ → SamplePair → List SamplePair → SamplePair
last_until ts last [] = last
last_until ts last (v ∷ vs) = if is_after ts v then last else last_until ts v vs

before_position :
    (ts : ℤ) (last : SamplePair) (xs : List SamplePair)
    → last_until ts last xs ≡ (
        if position (is_after ts) xs == 0
        then last
        else get_or xs (position (is_after ts) xs - 1) zero_pair)
before_position ts last [] = refl
before_position ts last (v ∷ vs) = elim (Bool-cases (is_after ts v)) [
  | inl e ↦ rw e refl
  | inr e ↦ rw e (before_position ts v vs ∙ step (position (is_after ts) vs))
]
  where
    step :
        (p : ℕ)
        → (if p == 0 then v else get_or vs (p - 1) zero_pair)
          ≡ (if suc p == 0 then last else get_or (v ∷ vs) (suc p - 1) zero_pair)
    step zero = refl
    step (suc p) = ground arith

-- In a stream in order of time, the binary search gives the last sample that is not after the time,
-- and the earliest time with a zero value if all samples are after it.
pub value_at_or_before_time_lem :
    (earliest : ℤ) (ss : SampleStream) (ts : ℤ)
    → IsSorted time_of ss.values
    → value_at_or_before_time earliest ss ts
      ≡ last_until ts (record { timestamp = earliest; value = 0 }) ss.values
unfolding value_at_or_before_time
value_at_or_before_time_lem earliest ss ts s =
    rw (search_values-position (is_after ts) ss.values (after-Upward ts) s)
      (sym (before_position ts (record { timestamp = earliest; value = 0 }) ss.values))

-- A sample lies in an interval, both ends counted.
abbrev pub lies_in : Interval → SamplePair → Bool
lies_in i s = is_not_before i.oldest_inclusive s && not (is_after i.newest_inclusive s)

abbrev pub samples_in : Interval → List SamplePair → List SamplePair
samples_in i [] = []
samples_in i (v ∷ vs) = if lies_in i v then v ∷ samples_in i vs else samples_in i vs

module _ (i : Interval) where
  abbrev starts : SamplePair → Bool
  starts = is_not_before i.oldest_inclusive

  abbrev stops : SamplePair → Bool
  stops = is_after i.newest_inclusive

  samples_in_none : (vs : List SamplePair) → All (λ v. stops v ≡ true) vs → samples_in i vs ≡ []
  samples_in_none [] h = refl
  samples_in_none (v ∷ vs) h = ground (arith, h.0, samples_in_none vs h.1)

  take-samples_in :
      (vs : List SamplePair)
      → IsSorted time_of vs
      → All (λ v. starts v ≡ true) vs
      → take (position stops vs) vs ≡ samples_in i vs
  take-samples_in [] s h = refl
  take-samples_in (v ∷ vs) s h = elim (Bool-cases (stops v)) [
    | inl e ↦
        rw (e, h.0)
          (sym (
            samples_in_none vs (All-map (λ u le. after-Upward i.newest_inclusive v u le e) vs s.0)))
    | inr e ↦ rw (e, h.0) (ap (◌∷◌ v) (take-samples_in vs s.1 h.1))
  ]

  module _ (ordered : less_ℤ i.newest_inclusive i.oldest_inclusive ≡ false) where
    starts_of_stops : (v : SamplePair) → stops v ≡ true → starts v ≡ true
    starts_of_stops v e = ground arith

    start-le-end : (vs : List SamplePair) → position starts vs ≤ position stops vs
    start-le-end [] = omega arith
    start-le-end (v ∷ vs) = ground (arith, starts_of_stops v, start-le-end vs)

    slice-samples_in :
        (vs : List SamplePair)
        → IsSorted time_of vs
        → drop (position starts vs) (take (position stops vs) vs) ≡ samples_in i vs
    slice-samples_in [] s = refl
    slice-samples_in (v ∷ vs) s = elim (Bool-cases (starts v)) [
      | inl e ↦
          ap (λ p. drop p (take (position stops (v ∷ vs)) (v ∷ vs))) (started e) ∙ take-started e
      | inr e ↦ elim (Bool-cases (stops v)) [
        | inl f ↦ cc (starts_of_stops v f)
        | inr f ↦ rw (e, f) (slice-samples_in vs s.1)
      ]
    ]
      where
        started : starts v ≡ true → position starts (v ∷ vs) ≡ 0
        started e = rw e

        take-started :
            starts v ≡ true → take (position stops (v ∷ vs)) (v ∷ vs) ≡ samples_in i (v ∷ vs)
        take-started e =
            take-samples_in (v ∷ vs) s
              (e, All-map (λ u le. not_before-Upward i.oldest_inclusive v u le e) vs s.0)

    none_starts : (vs : List SamplePair) → position starts vs ≡ length vs → samples_in i vs ≡ []
    none_starts [] h = refl
    none_starts (v ∷ vs) h = ground (arith, none_starts vs)

-- In a stream in order of time, for an interval whose ends are in order, the two binary searches give
-- exactly the samples that lie in the interval, in order, and the slice does not panic.
pub range_values_lem :
    (ss : SampleStream) (i : Interval)
    → IsSorted time_of ss.values
    → less_ℤ i.newest_inclusive i.oldest_inclusive ≡ false
    → range_values ss i ≡ ok (samples_in i ss.values)
unfolding range_values
range_values_lem ss i s ordered =
    rw
      (search_values-position (is_not_before i.oldest_inclusive) ss.values
        (not_before-Upward i.oldest_inclusive) s)
      (rw
        (search_values-position (is_after i.newest_inclusive) ss.values
          (after-Upward i.newest_inclusive) s)
        (ground (
          arith,
          none_starts i ordered ss.values,
          start-le-end i ordered ss.values,
          slice-samples_in i ordered ss.values s,
        )))
