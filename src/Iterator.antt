-- ===== src/Iterator.antt =====
-- iterator.go: reading a stream of samples at a time and over an interval.
pub mod Reads
use frankenstein.Prelude.{
  ℕ, ◌-◌, Bool, not, List, [], Option, none, some, ltb, leb, ◌==◌, if◌then◌else◌, length, get_or,
  take, drop,
}
use frankenstein.Prelude.Int.{ℤ, pos, int_ord}
use frankenstein.Prelude.Search.{search_index}
use frankenstein.Prelude.Result.{Result, ok, err, panicked}
use frankenstein.Model.{SamplePair, SampleStream}

-- metric.Interval
pub record Interval : Type 0 where
  pub oldest_inclusive : ℤ
  pub newest_inclusive : ℤ

-- model.Time's After and Before compare the numbers.
abbrev pub is_after : ℤ → SamplePair → Bool
is_after ts s = int_ord.less ts s.timestamp

abbrev pub is_not_before : ℤ → SamplePair → Bool
is_not_before ts s = not (int_ord.less s.timestamp ts)

-- What stands for a read outside of a list, where Go panics.
abbrev pub zero_pair : SamplePair
zero_pair = record { timestamp = pos 0; value = 0 }

-- sort.Search over the values of a stream
abbrev pub search_values : (SamplePair → Bool) → List SamplePair → ℕ
search_values test values = search_index (length values) (λ n. test (get_or values n zero_pair))

-- `earliest` is model.Earliest.
unfoldable pub value_at_or_before_time : ℤ → SampleStream → ℤ → SamplePair
value_at_or_before_time earliest ss ts =
    let i = search_values (is_after ts) ss.values in
    if i == 0
    then record { timestamp = earliest; value = 0 }
    else get_or ss.values (i - 1) zero_pair

-- The slice [start:end] of Go, which panics where the bounds are not in order.
abbrev pub slice : List SamplePair → ℕ → ℕ → Result (List SamplePair)
slice values start end = if ltb end start then err panicked else ok (drop start (take end values))

unfoldable pub range_values : SampleStream → Interval → Result (List SamplePair)
range_values ss interval =
    let n = length ss.values in
    let start = search_values (is_not_before interval.oldest_inclusive) ss.values in
    let end = search_values (is_after interval.newest_inclusive) ss.values in
    if start == n then ok [] else slice ss.values start end
