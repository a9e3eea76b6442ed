-- ===== src/Api/Range.antt =====
-- The limit on the resolution of a range query.
use native.Mathlib.Nat.{le-div_iff_mul-le}
use frankenstein.Prelude.{ℕ, suc, ◌/◌, ◌*◌, ltb, leb, if◌then◌else◌, ◌≡◌, refl, arith}
use frankenstein.Prelude.Int.{ℤ, pos}
use frankenstein.Prelude.Order.{Text}
use frankenstein.Prelude.Result.{ok, too_many_points}
use frankenstein.User.{Context}
use frankenstein.Api.{
  Calls, Form, crashed, failed, error_bad_data, checked, parse_time, parse_duration, execute,
  query_between, query_range,
}

steps_of_range : (step range : ℕ) → ltb 11000 (range / suc step) ≡ leb (11001 * suc step) range
steps_of_range step range =
    ground (arith, le-div_iff_mul-le {k = suc step} {x = 11001} {y = range} (omega arith))

module _ {Q V : Type 0} (calls : Calls Q V) (ctx : Context) where
  -- A range query with a step of zero, which parses, divides by zero: its handler panics, and no
  -- query is made.
  pub zero_step_crashes :
      (r : Form) (start stop : ℤ)
      → parse_time calls r.start ≡ ok start
      → parse_time calls r.stop ≡ ok stop
      → parse_duration calls r.step ≡ ok (pos 0)
      → query_range calls ctx r ≡ crashed
  unfolding query_range query_between
  zero_step_crashes r start stop p q s = rw (p, q, s) refl

  limited :
      (start stop : ℤ) (range step : ℕ) (q : Text)
      → calls.sub_time stop start ≡ pos range
      → query_between calls ctx q start stop (pos (suc step)) ≡ (
          if leb (11001 * suc step) range
          then failed error_bad_data too_many_points
          else checked error_bad_data
              (calls.new_range_query ctx q start stop (pos (suc step)))
              (execute calls))
  unfolding query_between
  limited start stop range step q d =
      rw (d, query_between) (ground (arith, steps_of_range step range))

  -- A range query with a positive step, from a start that is not after its end, is refused exactly when
  -- its range is 11,001 steps or longer; otherwise the engine is asked, with the parsed times.
  pub query_range_limit :
      (r : Form) (start stop : ℤ) (step range : ℕ)
      → parse_time calls r.start ≡ ok start
      → parse_time calls r.stop ≡ ok stop
      → parse_duration calls r.step ≡ ok (pos (suc step))
      → calls.sub_time stop start ≡ pos range
      → query_range calls ctx r ≡ (
          if leb (11001 * suc step) range
          then failed error_bad_data too_many_points
          else checked error_bad_data
              (calls.new_range_query ctx r.query start stop (pos (suc step)))
              (execute calls))
  unfolding query_range query_between
  query_range_limit r start stop step range p q s d =
      rw (p, q, s) (limited start stop range step r.query d)
