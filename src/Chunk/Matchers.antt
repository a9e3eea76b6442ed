-- ===== src/Chunk/Matchers.antt =====
-- chunk/chunk_store.go: `extractMetricName`, which takes the matcher of the metric's name out of a
-- slice, in place.
use frankenstein.Prelude.{
  true, false, Bool, List, [], ◌∷◌, if◌then◌else◌, All, ◌++◌, ◌≡◌, arith, refl,
}
use frankenstein.Prelude.Order.{Text, text_ord}
use frankenstein.Prelude.Result.{Result, ok, err, not_equality_matcher, no_metric_name_matcher}
use frankenstein.Model.{MatchType, LabelMatcher, metric_name_label}

abbrev pub is_name : LabelMatcher → Bool
is_name m = text_ord.same m.name metric_name_label

abbrev pub is_equal : MatchType → Bool
is_equal MatchType.equal = true
is_equal _ = false

-- copy(matchers[i:], matchers[i+1:]): the elements move down by one, and the last stays where it is.
abbrev pub moved_down : LabelMatcher → List LabelMatcher → List LabelMatcher
moved_down m [] = m ∷ []
moved_down m (n ∷ ms) = n ∷ moved_down n ms

-- What the function returns, and what the caller's slice holds then.
pub record Extracted : Type 0 where
  pub result : Result (Text × List LabelMatcher)
  pub slice : List LabelMatcher

abbrev found : LabelMatcher → List LabelMatcher → Extracted
found m ms =
    if is_equal m.mtype
    then record { result = ok (m.value, ms); slice = moved_down m ms }
    else record { result = err not_equality_matcher; slice = m ∷ ms }

-- A matcher that the loop passes by stays at the front.
abbrev pub keep :
    LabelMatcher → Result (Text × List LabelMatcher) → Result (Text × List LabelMatcher)
keep m (ok (name, rest)) = ok (name, m ∷ rest)
keep m (err e) = err e

abbrev passed : LabelMatcher → Extracted → Extracted
passed m r = record { result = keep m r.result; slice = m ∷ r.slice }

unfoldable pub extract_metric_name : List LabelMatcher → Extracted
extract_metric_name [] = record { result = err no_metric_name_matcher; slice = [] }
extract_metric_name (m ∷ ms) =
    let rest = extract_metric_name ms in if is_name m then found m ms else passed m rest

-- No matcher is for the metric's name.
abbrev pub NoName : List LabelMatcher → Type 0
NoName = All (λ m. is_name m ≡ false)

extract-NoName :
    (ms : List LabelMatcher)
    → NoName ms
    → (extract_metric_name ms).result ≡ err no_metric_name_matcher
unfolding extract_metric_name
extract-NoName [] h = refl
extract-NoName (m ∷ ms) h = rw h.0 (rw (extract-NoName ms h.1))

-- What `extractMetricName` does with matchers of which `n` is the first for the metric's name.
abbrev pub outcome :
    (pre : List LabelMatcher) (n : LabelMatcher) (post : List LabelMatcher) → Extracted
outcome pre n post =
    if is_equal n.mtype
    then record { result = ok (n.value, pre ++ post); slice = pre ++ moved_down n post }
    else record { result = err not_equality_matcher; slice = pre ++ n ∷ post }

-- The first matcher for the metric's name decides: if it tests equality, its value is returned with
-- the other matchers in order, and in the caller's slice the matchers behind it have moved down by one
-- while the last one stays; if it does not, the call fails and the slice is as it was.
extract_metric_name_lem :
    (pre : List LabelMatcher) (n : LabelMatcher) (post : List LabelMatcher)
    → NoName pre
    → is_name n ≡ true
    → extract_metric_name (pre ++ n ∷ post) ≡ outcome pre n post
unfolding extract_metric_name
extract_metric_name_lem [] n post h e = rw e
extract_metric_name_lem (m ∷ pre) n post h e =
    rw h.0 (rw (extract_metric_name_lem pre n post h.1 e) (ground arith))

NoName-append : (xs ys : List LabelMatcher) → NoName xs → NoName ys → NoName (xs ++ ys)
NoName-append [] ys h g = g
NoName-append (x ∷ xs) ys h g = (h.0, NoName-append xs ys h.1 g)

NoName-moved_down :
    (m : LabelMatcher) (ms : List LabelMatcher)
    → is_name m ≡ false
    → NoName ms
    → NoName (moved_down m ms)
NoName-moved_down m [] e h = (e, tt)
NoName-moved_down m (n ∷ ms) e h = (h.0, NoName-moved_down n ms h.0 h.1)

-- A caller's slice whose only matcher for the metric's name tests equality and is not the last has
-- lost that matcher after a call that succeeds: the same call on the same slice then fails.
pub second_extract_fails :
    (pre : List LabelMatcher) (n next : LabelMatcher) (post : List LabelMatcher)
    → NoName pre
    → is_name n ≡ true
    → n.mtype ≡ MatchType.equal
    → NoName (next ∷ post)
    → let first = extract_metric_name (pre ++ n ∷ next ∷ post) in
      (first.result ≡ ok (n.value, pre ++ next ∷ post))
      × ((extract_metric_name first.slice).result ≡ err no_metric_name_matcher)
second_extract_fails pre n next post h e q g =
    rw (extract_metric_name_lem pre n (next ∷ post) h e) (
      rw q (
        refl,
        extract-NoName (pre ++ next ∷ moved_down next post) (
            NoName-append pre (moved_down n (next ∷ post)) h
              (g.0, NoName-moved_down next post g.0 g.1)),
      ))
