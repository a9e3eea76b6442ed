-- ===== src/Wire.antt =====
-- ingester_client.go and server.go: samples, matchers and answers as messages, on both ends.
pub mod RoundTrip
use frankenstein.Prelude.{
  ℕ, List, [], ◌∷◌, ◌++◌, map, Option, none, some, Bool, true, false, if◌then◌else◌, not,
}
use frankenstein.Prelude.Int.{ℤ}
use frankenstein.Prelude.Order.{Text, text_ord}
use frankenstein.Prelude.Dict.{lookup, insert}
use frankenstein.Prelude.Result.{Result, ok, err, Error, ◌>>=◌, invalid_matcher_type}
use frankenstein.Model.{
  Metric, metric_name_label, MatchType, LabelMatcher, SamplePair, Sample, SampleStream,
}

-- remote.TimeSeries; its samples are pairs of a value and a time.
pub record TimeSeries : Type 0 where
  pub labels : List (Text × Text)
  pub samples : List SamplePair

-- IngesterClient.Append: the request for one sample. Go ranges over the metric in any order.
unfoldable pub to_series : Sample → TimeSeries
to_series s = record {
  labels = s.metric;
  samples = record { timestamp = s.timestamp; value = s.value } ∷ [];
}

unfoldable pub to_request : List Sample → List TimeSeries
to_request samples = map to_series samples

-- The loop that makes a metric of labels, at both ends.
unfoldable pub add_labels : List (Text × Text) → Metric → Metric
add_labels [] metric = metric
add_labels ((name, value) ∷ labels) metric = add_labels labels (insert name value metric)

-- grpcSampleAppender.Write: the samples of one series, and of all.
unfoldable pub series_samples : Metric → List SamplePair → List Sample
series_samples metric [] = []
series_samples metric (s ∷ samples) =
    record { metric = metric; value = s.value; timestamp = s.timestamp }
    ∷ series_samples metric samples

unfoldable pub from_request : List TimeSeries → List Sample
from_request [] = []
from_request (ts ∷ series) =
    series_samples (add_labels ts.labels []) ts.samples ++ from_request series

-- Write, over what Append does to the state of the server.
unfoldable pub write_samples :
    {W : Type 0} → (List Sample → W → Option Error × W) → List TimeSeries → W → Option Error × W
write_samples append req w = append (from_request req) w

-- generic.TimeSeries: the metric's name, if given, and the other labels
pub record NamedSeries : Type 0 where
  pub name : Option Text
  pub labels : List (Text × Text)
  pub samples : List SamplePair

abbrev pub or_empty_text : Option Text → Text
or_empty_text none = []
or_empty_text (some t) = t

abbrev pub other_labels : Metric → List (Text × Text)
other_labels [] = []
other_labels ((k, v) ∷ metric) =
    if text_ord.same k metric_name_label then other_labels metric else (k, v) ∷ other_labels metric

-- QueryHandler: a stream of the answer. The name is set even where the metric has none.
unfoldable pub to_named : SampleStream → NamedSeries
to_named ss = record {
  name = some (or_empty_text (lookup metric_name_label ss.metric));
  labels = other_labels ss.metric;
  samples = ss.values;
}

abbrev pub start_metric : Option Text → Metric
start_metric none = []
start_metric (some name) = insert metric_name_label name []

-- IngesterClient.Query: a stream of the answer, read back.
unfoldable pub from_named : NamedSeries → SampleStream
from_named ts = record { metric = add_labels ts.labels (start_metric ts.name); values = ts.samples }

-- generic.MatchType; a message may hold any other number.
pub data WireType : Type 0 where
  wire_equal wire_not_equal wire_regex_match wire_regex_no_match : WireType
  wire_other : ℕ → WireType

pub record WireMatcher : Type 0 where
  pub wire_type : WireType
  pub name : Text
  pub value : Text

-- The switch of IngesterClient.Query
abbrev pub to_wire_type : MatchType → WireType
to_wire_type MatchType.equal = wire_equal
to_wire_type MatchType.not_equal = wire_not_equal
to_wire_type MatchType.regex_match = wire_regex_match
to_wire_type MatchType.regex_no_match = wire_regex_no_match

-- The switch of QueryHandler
abbrev pub from_wire_type : WireType → Result MatchType
from_wire_type wire_equal = ok MatchType.equal
from_wire_type wire_not_equal = ok MatchType.not_equal
from_wire_type wire_regex_match = ok MatchType.regex_match
from_wire_type wire_regex_no_match = ok MatchType.regex_no_match
from_wire_type (wire_other n) = err invalid_matcher_type

unfoldable pub to_wire_matchers : List LabelMatcher → List WireMatcher
to_wire_matchers [] = []
to_wire_matchers (m ∷ matchers) =
    record { wire_type = to_wire_type m.mtype; name = m.name; value = m.value }
    ∷ to_wire_matchers matchers

-- The loop of QueryHandler; `new_matcher` is metric.NewLabelMatcher.
unfoldable pub from_wire_matchers :
    (MatchType → Text → Text → Result LabelMatcher) → List WireMatcher → Result (List LabelMatcher)
from_wire_matchers new_matcher [] = ok []
from_wire_matchers new_matcher (m ∷ matchers) = do
  mtype ← from_wire_type m.wire_type
  matcher ← new_matcher mtype m.name m.value
  rest ← from_wire_matchers new_matcher matchers
  ok (matcher ∷ rest)
