-- ===== src/Model.antt =====
-- The types of github.com/prometheus that the program passes around, as far as it reads them.
use frankenstein.Prelude.{ℕ, List}
use frankenstein.Prelude.Int.{ℤ}
use frankenstein.Prelude.Order.{Text, codes}

-- model.Metric: labels with their values
abbrev pub Metric : Type 0
Metric = List (Text × Text)

-- model.MetricNameLabel
abbrev pub metric_name_label : Text
metric_name_label = codes "__name__"

-- metric.MatchType
pub data MatchType : Type 0 where
  equal not_equal regex_match regex_no_match : MatchType

pub record LabelMatcher : Type 0 where
  pub mtype : MatchType
  pub name : Text
  pub value : Text

-- The value is the bit pattern of a float64: the program moves it and never computes with it.
pub record SamplePair : Type 0 where
  pub timestamp : ℤ
  pub value : ℕ

pub record Sample : Type 0 where
  pub metric : Metric
  pub value : ℕ
  pub timestamp : ℤ

pub record SampleStream : Type 0 where
  pub metric : Metric
  pub values : List SamplePair
