-- ===== src/Wire/RoundTrip.antt =====
-- What one end gets of what the other sends.
use frankenstein.Prelude.Result.{Result, ok}
use frankenstein.Prelude.{
  List, [], ◌∷◌, ◌++◌, Option, none, some, Bool, true, false, if◌then◌else◌, All, arith, ◌≡◌, refl,
  sym, ap, ◌∙◌, inl, inr, Bool-cases,
}
use mathlib.Core.Path.{subst}
use mathlib.Core.List.{append-nil, append_assoc}
use frankenstein.Prelude.Order.{Text, text_ord}
use frankenstein.Prelude.Dict.{lookup, insert, lookup-insert}
use frankenstein.Model.{Metric, metric_name_label, Sample, SampleStream, MatchType, LabelMatcher}
use frankenstein.Wire.{
  to_series, to_request, add_labels, series_samples, from_request, to_named, from_named,
  other_labels, or_empty_text, from_wire_matchers, Result, from_wire_type, to_wire_matchers,
  to_wire_type,
}

-- No label of the list has the name.
abbrev pub Lacks : Text → List (Text × Text) → Type 0
Lacks k [] = Unit
Lacks k ((j, v) ∷ m) = (text_ord.same j k ≡ false) × Lacks k m

-- No name is there twice, as in a Go map.
abbrev pub IsMap : List (Text × Text) → Type 0
IsMap [] = Unit
IsMap ((k, v) ∷ m) = Lacks k m × IsMap m

abbrev pub HasMap : Sample → Type 0
HasMap s = IsMap s.metric

insert-end : (k v : Text) (m : List (Text × Text)) → Lacks k m → insert k v m ≡ m ++ (k, v) ∷ []
unfolding insert
insert-end k v [] h = refl
insert-end k v ((j, w) ∷ m) h = rw h.0 (ap (◌∷◌ (j, w)) (insert-end k v m h.1))

-- Every name of the second list is missing in the first.
abbrev Apart : List (Text × Text) → List (Text × Text) → Type 0
Apart m [] = Unit
Apart m ((k, v) ∷ labels) = Lacks k m × Apart m labels

Lacks-end :
    (k j v : Text) (m : List (Text × Text))
    → Lacks k m
    → text_ord.same j k ≡ false
    → Lacks k (m ++ (j, v) ∷ [])
Lacks-end k j v [] h e = (e, tt)
Lacks-end k j v ((i, w) ∷ m) h e = (h.0, Lacks-end k j v m h.1 e)

Apart-end :
    (k v : Text) (m labels : List (Text × Text))
    → Apart m labels
    → Lacks k labels
    → Apart (m ++ (k, v) ∷ []) labels
Apart-end k v m [] h l = tt
Apart-end k v m ((j, w) ∷ labels) h l = (
  Lacks-end j k v m h.0 (ground (arith, text_ord.same_iff k j, text_ord.same_iff j k, l.0)),
  Apart-end k v m labels h.1 l.1,
)

add_labels-append :
    (labels m : List (Text × Text))
    → IsMap labels
    → Apart m labels
    → add_labels labels m ≡ m ++ labels
unfolding add_labels
add_labels-append [] m h a = sym (append-nil m)
add_labels-append ((k, v) ∷ labels) m h a =
    ap (add_labels labels) (insert-end k v m a.0)
    ∙ add_labels-append labels (m ++ (k, v) ∷ []) h.1 (Apart-end k v m labels a.1 h.0)
    ∙ append_assoc m ((k, v) ∷ []) labels

Apart-nothing : (labels : List (Text × Text)) → Apart [] labels
Apart-nothing [] = tt
Apart-nothing ((k, v) ∷ labels) = (tt, Apart-nothing labels)

-- The samples that a client puts into a request, each with a metric that names no label twice, are the
-- samples that the server hands to its appender, in the same order.
pub from_request-to_request :
    (samples : List Sample) → All HasMap samples → from_request (to_request samples) ≡ samples
unfolding from_request to_request to_series series_samples
from_request-to_request [] h = refl
from_request-to_request (s ∷ samples) h =
    ap (λ m. record s { metric = m } ∷ from_request (to_request samples))
      (add_labels-append s.metric [] h.0 (Apart-nothing s.metric))
    ∙ ap (◌∷◌ s) (from_request-to_request samples h.1)

lookup-insert-other :
    (j k v : Text) (m : List (Text × Text))
    → text_ord.same j k ≡ false
    → lookup k (insert j v m) ≡ lookup k m
lookup-insert-other j k v m e = lookup-insert j k v m ∙ rw e refl

lookup-add_labels-other :
    (k : Text) (labels m : List (Text × Text))
    → Lacks k labels
    → lookup k (add_labels labels m) ≡ lookup k m
unfolding add_labels
lookup-add_labels-other k [] m h = refl
lookup-add_labels-other k ((j, v) ∷ labels) m h =
    lookup-add_labels-other k labels (insert j v m) h.1 ∙ lookup-insert-other j k v m h.0

-- The first of two answers
abbrev first_of : Option Text → Option Text → Option Text
first_of none o = o
first_of (some v) o = some v

lookup-add_labels :
    (k : Text) (labels m : List (Text × Text))
    → IsMap labels
    → lookup k (add_labels labels m) ≡ first_of (lookup k labels) (lookup k m)
unfolding add_labels lookup
lookup-add_labels k [] m h = refl
lookup-add_labels k ((j, v) ∷ labels) m h = elim (Bool-cases (text_ord.same j k)) [
  | inl e ↦
      lookup-add_labels-other k labels (insert j v m) (lacks e) ∙ lookup-insert j k v m ∙ rw e refl
  | inr e ↦
      lookup-add_labels k labels (insert j v m) h.1
      ∙ ap (first_of (lookup k labels)) (lookup-insert-other j k v m e)
      ∙ rw e refl
]
  where
    lacks : text_ord.same j k ≡ true → Lacks k labels
    lacks e = subst (λ i. Lacks i labels) ((text_ord.same_iff j k).0 e) h.0

lookup-other_labels :
    (k : Text) (m : Metric)
    → lookup k (other_labels m) ≡ (if text_ord.same k metric_name_label then none else lookup k m)
unfolding lookup
lookup-other_labels k [] = ground arith
lookup-other_labels k ((j, v) ∷ m) = ground (
  arith,
  text_ord.same_iff j k,
  text_ord.same_iff k metric_name_label,
  text_ord.same_iff j metric_name_label,
  lookup-other_labels k m,
)

Lacks-other_labels : (k : Text) (m : Metric) → Lacks k m → Lacks k (other_labels m)
Lacks-other_labels k [] h = tt
Lacks-other_labels k ((j, v) ∷ m) h = elim (Bool-cases (text_ord.same j metric_name_label)) [
  | inl e ↦ rw e (Lacks-other_labels k m h.1)
  | inr e ↦ rw e (h.0, Lacks-other_labels k m h.1)
]

IsMap-other_labels : (m : Metric) → IsMap m → IsMap (other_labels m)
IsMap-other_labels [] h = tt
IsMap-other_labels ((j, v) ∷ m) h = elim (Bool-cases (text_ord.same j metric_name_label)) [
  | inl e ↦ rw e (IsMap-other_labels m h.1)
  | inr e ↦ rw e (Lacks-other_labels j m h.0, IsMap-other_labels m h.1)
]

lookup-start :
    (k name : Text)
    → lookup k (insert metric_name_label name [])
      ≡ (if text_ord.same k metric_name_label then some name else none)
unfolding lookup
lookup-start k name =
    lookup-insert metric_name_label k name []
    ∙ ground (arith, text_ord.same_iff metric_name_label k, text_ord.same_iff k metric_name_label)

-- A stream whose metric names no label twice and that goes through the server's answer and the client's reading of it keeps its samples and
-- every label but the name; the name is kept too, but a stream without one gets the empty name.
pub from_named-to_named :
    (ss : SampleStream) (k : Text)
    → IsMap ss.metric
    → let read = from_named (to_named ss) in
      (read.values ≡ ss.values)
      × (lookup k read.metric ≡ (
          if text_ord.same k metric_name_label
          then some (or_empty_text (lookup metric_name_label ss.metric))
          else lookup k ss.metric))
unfolding from_named to_named
from_named-to_named ss k h = (
  refl,
  lookup-add_labels k (other_labels ss.metric) (insert metric_name_label name [])
        (IsMap-other_labels ss.metric h)
      ∙ joined (text_ord.same k metric_name_label) (lookup-other_labels k ss.metric)
          (lookup-start k name),
)
  where
    name : Text
    name = or_empty_text (lookup metric_name_label ss.metric)

    joined :
        {o p : Option Text} (b : Bool)
        → o ≡ (if b then none else lookup k ss.metric)
        → p ≡ (if b then some name else none)
        → first_of o p ≡ (if b then some name else lookup k ss.metric)
    joined true e f = rw (e, f) refl
    joined false e f = rw (e, f) (end (lookup k ss.metric))
      where
        end : (q : Option Text) → first_of q none ≡ q
        end none = refl
        end (some v) = refl

-- metric.NewLabelMatcher gives a matcher back from its parts.
abbrev pub IsMade : (MatchType → Text → Text → Result LabelMatcher) → LabelMatcher → Type 0
IsMade new_matcher m = new_matcher m.mtype m.name m.value ≡ ok m

wire_type_round : (t : MatchType) → from_wire_type (to_wire_type t) ≡ ok t
wire_type_round MatchType.equal = refl
wire_type_round MatchType.not_equal = refl
wire_type_round MatchType.regex_match = refl
wire_type_round MatchType.regex_no_match = refl

-- The matchers of a client's question, each one that the library makes from its parts, are the
-- matchers that the server asks its querier for.
pub from_wire_matchers-to_wire_matchers :
    (new_matcher : MatchType → Text → Text → Result LabelMatcher) (matchers : List LabelMatcher)
    → All (IsMade new_matcher) matchers
    → from_wire_matchers new_matcher (to_wire_matchers matchers) ≡ ok matchers
unfolding from_wire_matchers to_wire_matchers
from_wire_matchers-to_wire_matchers new_matcher [] h = refl
from_wire_matchers-to_wire_matchers new_matcher (m ∷ matchers) h =
    rw (wire_type_round m.mtype, h.0)
      (rw (from_wire_matchers-to_wire_matchers new_matcher matchers h.1) refl)
