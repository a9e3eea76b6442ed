-- ===== src/Distributor/Routing.antt =====
-- Where samples and questions go.
use frankenstein.Prelude.{
  Bool, true, false, List, [], ◌∷◌, ◌++◌, some, ◌≡◌, refl, ◌∙◌, arith, if◌then◌else◌,
}
use mathlib.Core.List.{append-nil, append_assoc}
use frankenstein.Prelude.Order.{Text, text_ord}
use frankenstein.Prelude.Dict.{lookup, insert, lookup-insert}
use frankenstein.Prelude.Result.{Result, ok, err, ◌>>=◌}
use frankenstein.Model.{LabelMatcher, Sample, MatchType, metric_name_label}
use frankenstein.Ring.Model.{IngesterDesc, Desc}
use frankenstein.Ring.Lookup.{get}
use frankenstein.Chunk.Matchers.{is_name, NoName}
use frankenstein.Distributor.{
  token_for_metric, or_nil, samples_by_ingester, metric_name_from_label_matchers, query_ingester,
}

-- The ring names an ingester with this host name for the sample.
abbrev pub hosts : Result IngesterDesc → Text → Bool
hosts (ok i) host = text_ord.same i.hostname host
hosts (err e) host = false

abbrev pub goes_to : Desc → Text → Text → Sample → Bool
goes_to ring user_id host s = hosts (get ring (token_for_metric user_id s.metric)) host

abbrev pub samples_for : Desc → Text → Text → List Sample → List Sample
samples_for ring user_id host [] = []
samples_for ring user_id host (s ∷ samples) =
    if goes_to ring user_id host s
    then s ∷ samples_for ring user_id host samples
    else samples_for ring user_id host samples

module _ (ring : Desc) (user_id : Text) where
  grouped_after :
      (host : Text) (samples : List Sample) (groups groups' : List (Text × List Sample))
      → samples_by_ingester ring user_id samples groups ≡ ok groups'
      → or_nil (lookup host groups')
        ≡ or_nil (lookup host groups) ++ samples_for ring user_id host samples
  unfolding samples_by_ingester
  grouped_after host [] groups groups' e =
      ground (arith, e, append-nil (or_nil (lookup host groups)))
  grouped_after host (s ∷ samples) groups groups' e =
      go (get ring (token_for_metric user_id s.metric))
        (λ more h. grouped_after host samples more groups' h) refl
    where
      go :
          (r : Result IngesterDesc)
          → ((more : List (Text × List Sample))
              → samples_by_ingester ring user_id samples more ≡ ok groups'
              → or_nil (lookup host groups')
                ≡ or_nil (lookup host more) ++ samples_for ring user_id host samples)
          → get ring (token_for_metric user_id s.metric) ≡ r
          → or_nil (lookup host groups')
            ≡ or_nil (lookup host groups) ++ samples_for ring user_id host (s ∷ samples)
      go (err x) ih q = cc (rw (q, samples_by_ingester) at e)
      go (ok i) ih q =
          let bigger = or_nil (lookup i.hostname groups) ++ s ∷ [] in
          ih (insert i.hostname bigger groups) (rw (q, samples_by_ingester) at e)
          ∙ rw q (
              ground (
                arith,
                text_ord.same_iff i.hostname host,
                lookup-insert i.hostname host bigger groups,
                append_assoc (or_nil (lookup host groups)) (s ∷ [])
                    (samples_for ring user_id host samples),
              ))

  -- When all samples find an ingester, the group of each host name holds exactly the samples whose
  -- ingester in the ring has that host name, in the order in which they came.
  pub samples_by_ingester_lem :
      (host : Text) (samples : List Sample) (groups : List (Text × List Sample))
      → samples_by_ingester ring user_id samples [] ≡ ok groups
      → or_nil (lookup host groups) ≡ samples_for ring user_id host samples
  unfolding lookup
  samples_by_ingester_lem host samples groups e = grouped_after host samples [] groups e

metric_name_first :
    (pre : List LabelMatcher) (n : LabelMatcher) (post : List LabelMatcher)
    → NoName pre
    → is_name n ≡ true
    → n.mtype ≡ MatchType.equal
    → metric_name_from_label_matchers (pre ++ n ∷ post) ≡ ok n.value
unfolding metric_name_from_label_matchers
metric_name_first [] n post h e q = ground (arith, e, q)
metric_name_first (m ∷ pre) n post h e q = rw h.0 (metric_name_first pre n post h.1 e q)

-- A question whose first matcher for the metric's name tests equality with a sample's name goes to the
-- ingester to which the same user's sample goes, or fails with the same error of the ring.
pub query_follows_append :
    (ring : Desc) (user_id : Text) (s : Sample) (pre : List LabelMatcher) (n : LabelMatcher)
    (post : List LabelMatcher)
    → NoName pre
    → is_name n ≡ true
    → n.mtype ≡ MatchType.equal
    → lookup metric_name_label s.metric ≡ some n.value
    → query_ingester (some user_id) (pre ++ n ∷ post) ring
      ≡ (get ring (token_for_metric user_id s.metric) >>= λ i. ok (user_id, i))
unfolding query_ingester token_for_metric
query_follows_append ring user_id s pre n post h e q named =
    rw (metric_name_first pre n post h e q) (rw named)
