-- ===== src/Prelude/Result.antt =====
-- Results of fallible code, and the errors that the program makes itself.
use Prim.Native.Nat.{ℕ}
use mathlib.Core.Path.{◌≡◌, refl}
use mathlib.Core.Logic.{◌⊎◌, inl, inr}
use frankenstein.Prelude.Order.{Text}

pub data Error : Type 0 where
  empty_ring : Error  -- ring.ErrEmptyRing
  no_user_id : Error  -- user.GetID
  no_metric_name_label : Error  -- calculateDynamoWrites
  not_equality_matcher : Error  -- extractMetricName, metricNameFromLabelMatchers
  no_metric_name_matcher : Error  -- extractMetricName, metricNameFromLabelMatchers
  invalid_item : Error  -- processResponse
  failed_to_cas : Error  -- consulClient.CAS
  found_empty_ring : Error  -- IngesterRegistration.unregister
  not_found : Error  -- ring.ErrNotFound
  bad_status : ℕ → Error  -- doRequest
  invalid_matcher_type : Error  -- QueryHandler
  missing_user : Error  -- API.Register
  cannot_parse : Text → Error  -- parseTime, parseDuration
  too_many_points : Error  -- API.queryRange
  invalid_label_name : Text → Error  -- API.labelValues
  no_match_parameter : Error  -- API.series
  dropping_unsupported : Error  -- API.dropSeries
  mode_not_supported : Error  -- main
  no_credentials : Error  -- awsConfigFromURL
  no_address : Error  -- getFirstAddressOf
  panicked : Error  -- a run-time panic, which ends the process
  external : ℕ → Error  -- an error of a library or a service, by a number

pub data Result {ℓ} (A : Type ℓ) : Type ℓ where
  ok : A → Result A
  err : Error → Result A

-- The first error ends a chain.
infixl 5 ◌>>=◌
abbrev pub ◌>>=◌ {ℓ κ} : {A : Type ℓ} {B : Type κ} → Result A → (A → Result B) → Result B
err failed >>= next = err failed
ok value >>= next = next value

pub Result-cases {ℓ} :
    {A : Type ℓ} (r : Result A) → ((e : Error) × (r ≡ err e)) ⊎ ((a : A) × (r ≡ ok a))
Result-cases (err e) = inl (e, refl)
Result-cases (ok a) = inr (a, refl)

pub ok-inj {ℓ} : {A : Type ℓ} (a b : A) → ok a ≡ ok b → a ≡ b
ok-inj a b e = cc
