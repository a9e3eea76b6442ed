-- ===== src/Api.antt =====
-- api/api.go: the query API, from the values of a form to a reply. Of the PromQL engine and of the
-- parsers of numbers and times it says only how they are called.
pub mod Range
use Prim.Native.Nat.{◌/◌}
use frankenstein.Prelude.{
  ℕ, zero, suc, Bool, true, false, ltb, ◌==◌, ◌&&◌, not, if◌then◌else◌, List, [], ◌∷◌, map, Option,
  none, some,
}
use frankenstein.Prelude.Int.{ℤ, pos, negsuc, negate, less_ℤ}
use frankenstein.Prelude.Order.{Text, codes, text_ord}
use frankenstein.Prelude.Sort.{Sorter}
use frankenstein.Prelude.Result.{
  Result, ok, err, Error, ◌>>=◌, missing_user, cannot_parse, too_many_points, invalid_label_name,
  no_match_parameter, dropping_unsupported,
}
use frankenstein.User.{Context, with_id}
use frankenstein.Model.{Metric, LabelMatcher}
use frankenstein.Server.{Reply}

-- errorType
pub data ErrorType : Type 0 where
  error_timeout error_canceled error_exec error_bad_data : ErrorType

-- What an apiFunc comes to: its data, nil data, an apiError, or a panic of the handler.
pub data Outcome (D : Type 0) : Type 0 where
  success : D → Outcome D
  no_content : Outcome D
  failed : ErrorType → Error → Outcome D
  crashed : Outcome D

-- The errors of an executed query, as the type switch tells them apart.
pub data ExecError : Type 0 where
  query_canceled query_timeout other_error : Error → ExecError

pub data Executed (V : Type 0) : Type 0 where
  value : V → Executed V
  exec_failed : ExecError → Executed V

-- The values of the form that the endpoints read; a missing value is empty.
pub record Form : Type 0 where
  pub query : Text
  pub time : Text
  pub start : Text
  pub stop : Text
  pub step : Text
  pub matches : List Text

-- What the API calls: strconv, time and model parse texts (a float as its bit pattern, a time and a
-- duration as int64 values), promql makes and runs queries of type `Q` with values of type `V`, and
-- a querier answers for a context.
pub record Calls (Q V : Type 0) : Type 0 where
  pub parse_float : Text → Option ℕ
  pub nanoseconds : ℕ → ℤ  -- int64(t * float64(time.Second))
  pub parse_rfc3339 : Text → Option ℤ  -- its UnixNano
  pub parse_duration : Text → Option ℤ
  pub time_from_nano : ℤ → ℤ
  pub sub_time : ℤ → ℤ → ℤ
  pub now : ℤ
  pub earliest : ℤ
  pub latest : ℤ
  pub new_instant_query : Context → Text → ℤ → Result Q
  pub new_range_query : Context → Text → ℤ → ℤ → ℤ → Result Q
  pub exec : Q → Executed V
  pub is_label_name : Text → Bool
  pub label_values : Context → Text → Result (List Text)
  pub parse_selector : Text → Result (List LabelMatcher)
  pub metrics : Context → ℤ → ℤ → List (List LabelMatcher) → Result (List Metric)

-- An int64 quotient; none is a division by zero, which panics. The one quotient that overflows wraps.
abbrev pub divided : ℤ → ℤ → Option ℤ
divided a (pos zero) = none
divided (pos a) (pos (suc b)) = some (pos (a / suc b))
divided (negsuc a) (pos (suc b)) = some (negate (suc a / suc b))
divided (pos a) (negsuc b) = some (negate (a / suc b))
divided (negsuc a) (negsuc b) =
    let q = suc a / suc b in
    some (if q == 9223372036854775808 then negsuc 9223372036854775807 else pos q)

abbrev pub max_points : ℤ
max_points = pos 11000

-- The type switch on the error of a result.
unfoldable pub exec_error : {V : Type 0} → ExecError → Outcome V
exec_error (query_canceled e) = failed error_canceled e
exec_error (query_timeout e) = failed error_timeout e
exec_error (other_error e) = failed error_exec e

abbrev pub checked : {A D : Type 0} → ErrorType → Result A → (A → Outcome D) → Outcome D
checked kind (ok a) f = f a
checked kind (err e) f = failed kind e

module _ {Q V : Type 0} (calls : Calls Q V) where
  unfoldable pub parse_time : Text → Result ℤ
  parse_time s = elim (calls.parse_float s) [
    | some t ↦ ok (calls.time_from_nano (calls.nanoseconds t))
    | none ↦ elim (calls.parse_rfc3339 s) [
      | some nanos ↦ ok (calls.time_from_nano nanos)
      | none ↦ err (cannot_parse s)
    ]
  ]

  unfoldable pub parse_duration : Text → Result ℤ
  parse_duration s = elim (calls.parse_float s) [
    | some d ↦ ok (calls.nanoseconds d)
    | none ↦ elim (calls.parse_duration s) [ some d ↦ ok d | none ↦ err (cannot_parse s) ]
  ]

  -- A time of the form, or what stands for a missing one.
  unfoldable pub time_or : ℤ → Text → Result ℤ
  time_or default [] = ok default
  time_or default (c ∷ s) = parse_time (c ∷ s)

  -- qry.Exec() and what the endpoints make of its result
  unfoldable pub execute : Q → Outcome V
  execute qry = elim (calls.exec qry) [ value v ↦ success v | exec_failed e ↦ exec_error e ]

  -- API.query
  unfoldable pub query : Context → Form → Outcome V
  query ctx r =
      checked error_bad_data (time_or calls.now r.time)
        λ ts. checked error_bad_data (calls.new_instant_query ctx r.query ts) execute

  -- queryRange, when its times are parsed
  unfoldable pub query_between : Context → Text → ℤ → ℤ → ℤ → Outcome V
  query_between ctx q start stop step = elim (divided (calls.sub_time stop start) step) [
    | none ↦ crashed
    | some points ↦
        if less_ℤ max_points points
        then failed error_bad_data too_many_points
        else checked error_bad_data (calls.new_range_query ctx q start stop step) execute
  ]

  -- API.queryRange
  unfoldable pub query_range : Context → Form → Outcome V
  query_range ctx r = checked error_bad_data (parse_time r.start) λ start.
      checked error_bad_data (parse_time r.stop) λ stop.
        checked error_bad_data (parse_duration r.step)
          λ step. query_between ctx r.query start stop step

  -- API.labelValues; `name` is the parameter of the route.
  unfoldable pub label_values : Sorter (λ (t : Text). t) → Context → Text → Outcome (List Text)
  label_values sorter ctx name =
      if calls.is_label_name name
      then (checked error_exec (calls.label_values ctx name) λ vals. success (sorter.sort vals))
      else failed error_bad_data (invalid_label_name name)

  -- The loop of `series` over the selectors
  unfoldable pub parse_selectors : List Text → Result (List (List LabelMatcher))
  parse_selectors [] = ok []
  parse_selectors (s ∷ ss) = do
    matchers ← calls.parse_selector s
    rest ← parse_selectors ss
    ok (matchers ∷ rest)

  -- API.series, with a selector
  unfoldable pub series_of : Context → Form → Outcome (List Metric)
  series_of ctx r = checked error_bad_data (time_or calls.earliest r.start) λ start.
      checked error_bad_data (time_or calls.latest r.stop) λ stop.
        checked error_bad_data (parse_selectors r.matches)
          λ sets. checked error_exec (calls.metrics ctx start stop sets) success

  unfoldable pub series : Context → Form → Outcome (List Metric)
  series ctx r = elim r.matches [
    | [] ↦ failed error_bad_data no_match_parameter
    | s ∷ ss ↦ series_of ctx r
  ]

unfoldable pub drop_series : {D : Type 0} → Context → Form → Outcome D
drop_series ctx r = failed error_exec dropping_unsupported

unfoldable pub options : {D : Type 0} → Context → Form → Outcome D
options ctx r = no_content

-- What `Register` reads of a request: its method, the user of the header and of basic auth, empty
-- where there is none, and the form.
pub record ApiRequest : Type 0 where
  pub is_options : Bool
  pub header_user : Text
  pub basic_user : Text
  pub form : Form

-- respondError: the status of an error
unfoldable pub status_of : ErrorType → ℕ
status_of error_bad_data = 400
status_of error_exec = 422
status_of error_canceled = 503
status_of error_timeout = 503

-- What goes out: the JSON of data, or of an error. `json` is json.Marshal of a success with its data,
-- none if that fails: the body is empty then. A panic closes the connection without a reply.
unfoldable pub respond : {D : Type 0} → (D → Option (List ℕ)) → Outcome D → Option Reply
respond json (success d) = elim (json d) [
  | some bytes ↦ some (record { status = 200; body = bytes; error = none })
  | none ↦ some (record { status = 200; body = []; error = none })
]
respond json no_content = some (record { status = 204; body = []; error = none })
respond json (failed kind e) = some (record { status = status_of kind; body = []; error = some e })
respond json crashed = none

abbrev pub or_else_text : Text → Text → Text
or_else_text [] t = t
or_else_text (c ∷ s) t = c ∷ s

-- The user of a request; none is the error "missing user ID".
unfoldable pub user_of : ApiRequest → Option Text
user_of r =
    if r.is_options
    then some r.header_user
    else elim (or_else_text r.header_user r.basic_user) [ [] ↦ none | c ∷ s ↦ some (c ∷ s) ]

-- The handler that `Register` makes of an endpoint
unfoldable pub instrumented :
    {D : Type 0} → (D → Option (List ℕ)) → (Context → Form → Outcome D) → ApiRequest → Option Reply
instrumented json f r = elim (user_of r) [
  | none ↦ respond json (failed error_bad_data missing_user)
  | some user_id ↦ respond json (f (with_id none user_id) r.form)
]
