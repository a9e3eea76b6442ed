-- ===== src/Server.antt =====
-- server.go: the handlers of the ingester and of the distributor, from a request to a reply.
use frankenstein.Prelude.{ℕ, List, [], ◌∷◌, map, Option, none, some}
use frankenstein.Prelude.Int.{ℤ}
use frankenstein.Prelude.Order.{Text}
use frankenstein.Prelude.Result.{Result, ok, err, Error}
use frankenstein.User.{Context, with_id}
use frankenstein.Model.{MatchType, LabelMatcher, Sample, SampleStream}
use frankenstein.Wire.{
  TimeSeries, NamedSeries, WireMatcher, from_wire_matchers, to_named, write_samples,
}

-- What a handler reads of a request: the header X-Scope-OrgID, empty if there is none, and the body.
pub record Request : Type 0 where
  pub user_id : Text
  pub body : Result (List ℕ)

-- What it writes: the status and the body, and for http.Error the error whose text the body is.
pub record Reply : Type 0 where
  pub status : ℕ
  pub body : List ℕ
  pub error : Option Error

abbrev pub http_error : Option Error → ℕ → Reply
http_error error status = record { status = status; body = []; error = error }

abbrev pub written : List ℕ → Reply
written body = record { status = 200; body = body; error = none }

-- protobuf, for one type of message
pub record Coding (M : Type 0) : Type 0 where
  pub marshal : M → Result (List ℕ)
  pub unmarshal : List ℕ → Result M

-- generic.GenericReadRequest
pub record ReadRequest : Type 0 where
  pub start_ms : ℤ
  pub end_ms : ℤ
  pub matchers : List WireMatcher

-- The libraries under client and server: protobuf and snappy, and metric.NewLabelMatcher.
pub record Libs : Type 0 where
  pub compress : List ℕ → List ℕ
  pub decompress : List ℕ → Result (List ℕ)
  pub write_request : Coding (List TimeSeries)
  pub write_response : Coding (Unit {0})
  pub read_request : Coding ReadRequest
  pub read_response : Coding (List NamedSeries)
  pub values_request : Coding Text
  pub values_response : Coding (List Text)
  pub new_matcher : MatchType → Text → Text → Result LabelMatcher

-- What parseRequest comes to: a reply that ends the handler, or a context and the message.
pub data Parsed (M : Type 0) : Type 0 where
  aborted : Reply → Parsed M
  parsed : Context → M → Parsed M

-- parseRequest, when the header names a user
unfoldable pub parse_body : {M : Type 0} → Coding M → Text → Result (List ℕ) → Parsed M
parse_body coding user_id (err e) = aborted (http_error (some e) 400)
parse_body coding user_id (ok bytes) = elim (coding.unmarshal bytes) [
  | err e ↦ aborted (http_error (some e) 400)
  | ok req ↦ parsed (with_id none user_id) req
]

unfoldable pub parse_request : {M : Type 0} → Coding M → Request → Parsed M
parse_request coding r = elim r.user_id [
  | [] ↦ aborted (http_error none 401)
  | c ∷ cs ↦ parse_body coding (c ∷ cs) r.body
]

-- A write to the connection that fails reaches nobody; such failures are left out.
unfoldable pub write_response : {M : Type 0} → Coding M → M → Reply
write_response coding resp = elim (coding.marshal resp) [
  | err e ↦ http_error (some e) 500
  | ok bytes ↦ written bytes
]

module _ (libs : Libs) where
  -- AppenderHandler, from the samples on: grpcHandler.Write, and the reply
  unfoldable pub append_parsed :
      {W : Type 0}
      → (Context → List Sample → W → Option Error × W)
      → Context
      → List TimeSeries
      → W
      → Reply × W
  append_parsed append ctx req w =
      let (error, w1) = write_samples (append ctx) req w in
      elim error [
        | some e ↦ (http_error (some e) 500, w1)
        | none ↦ elim (libs.write_response.marshal tt) [
          | err e ↦ (http_error (some e) 500, w1)
          | ok bytes ↦ (written (libs.compress bytes), w1)
        ]
      ]

  -- AppenderHandler, over what Append does: the body is compressed.
  unfoldable pub appender_handler :
      {W : Type 0} → (Context → List Sample → W → Option Error × W) → Request → W → Reply × W
  appender_handler append r w = elim r.user_id [
    | [] ↦ (http_error none 401, w)
    | c ∷ cs ↦ elim r.body [
      | err e ↦ (http_error (some e) 400, w)
      | ok packed ↦ elim (libs.decompress packed) [
        | err e ↦ (http_error (some e) 400, w)
        | ok bytes ↦ elim (libs.write_request.unmarshal bytes) [
          | err e ↦ (http_error (some e) 400, w)
          | ok req ↦ append_parsed append (with_id none (c ∷ cs)) req w
        ]
      ]
    ]
  ]

  -- QueryHandler, from the matchers on
  unfoldable pub answer_query : Result (List SampleStream) → Reply
  answer_query (err e) = http_error (some e) 500
  answer_query (ok matrix) = write_response libs.read_response (map to_named matrix)

  -- QueryHandler, over what Query answers
  unfoldable pub query_handler :
      (Context → ℤ → ℤ → List LabelMatcher → Result (List SampleStream)) → Request → Reply
  query_handler query r = elim (parse_request libs.read_request r) [
    | aborted reply ↦ reply
    | parsed ctx req ↦ elim (from_wire_matchers libs.new_matcher req.matchers) [
      | err e ↦ http_error (some e) 400
      | ok matchers ↦ answer_query (query ctx req.start_ms req.end_ms matchers)
    ]
  ]

  -- LabelValuesHandler
  unfoldable pub answer_values : Result (List Text) → Reply
  answer_values (err e) = http_error (some e) 500
  answer_values (ok values) = write_response libs.values_response values

  unfoldable pub label_values_handler : (Context → Text → Result (List Text)) → Request → Reply
  label_values_handler label_values r = elim (parse_request libs.values_request r) [
    | aborted reply ↦ reply
    | parsed ctx name ↦ answer_values (label_values ctx name)
  ]
